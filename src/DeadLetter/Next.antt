-- ===== src/DeadLetter/Next.antt =====
-- Which entry `process_next` picks.
use automatic_trading.Prelude.{
  ℕ, ◌≤◌, ◌≡◌, leb, true, false, List, [], ◌∷◌, Option, none, some, All, All-map, arith, Bool-cases,
  inl, inr,
}
use automatic_trading.DeadLetter.{
  DeadLetterEntry, DeadLetterStore, is_open, insert_by_queued_at, open_rows, is_ready, first_ready,
  process_next, row_of,
}
use automatic_trading.DeadLetter.Open.{Fresh, Distinct, IsValid}

module _ (P : DeadLetterEntry → Type 0) where
  insert-All :
      (e : DeadLetterEntry) (es : List DeadLetterEntry)
      → P e
      → All P es
      → All P (insert_by_queued_at e es)
  unfolding insert_by_queued_at
  insert-All e [] p h = (p, tt)
  insert-All e (f ∷ es) p (h, k) = elim (Bool-cases (leb e.queued_at f.queued_at)) [
    | inl q ↦ rw q (p, (h, k))
    | inr q ↦ rw q (h, insert-All e es p k)
  ]

  insert-All_back :
      (e : DeadLetterEntry) (es : List DeadLetterEntry)
      → All P (insert_by_queued_at e es)
      → P e × All P es
  unfolding insert_by_queued_at
  insert-All_back e [] = λ h. h
  insert-All_back e (f ∷ es) = elim (Bool-cases (leb e.queued_at f.queued_at)) [
    | inl q ↦ rw q (λ h. h)
    | inr q ↦ rw q (λ (h, k). let (l, m) = insert-All_back e es k in (l, (h, m)))
  ]

  pub open_rows-All :
      (es : List DeadLetterEntry)
      → All (λ e. is_open e.status ≡ true → P e) es
      → All P (open_rows es)
  unfolding open_rows
  open_rows-All [] h = tt
  open_rows-All (e ∷ es) (h, k) = elim (Bool-cases (is_open e.status)) [
    | inl q ↦ rw q (insert-All e (open_rows es) (h q) (open_rows-All es k))
    | inr q ↦ rw q (open_rows-All es k)
  ]

  open_rows-All_back :
      (es : List DeadLetterEntry)
      → All P (open_rows es)
      → All (λ e. is_open e.status ≡ true → P e) es
  unfolding open_rows
  open_rows-All_back [] = λ h. tt
  open_rows-All_back (e ∷ es) = elim (Bool-cases (is_open e.status)) [
    | inl q ↦ rw q (λ h.
        let (l, m) = insert-All_back e (open_rows es) h in ((λ _. l), open_rows-All_back es m))
    | inr q ↦ rw q (λ h. ((λ r. ground (arith, r)), open_rows-All_back es h))
  ]

abbrev pub Sorted : List DeadLetterEntry → Type 0
Sorted [] = Unit
Sorted (e ∷ es) = (All (λ f. e.queued_at ≤ f.queued_at) es) × Sorted es

insert-Sorted :
    (e : DeadLetterEntry) (es : List DeadLetterEntry)
    → Sorted es
    → Sorted (insert_by_queued_at e es)
unfolding insert_by_queued_at
insert-Sorted e [] h = (tt, tt)
insert-Sorted e (f ∷ es) (h, k) = elim (Bool-cases (leb e.queued_at f.queued_at)) [
  | inl q ↦ rw q (
    (ground arith, All-map _ (λ g. e.queued_at ≤ g.queued_at) es (λ g r. ground (arith, q, r)) h),
    (h, k),
  )
  | inr q ↦
      rw q (insert-All (λ g. f.queued_at ≤ g.queued_at) e es (ground arith) h, insert-Sorted e es k)
]

open_rows-Sorted : (es : List DeadLetterEntry) → Sorted (open_rows es)
unfolding open_rows
open_rows-Sorted [] = tt
open_rows-Sorted (e ∷ es) = elim (Bool-cases (is_open e.status)) [
  | inl q ↦ rw q (insert-Sorted e (open_rows es) (open_rows-Sorted es))
  | inr q ↦ rw q (open_rows-Sorted es)
]

-- An entry is found under its key.
abbrev pub Found : List DeadLetterEntry → DeadLetterEntry → Type 0
Found es e = row_of e.id es ≡ some e

both-Found :
    (e : DeadLetterEntry) (es fs : List DeadLetterEntry)
    → Fresh e.id fs
    → All (Found es) fs
    → All (Found (e ∷ es)) fs
unfolding row_of
both-Found e es [] h k = tt
both-Found e es (f ∷ fs) (h, l) (k, m) = (ground (arith, h, k), both-Found e es fs l m)

pub Distinct-Found : (es : List DeadLetterEntry) → Distinct es → All (Found es) es
unfolding row_of
Distinct-Found [] h = tt
Distinct-Found (e ∷ es) (h, k) = (ground arith, both-Found e es es h (Distinct-Found es k))

-- What is known of the result of `first_ready` on a sorted list.
abbrev pub IsFirst :
    (now : ℕ)
    → List ℕ
    → (DeadLetterEntry → Type 0)
    → List DeadLetterEntry
    → Option DeadLetterEntry
    → Type 0
IsFirst now backoff P es none = All (λ f. is_ready now backoff f ≡ false) es
IsFirst now backoff P es (some e) =
    P e
    × (is_ready now backoff e ≡ true)
    × (All (λ f. is_ready now backoff f ≡ true → e.queued_at ≤ f.queued_at) es)

IsFirst-skip :
    (now : ℕ) (backoff : List ℕ) (P : DeadLetterEntry → Type 0) (e : DeadLetterEntry)
    (es : List DeadLetterEntry) (o : Option DeadLetterEntry)
    → is_ready now backoff e ≡ false
    → IsFirst now backoff P es o
    → IsFirst now backoff P (e ∷ es) o
IsFirst-skip now backoff P e es none q h = (q, h)
IsFirst-skip now backoff P e es (some f) q (h, k, l) = (h, k, ((λ r. ground (arith, q, r)), l))

first_ready-IsFirst :
    (now : ℕ) (backoff : List ℕ) (P : DeadLetterEntry → Type 0) (es : List DeadLetterEntry)
    → All P es
    → Sorted es
    → IsFirst now backoff P es (first_ready now backoff es)
unfolding first_ready
first_ready-IsFirst now backoff P [] h s = tt
first_ready-IsFirst now backoff P (e ∷ es) (h, k) (s, r) =
    elim (Bool-cases (is_ready now backoff e)) [
      | inl q ↦ rw (q, first_ready) (h, q, ((λ _. omega arith), All-map _ _ es (λ f l _. l) s))
      | inr q ↦
          rw (q, first_ready)
            (IsFirst-skip now backoff P e es _ q (first_ready-IsFirst now backoff P es k r))
    ]

-- The entry is in the table and open.
abbrev pub IsWaiting : DeadLetterStore → DeadLetterEntry → Type 0
IsWaiting s e = Found s.rows e × (is_open e.status ≡ true)

-- The answer of `process_next`: the open entry that is ready and was queued first.
abbrev pub IsNext : ℕ → DeadLetterStore → Option DeadLetterEntry → Type 0
IsNext now s none = All (λ f. is_open f.status ≡ true → is_ready now s.backoff f ≡ false) s.rows
IsNext now s (some e) =
    IsWaiting s e
    × (is_ready now s.backoff e ≡ true)
    × (All
        (λ f. is_open f.status ≡ true → is_ready now s.backoff f ≡ true → e.queued_at ≤ f.queued_at)
        s.rows)

IsFirst-IsNext :
    (now : ℕ) (s : DeadLetterStore) (o : Option DeadLetterEntry)
    → IsFirst now s.backoff (IsWaiting s) (open_rows s.rows) o
    → IsNext now s o
IsFirst-IsNext now s none h = open_rows-All_back _ s.rows h
IsFirst-IsNext now s (some e) (h, k, l) = (h, k, open_rows-All_back _ s.rows l)

-- `process_next` finds an open entry of the table that is ready and that no other such entry was queued
-- before; it finds none only if no open entry is ready.
pub process_next-IsNext :
    (now : ℕ) (s : DeadLetterStore) → IsValid s → IsNext now s (process_next now s)
unfolding process_next
process_next-IsNext now s v = IsFirst-IsNext now s _ (
    first_ready-IsFirst now s.backoff (IsWaiting s) (open_rows s.rows)
      (open_rows-All (IsWaiting s) s.rows
        (All-map _ _ s.rows (λ e h q. (h, q)) (Distinct-Found s.rows v.distinct)))
      (open_rows-Sorted s.rows))
