-- ===== src/DeadLetter/Open.antt =====
-- What every history of calls of the queue keeps.
use automatic_trading.Prelude.{
  ℕ, suc, ◌+◌, ◌≤◌, ◌<◌, ◌≡◌, refl, sym, subst, ◌==◌, true, false, String, List, [], ◌∷◌, ◌++◌,
  Option, none, some, All, All-append, arith, Bool-cases, inl, inr,
}
use automatic_trading.Text.{Text}
use automatic_trading.Canonical.{Payload, canonical_json}
use automatic_trading.DeadLetter.{
  max_attempts, DeadLetterEntry, DeadLetterStore, is_open, is_failed, new_entry, enqueued, enqueue,
  mark_failed, failed_at, row_of, update_row, attempted, mark_resolved, resolve,
}

-- An open entry has attempts left, and a failed one has none.
abbrev pub IsCounted : DeadLetterEntry → Type 0
IsCounted e =
    (is_open e.status ≡ true → e.retry_count < max_attempts)
    × (is_failed e.status ≡ true → max_attempts ≤ e.retry_count)

-- No row has that key.
abbrev pub Fresh : ℕ → List DeadLetterEntry → Type 0
Fresh id = All λ e. (e.id == id) ≡ false

abbrev pub Distinct : List DeadLetterEntry → Type 0
Distinct [] = Unit
Distinct (e ∷ es) = Fresh e.id es × Distinct es

pub record IsValid (s : DeadLetterStore) : Type 0 where
  pub counted : All IsCounted s.rows
  pub distinct : Distinct s.rows
  pub bounded : All (λ e. e.id ≤ s.last_id) s.rows

-- A call of the queue that writes.
pub data Call : Type 0 where
  enqueues : (now : ℕ) → (op_type target_db : String) → Payload → Call
  marks_failed : (now id : ℕ) → (error : String) → Call
  marks_resolved : (id : ℕ) → Call

abbrev pub store_after :
    Option (DeadLetterEntry × DeadLetterStore) → DeadLetterStore → DeadLetterStore
store_after none s = s
store_after (some (e, t)) s = t

abbrev pub call : Call → DeadLetterStore → DeadLetterStore
call (enqueues now op_type target_db payload) s =
    store_after (enqueue now op_type target_db payload s) s
call (marks_failed now id error) s = mark_failed now id error s
call (marks_resolved id) s = mark_resolved id s

abbrev pub run : List Call → DeadLetterStore → DeadLetterStore
run [] s = s
run (c ∷ cs) s = run cs (call c s)

module _ (f : DeadLetterEntry → DeadLetterEntry) (id : ℕ)
    (same : (e : DeadLetterEntry) → (f e).id ≡ e.id) where
  update_row-All :
      (P : DeadLetterEntry → Type 0) (es : List DeadLetterEntry)
      → ((e : DeadLetterEntry) → P e → P (f e))
      → All P es
      → All P (update_row f id es)
  unfolding update_row
  update_row-All P [] g h = tt
  update_row-All P (e ∷ es) g (h, k) = elim (Bool-cases (e.id == id)) [
    | inl p ↦ rw p (g e h, update_row-All P es g k)
    | inr p ↦ rw p (h, update_row-All P es g k)
  ]

  pub update_row-Distinct :
      (es : List DeadLetterEntry) → Distinct es → Distinct (update_row f id es)
  unfolding update_row
  update_row-Distinct [] h = tt
  update_row-Distinct (e ∷ es) (h, k) =
      let fresh =
        update_row-All (λ g. (g.id == e.id) ≡ false) es (λ g q. ground (arith, same g, q)) h in
      elim (Bool-cases (e.id == id)) [
        | inl p ↦ rw p (
          subst (λ i. Fresh i (update_row f id es)) (sym (same e)) fresh,
          update_row-Distinct es k,
        )
        | inr p ↦ rw p (fresh, update_row-Distinct es k)
      ]

snoc-Distinct :
    (e : DeadLetterEntry) (es : List DeadLetterEntry)
    → Distinct es
    → All (λ f. f.id < e.id) es
    → Distinct (es ++ e ∷ [])
snoc-Distinct e [] h k = (tt, tt)
snoc-Distinct e (f ∷ es) (h, k) (l, m) = (
  All-append (λ g. (g.id == f.id) ≡ false) es (e ∷ []) h (ground (arith, l), tt),
  snoc-Distinct e es k m,
)

weaken :
    (n : ℕ) (es : List DeadLetterEntry)
    → All (λ e. e.id ≤ n) es
    → (All (λ e. e.id ≤ suc n) es) × (All (λ e. e.id < suc n) es)
weaken n [] h = (tt, tt)
weaken n (e ∷ es) (h, k) =
    let (l, m) = weaken n es k in ((omega (arith, h), l), (omega (arith, h), m))

enqueued-IsValid :
    (now : ℕ) (op_type target_db : String) (payload : Option Text) (s : DeadLetterStore)
    → IsValid s
    → IsValid (store_after (enqueued now op_type target_db payload s) s)
unfolding enqueued new_entry is_open is_failed
enqueued-IsValid now op_type target_db none s v = v
enqueued-IsValid now op_type target_db (some payload) s v =
    let (b, l) = weaken s.last_id s.rows v.bounded in
    record {
      counted =
          All-append IsCounted s.rows _ v.counted
            (((λ _. omega arith), λ e. ground (arith, e)), tt);
      distinct = snoc-Distinct _ s.rows v.distinct l;
      bounded = All-append (λ e. e.id ≤ suc s.last_id) s.rows _ b (omega arith, tt);
    }

attempted-IsCounted :
    (now : ℕ) (error : String) (n : ℕ) (e : DeadLetterEntry) → IsCounted (attempted now error n e)
unfolding attempted is_open is_failed
attempted-IsCounted now error n e = ground arith

failed_at-IsValid :
    (now : ℕ) (error : String) (id : ℕ) (o : Option DeadLetterEntry) (s : DeadLetterStore)
    → IsValid s
    → IsValid (failed_at now error id o s)
unfolding failed_at attempted
failed_at-IsValid now error id none s v = v
failed_at-IsValid now error id (some f) s v = record {
  counted =
      update_row-All _ id (λ e. refl) IsCounted s.rows
        (λ e _. attempted-IsCounted now error (f.retry_count + 1) e) v.counted;
  distinct = update_row-Distinct _ id (λ e. refl) s.rows v.distinct;
  bounded = update_row-All _ id (λ e. refl) (λ e. e.id ≤ s.last_id) s.rows (λ e h. h) v.bounded;
}

pub call-IsValid : (c : Call) (s : DeadLetterStore) → IsValid s → IsValid (call c s)
unfolding enqueue mark_failed mark_resolved resolve is_open is_failed
call-IsValid (enqueues now op_type target_db payload) s v =
    enqueued-IsValid now op_type target_db (canonical_json payload) s v
call-IsValid (marks_failed now id error) s v = failed_at-IsValid now error id (row_of id s.rows) s v
call-IsValid (marks_resolved id) s v = record {
  counted = update_row-All resolve id (λ e. refl) IsCounted s.rows (λ e _. ground arith) v.counted;
  distinct = update_row-Distinct resolve id (λ e. refl) s.rows v.distinct;
  bounded =
      update_row-All resolve id (λ e. refl) (λ e. e.id ≤ s.last_id) s.rows (λ e h. h) v.bounded;
}

-- Every history of calls that write keeps this of the table, the calls that name a closed or a missing
-- entry included: an open entry has had fewer than six attempts, a failed one at least six, and no two
-- entries have the same key.
pub run-IsValid : (cs : List Call) (s : DeadLetterStore) → IsValid s → IsValid (run cs s)
run-IsValid [] s v = v
run-IsValid (c ∷ cs) s v = run-IsValid cs (call c s) (call-IsValid c s v)
