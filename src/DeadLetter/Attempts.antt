-- ===== src/DeadLetter/Attempts.antt =====
-- How often the entries of the queue are tried. A worker's round is the one that the class documents:
-- take the next entry, try it, and mark it as resolved or failed.
use automatic_trading.Prelude.{
  ℕ, ◌+◌, ◌-◌, ◌*◌, ◌≤◌, ◌<◌, ◌≡◌, refl, sym, subst, ◌==◌, true, false, String, List, [], ◌∷◌,
  length, Option, none, some, arith, if◌then◌else◌, Bool-cases, Option-cases, inl, inr,
}
use automatic_trading.DeadLetter.{
  max_attempts, DeadLetterEntry, DeadLetterStore, is_open, is_ready, process_next, mark_failed,
  failed_at, mark_resolved, row_of, update_row, attempted, resolve,
}
use automatic_trading.DeadLetter.Open.{
  Fresh, Distinct, IsValid, marks_failed, marks_resolved, call-IsValid,
}
use automatic_trading.DeadLetter.Next.{Found, IsNext, process_next-IsNext}

-- A round: its time, the time of the mark, and the error of the attempt if it fails.
pub record Round : Type 0 where
  pub now : ℕ
  pub marked_at : ℕ
  pub error : Option String

unfoldable pub mark :
    Round → Option String → Option DeadLetterEntry → DeadLetterStore → DeadLetterStore
unfolding mark_failed mark_resolved
mark r error none s = s
mark r none (some e) s = mark_resolved e.id s
mark r (some error) (some e) s = mark_failed r.marked_at e.id error s

unfoldable pub round : Round → DeadLetterStore → DeadLetterStore
unfolding mark
round r s = mark r r.error (process_next r.now s) s

unfoldable pub tried : Option DeadLetterEntry → ℕ
tried none = 0
tried (some e) = 1

-- The number of attempts that the rounds make.
unfoldable pub attempts : List Round → DeadLetterStore → ℕ
unfolding round tried
attempts [] s = 0
attempts (r ∷ rs) s = tried (process_next r.now s) + attempts rs (round r s)

-- The attempts that are left to an entry.
abbrev pub left_to : DeadLetterEntry → ℕ
left_to e = if is_open e.status then max_attempts - e.retry_count else 0

abbrev pub all_left : List DeadLetterEntry → ℕ
all_left [] = 0
all_left (e ∷ es) = left_to e + all_left es

update_row-Fresh :
    (f : DeadLetterEntry → DeadLetterEntry) (id : ℕ) (es : List DeadLetterEntry)
    → Fresh id es
    → update_row f id es ≡ es
unfolding update_row
update_row-Fresh f id [] h = refl
update_row-Fresh f id (e ∷ es) (h, k) = ground (arith, h, update_row-Fresh f id es k)

same_key : (a b : ℕ) → (a == b) ≡ true → a ≡ b
same_key a b e = ground (arith, e)

row_of-head :
    (id : ℕ) (g e : DeadLetterEntry) (es : List DeadLetterEntry)
    → (g.id == id) ≡ true
    → row_of id (g ∷ es) ≡ some e
    → g ≡ e
unfolding row_of
row_of-head id g e es q r = ground (arith, q, r)

row_of-tail :
    (id : ℕ) (g e : DeadLetterEntry) (es : List DeadLetterEntry)
    → (g.id == id) ≡ false
    → row_of id (g ∷ es) ≡ some e
    → row_of id es ≡ some e
unfolding row_of
row_of-tail id g e es q r = ground (arith, q, r)

all_left-update_row :
    (f : DeadLetterEntry → DeadLetterEntry) (id : ℕ) (e : DeadLetterEntry)
    (es : List DeadLetterEntry)
    → Distinct es
    → row_of id es ≡ some e
    → left_to (f e) < left_to e
    → all_left (update_row f id es) < all_left es
unfolding update_row row_of
all_left-update_row f id e [] d r l = ground arith
all_left-update_row f id e (g ∷ es) (h, d) r l = elim (Bool-cases (g.id == id)) [
  | inl q ↦
      let p = row_of-head id g e es q r in
      let less = subst (λ x. left_to (f x) < left_to x) (sym p) l in
      let fresh = update_row-Fresh f id es (subst (λ i. Fresh i es) (same_key g.id id q) h) in
      rw (q, update_row) (rw (fresh, update_row) (omega (arith, less)))
  | inr q ↦
      let rest = all_left-update_row f id e es d (row_of-tail id g e es q r) l in
      rw (q, update_row) (omega (arith, rest))
]

mark-all_left :
    (r : Round) (error : Option String) (e : DeadLetterEntry) (s : DeadLetterStore)
    → IsValid s
    → Found s.rows e
    → is_open e.status ≡ true
    → e.retry_count < max_attempts
    → all_left (mark r error (some e) s).rows < all_left s.rows
unfolding mark mark_failed failed_at mark_resolved resolve attempted is_open
mark-all_left r none e s v h o c =
    all_left-update_row resolve e.id e s.rows v.distinct h (ground (arith, o, c))
mark-all_left r (some error) e s v h o c =
    rw (h, failed_at)
      (all_left-update_row (attempted r.marked_at error (e.retry_count + 1)) e.id e s.rows
        v.distinct h (ground (arith, o, c)))

ready-left :
    (now : ℕ) (backoff : List ℕ) (e : DeadLetterEntry)
    → is_ready now backoff e ≡ true
    → e.retry_count < max_attempts
unfolding is_ready
ready-left now backoff e k = ground (arith, k)

mark-IsValid :
    (r : Round) (error : Option String) (o : Option DeadLetterEntry) (s : DeadLetterStore)
    → IsValid s
    → IsValid (mark r error o s)
unfolding mark
mark-IsValid r error none s v = v
mark-IsValid r none (some e) s v = call-IsValid (marks_resolved e.id) s v
mark-IsValid r (some error) (some e) s v = call-IsValid (marks_failed r.marked_at e.id error) s v

round-IsValid : (r : Round) (s : DeadLetterStore) → IsValid s → IsValid (round r s)
unfolding round
round-IsValid r s v = mark-IsValid r r.error (process_next r.now s) s v

-- What a round uses up.
round-all_left :
    (r : Round) (s : DeadLetterStore)
    → IsValid s
    → tried (process_next r.now s) + all_left (round r s).rows ≤ all_left s.rows
unfolding round tried
round-all_left r s v = elim (Option-cases (process_next r.now s)) [
  | inl e ↦ rw e (omega arith)
  | inr (f, e) ↦
      let (w, k, _) = subst (IsNext r.now s) e (process_next-IsNext r.now s v) in
      let less = mark-all_left r r.error f s v w.0 w.1 (ready-left r.now s.backoff f k) in
      rw e (omega (arith, less))
]

attempts-all_left :
    (rs : List Round) (s : DeadLetterStore) → IsValid s → attempts rs s ≤ all_left s.rows
unfolding attempts
attempts-all_left [] s v = omega arith
attempts-all_left (r ∷ rs) s v =
    omega (arith, round-all_left r s v, attempts-all_left rs (round r s) (round-IsValid r s v))

all_left-length : (es : List DeadLetterEntry) → all_left es ≤ max_attempts * length es
all_left-length [] = omega arith
all_left-length (e ∷ es) = ground (arith, all_left-length es)

-- However many rounds a worker makes, at whatever times and with whatever errors, they make at most
-- six attempts for each entry of the table: the work on a queue that nothing is added to ends.
pub attempts-bounded :
    (rs : List Round) (s : DeadLetterStore)
    → IsValid s
    → attempts rs s ≤ max_attempts * length s.rows
attempts-bounded rs s v = omega (arith, attempts-all_left rs s v, all_left-length s.rows)
