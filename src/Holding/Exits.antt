-- ===== src/Holding/Exits.antt =====
-- What a holding records when it ends.
use automatic_trading.Prelude.{
  ℕ, Bool, true, ◌≡◌, ◌≢◌, refl, List, [], ◌∷◌, none, some, arith, inl, inr, ◌∙◌, String,
}
use automatic_trading.Text.{Text}
use automatic_trading.Audit.{Disk}
use automatic_trading.Holding.{
  is_terminal, is_abort_reason_state, Holding, Order, apply_order, transition, after, run,
}
use automatic_trading.Holding.Absorbing.{after_cases}

-- A holding in a terminal state has its exit date and the cycle that closed it, and an aborted one
-- has a reason.
pub record IsComplete {D : Type 0} (h : Holding D) : Type 0 where
  pub dated : is_terminal h.state ≡ true → h.exit_date ≢ none
  pub closed : is_terminal h.state ≡ true → h.cycle_id_closed ≢ none
  pub explained : is_abort_reason_state h.state ≡ true → h.abort_reason ≢ none

module _ {D : Type 0} (digest : Text → Text) (audited : Bool) where
  apply_order-IsComplete : (h : Holding D) (o : Order) → IsComplete (apply_order h o)
  unfolding apply_order
  apply_order-IsComplete h o = ground arith

  after-IsComplete :
      (h : Holding D) (o : Order) (d : Disk)
      → IsComplete h
      → IsComplete (after (h, d) (transition digest audited h o d)).0
  after-IsComplete h o d k = elim (after_cases digest audited h o d) [
    | inl e ↦ rw e k
    | inr (_, _, e) ↦ rw e (apply_order-IsComplete h o)
  ]

  -- Every history of orders, refused ones among them, keeps a holding complete: once it is in a
  -- terminal state it has an exit date and the cycle that closed it, and in an aborted state a reason.
  pub run-IsComplete :
      (os : List Order) (h : Holding D) (d : Disk)
      → IsComplete h
      → IsComplete (run digest audited os (h, d)).0
  unfolding run
  run-IsComplete [] h d k = k
  run-IsComplete (o ∷ os) h d k =
      let (h', d') = after (h, d) (transition digest audited h o d) in
      run-IsComplete os h' d' (after-IsComplete h o d k)

  -- What a later state of the same holding keeps.
  abbrev pub Keeps : Holding D → Holding D → Type 0
  Keeps h h' =
      (h'.id ≡ h.id)
      × (h'.details ≡ h.details)
      × ((t : ℕ) → h.exit_date ≡ some t → h'.exit_date ≡ some t)
      × ((c : String) → h.cycle_id_closed ≡ some c → h'.cycle_id_closed ≡ some c)

  apply_order-Keeps : (h : Holding D) (o : Order) → Keeps h (apply_order h o)
  unfolding apply_order
  apply_order-Keeps h o = (refl, refl, (λ t e. ground arith), λ c e. ground arith)

  after-Keeps :
      (h : Holding D) (o : Order) (d : Disk)
      → Keeps h (after (h, d) (transition digest audited h o d)).0
  after-Keeps h o d = elim (after_cases digest audited h o d) [
    | inl e ↦ rw e ((refl, refl, (λ t p. p), λ c p. p))
    | inr (_, _, e) ↦ rw e (apply_order-Keeps h o)
  ]

  -- No history of orders touches the identifier or the other details, and what was recorded of an
  -- exit date or a closing cycle stays.
  pub run-Keeps :
      (os : List Order) (h : Holding D) (d : Disk) → Keeps h (run digest audited os (h, d)).0
  unfolding run
  run-Keeps [] h d = (refl, refl, (λ t e. e), λ c e. e)
  run-Keeps (o ∷ os) h d =
      let s = after (h, d) (transition digest audited h o d) in
      let (i, x, t, c) = after-Keeps h o d in
      let (i', x', t', c') = run-Keeps os s.0 s.1 in
      (i' ∙ i, x' ∙ x, (λ n e. t' n (t n e)), λ n e. c' n (c n e))
