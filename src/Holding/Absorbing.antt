-- ===== src/Holding/Absorbing.antt =====
-- Terminal states, and the check of a transition against carrying it out.
use automatic_trading.Prelude.{
  Bool, true, false, ◌≡◌, refl, subst, ◌↔◌, ◌⊎◌, inl, inr, List, [], ◌∷◌, arith, Bool-cases,
}
use automatic_trading.Text.{Text}
use automatic_trading.Audit.{Disk}
use automatic_trading.Holding.{
  HoldingState, Refusal, OneOf, is_member-OneOf, panic_exit, delisted, interrupted, active,
  is_terminal, is_member, valid_transitions, is_valid_transition, Holding, Order, Result, ok,
  refused, terminal_state, apply_order, recorded, transition, after, run,
}

-- An order is carried out.
abbrev pub Accepted : {D : Type 0} → Result (Holding D × Disk) → Type 0
Accepted {D} r = (h : Holding D) × (d : Disk) × (r ≡ ok (h, d))

module _ {D : Type 0} (digest : Text → Text) (audited : Bool) where
  -- `transition` is carried out exactly when `is_valid_transition` says so.
  pub transition-is_valid_transition :
      (h : Holding D) (o : Order) (d : Disk)
      → Accepted (transition digest audited h o d)
        ↔ (is_valid_transition h.state o.new_state ≡ true)
  unfolding transition is_valid_transition
  transition-is_valid_transition h o d = (
    (λ (h', d', e). ground arith),
    λ e. (apply_order h o, recorded digest audited h o d, ground arith),
  )

  -- A history's next state is the one before, after a refusal, or that of a carried out order.
  pub after_cases :
      (h : Holding D) (o : Order) (d : Disk)
      → (after (h, d) (transition digest audited h o d) ≡ (h, d))
        ⊎ ((is_terminal h.state ≡ false)
            × (is_member o.new_state (valid_transitions h.state) ≡ true)
            × (after (h, d) (transition digest audited h o d)
                ≡ (apply_order h o, recorded digest audited h o d)))
  unfolding transition
  after_cases h o d = elim (Bool-cases (is_terminal h.state)) [
    | inl e ↦ inl (rw e refl)
    | inr e ↦ elim (Bool-cases (is_member o.new_state (valid_transitions h.state))) [
      | inl m ↦ inr (e, m, rw e (rw m refl))
      | inr m ↦ inl (rw e (rw m refl))
    ]
  ]

  transition-terminal :
      (h : Holding D) (o : Order) (d : Disk)
      → is_terminal h.state ≡ true
      → transition digest audited h o d ≡ refused terminal_state
  unfolding transition
  transition-terminal h o d e = rw e

  -- In a terminal state every history of orders leaves the holding, all its fields and the audit log
  -- as they are.
  pub run-terminal :
      (os : List Order) (h : Holding D) (d : Disk)
      → is_terminal h.state ≡ true
      → run digest audited os (h, d) ≡ (h, d)
  unfolding run
  run-terminal [] h d e = refl
  run-terminal (o ∷ os) h d e = rw (transition-terminal h o d e, run) (run-terminal os h d e)

-- The entries of the table that the check refuses are the three of `interrupted`.
refused_entries :
    (s t : HoldingState)
    → (is_terminal s ≡ true) × (is_member t (valid_transitions s) ≡ true)
    → (s ≡ interrupted) × OneOf t (active ∷ panic_exit ∷ delisted ∷ [])
unfolding is_terminal valid_transitions is_member
refused_entries s t (e, m) =
    let only : s ≡ interrupted = ground (arith, e, m) in
    (
      only,
      is_member-OneOf t (active ∷ panic_exit ∷ delisted ∷ [])
          (subst (λ s. is_member t (valid_transitions s) ≡ true) only m),
    )

entries_refused :
    (s t : HoldingState)
    → (s ≡ interrupted) × OneOf t (active ∷ panic_exit ∷ delisted ∷ [])
    → (is_terminal s ≡ true) × (is_member t (valid_transitions s) ≡ true)
unfolding is_terminal valid_transitions is_member
entries_refused s t (e, m) = rw e (refl, ground (arith, m))

module _ {D : Type 0} (digest : Text → Text) (audited : Bool) where
  transition-refused :
      (h : Holding D) (o : Order) (d : Disk) (r : Refusal)
      → transition digest audited h o d ≡ refused r
      → is_valid_transition h.state o.new_state ≡ false
  unfolding transition is_valid_transition
  transition-refused h o d r e = ground (arith, e)

  -- An order that the table of transitions lists is refused exactly if the holding is interrupted, and
  -- the order is then one of three: back to active, to the panic exit, or to delisted. The table lists
  -- these three, but the set of terminal states has `interrupted` too.
  pub transition-valid_transitions :
      (h : Holding D) (o : Order) (d : Disk)
      → ((is_member o.new_state (valid_transitions h.state) ≡ true)
          × ((r : Refusal) × (transition digest audited h o d ≡ refused r)))
        ↔ ((h.state ≡ interrupted) × OneOf o.new_state (active ∷ panic_exit ∷ delisted ∷ []))
  unfolding transition
  transition-valid_transitions h o d = (
    (λ (m, (r, e)). refused_entries h.state o.new_state (ground (arith, e, m), m)),
    λ q. let (e, m) = entries_refused h.state o.new_state q in (m, (terminal_state, rw e)),
  )
