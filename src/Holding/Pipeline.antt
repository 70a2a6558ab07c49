-- ===== src/Holding/Pipeline.antt =====
-- The stages that a holding goes through before it is a position.
use automatic_trading.Prelude.{Bool, true, ◌≡◌, inl, inr, List, [], ◌∷◌, arith}
use automatic_trading.Text.{Text}
use automatic_trading.Audit.{Disk}
use automatic_trading.Holding.{
  HoldingState, candidate, phase1_research, phase2_crucible, approved_pending, aborted_pre_llm,
  aborted_llm, aborted_risk, phase1_timeout, is_member, is_member-OneOf, OneOf, is_member-head,
  is_member-tail, valid_transitions, Holding, Order, apply_order, transition, after, run,
}
use automatic_trading.Holding.Absorbing.{after_cases}

-- The states that have been left on the way, newest first, behind those given.
unfoldable pub left_behind :
    {D : Type 0}
    → (Text → Text)
    → Bool
    → List Order
    → Holding D × Disk
    → List HoldingState
    → List HoldingState
left_behind digest audited [] s seen = seen
left_behind digest audited (o ∷ os) (h, d) seen =
    left_behind digest audited os (after (h, d) (transition digest audited h o d)) (h.state ∷ seen)

-- What must have been left behind before a state: nothing for the first states and the aborts, the
-- research for the crucible, and so on; all three stages for a position and for what it ends in.
abbrev pub Prerequisites : HoldingState → List HoldingState → Type 0
Prerequisites candidate seen = Unit
Prerequisites phase1_research seen = Unit
Prerequisites phase1_timeout seen = is_member phase1_research seen ≡ true
Prerequisites aborted_pre_llm seen = Unit
Prerequisites aborted_llm seen = is_member phase1_research seen ≡ true
Prerequisites aborted_risk seen = is_member approved_pending seen ≡ true
Prerequisites phase2_crucible seen = is_member phase1_research seen ≡ true
Prerequisites approved_pending seen =
    (is_member phase1_research seen ≡ true) × (is_member phase2_crucible seen ≡ true)
Prerequisites _ seen =
    (is_member phase1_research seen ≡ true)
    × (is_member phase2_crucible seen ≡ true)
    × (is_member approved_pending seen ≡ true)

Prerequisites-keep :
    (s t : HoldingState) (seen : List HoldingState)
    → Prerequisites s seen
    → Prerequisites s (t ∷ seen)
Prerequisites-keep candidate t seen p = tt
Prerequisites-keep s t seen p = ground (
  arith,
  is_member-tail phase1_research t seen,
  is_member-tail phase2_crucible t seen,
  is_member-tail approved_pending t seen,
)

Prerequisites-step :
    (s t : HoldingState) (seen : List HoldingState)
    → OneOf t (valid_transitions s)
    → Prerequisites s seen
    → Prerequisites t (s ∷ seen)
unfolding valid_transitions
Prerequisites-step candidate t seen m p = ground (arith, is_member-head candidate seen)
Prerequisites-step s t seen m p = ground (
  arith,
  is_member-head s seen,
  is_member-tail phase1_research s seen,
  is_member-tail phase2_crucible s seen,
  is_member-tail approved_pending s seen,
)

module _ {D : Type 0} (digest : Text → Text) (audited : Bool) where
  after-Prerequisites :
      (h : Holding D) (o : Order) (d : Disk) (seen : List HoldingState)
      → Prerequisites h.state seen
      → Prerequisites (after (h, d) (transition digest audited h o d)).0.state (h.state ∷ seen)
  unfolding apply_order
  after-Prerequisites h o d seen p = elim (after_cases digest audited h o d) [
    | inl e ↦ rw e (Prerequisites-keep h.state h.state seen p)
    | inr (_, m, e) ↦ rw e (
        Prerequisites-step h.state o.new_state seen
          (is_member-OneOf o.new_state (valid_transitions h.state) m) p)
  ]

  -- However a holding is ordered about, in each state that it comes to the stages before that state
  -- have been left behind, if that was so at the beginning. So a holding that began as a candidate and
  -- is a position, or has ended as one, went through research, the crucible and approval; one aborted
  -- for risk had been approved.
  pub run-Prerequisites :
      (os : List Order) (h : Holding D) (d : Disk) (seen : List HoldingState)
      → Prerequisites h.state seen
      → Prerequisites
          (run digest audited os (h, d)).0.state
          (left_behind digest audited os (h, d) seen)
  unfolding run left_behind
  run-Prerequisites [] h d seen p = p
  run-Prerequisites (o ∷ os) h d seen p =
      let s = after (h, d) (transition digest audited h o d) in
      run-Prerequisites os s.0 s.1 (h.state ∷ seen) (after-Prerequisites h o d seen p)
