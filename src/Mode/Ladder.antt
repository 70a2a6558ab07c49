-- ===== src/Mode/Ladder.antt =====
-- What the operator's confirmations bound.
use automatic_trading.Prelude.{
  ℕ, suc, ◌+◌, ◌≤◌, ◌≡◌, refl, ◌⊎◌, inl, Bool, false, String, List, [], ◌∷◌, arith, if◌then◌else◌,
}
use automatic_trading.Mode.{
  Mode, Mode-discrete, mode_rank, requires_confirmation, valid_mode_transitions, is_mode_of,
  can_transition, transition_mode, Climb, mode_after, run_modes, installing, shadow, paper,
  paper_validated, live_early, live_standard, live_expanded,
}

-- How many requests the operator confirmed.
abbrev pub confirmations : List Climb → ℕ
confirmations [] = 0
confirmations (c ∷ cs) =
    let rest = confirmations cs in if c.operator_confirmed then suc rest else rest

-- One attempt.
climb :
    (m n : Mode) (reason : String) (confirmed : Bool) (by : String)
    → let r = mode_rank (mode_after m (transition_mode m n reason confirmed by)) in
      (r ≤ mode_rank m + (if confirmed then 1 else 0)) ⊎ (r ≤ 2)
unfolding transition_mode can_transition is_mode_of valid_mode_transitions mode_rank
    requires_confirmation Mode-discrete
climb m n reason confirmed by = ground arith

-- Any history of requests, valid or not, ends at most as many modes above its first mode as the
-- operator confirmed requests, or at most that many above paper trading.
pub mode_rank-run_modes :
    (cs : List Climb) (m : Mode)
    → (mode_rank (run_modes cs m) ≤ mode_rank m + confirmations cs)
      ⊎ (mode_rank (run_modes cs m) ≤ 2 + confirmations cs)
unfolding run_modes
mode_rank-run_modes [] m = inl (omega arith)
mode_rank-run_modes (c ∷ cs) m =
    let once = climb m c.to_mode c.reason c.operator_confirmed c.triggered_by in
    let rest =
      mode_rank-run_modes cs
        (mode_after m (transition_mode m c.to_mode c.reason c.operator_confirmed c.triggered_by)) in
    ground (arith, once, rest)

-- From paper trading and every mode above it there is a mode one below, and the attempt to go there
-- succeeds without a confirmation.
pub transition_mode-demotion :
    (m : Mode) (reason by : String)
    → 2 ≤ mode_rank m
    → (n : Mode) × (mode_rank n + 1 ≡ mode_rank m)
      × (mode_after m (transition_mode m n reason false by) ≡ n)
unfolding transition_mode can_transition is_mode_of valid_mode_transitions mode_rank
    requires_confirmation Mode-discrete
transition_mode-demotion installing reason by h = absurd (omega arith)
transition_mode-demotion shadow reason by h = absurd (omega arith)
transition_mode-demotion paper reason by h = (shadow, refl, refl)
transition_mode-demotion paper_validated reason by h = (paper, refl, refl)
transition_mode-demotion live_early reason by h = (paper_validated, refl, refl)
transition_mode-demotion live_standard reason by h = (live_early, refl, refl)
transition_mode-demotion live_expanded reason by h = (live_standard, refl, refl)
