-- ===== src/Mode/Examples.antt =====
-- A ladder climbed by two confirmed requests and a third that is refused.
use automatic_trading.Prelude.{◌+◌, ◌≤◌, ◌≡◌, refl, ◌⊎◌, true, false, List, [], ◌∷◌}
use automatic_trading.Mode.{
  Mode-discrete, Climb, mode_rank, run_modes, transition_mode, can_transition, is_mode_of,
  valid_mode_transitions, requires_confirmation, paper, paper_validated, live_early, live_standard,
  installing,
}
use automatic_trading.Mode.Ladder.{confirmations, mode_rank-run_modes}

abbrev climbs : List Climb
climbs =
    record {
      to_mode = paper;
      reason = "set up";
      operator_confirmed = false;
      triggered_by = "OPERATOR";
    }
    ∷ record {
      to_mode = paper_validated;
      reason = "gate";
      operator_confirmed = true;
      triggered_by = "OPERATOR";
    }
    ∷ record {
      to_mode = live_early;
      reason = "go";
      operator_confirmed = true;
      triggered_by = "OPERATOR";
    }
    ∷ record {
      to_mode = live_standard;
      reason = "more";
      operator_confirmed = false;
      triggered_by = "OPERATOR";
    }
    ∷ []

climbed : run_modes climbs installing ≡ live_early
unfolding run_modes transition_mode can_transition is_mode_of valid_mode_transitions mode_rank
    requires_confirmation Mode-discrete
climbed = refl

mode_rank-run_modes_example :
    (mode_rank (run_modes climbs installing) ≤ mode_rank installing + confirmations climbs)
    ⊎ (mode_rank (run_modes climbs installing) ≤ 2 + confirmations climbs)
mode_rank-run_modes_example = mode_rank-run_modes climbs installing
