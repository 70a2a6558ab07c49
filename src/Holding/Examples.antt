-- ===== src/Holding/Examples.antt =====
-- Lives of a holding.
use automatic_trading.Prelude.{true, false, ◌≡◌, refl, List, [], ◌∷◌, none}
use automatic_trading.Text.{codes}
use automatic_trading.Audit.{Disk}
use automatic_trading.Audit.Toy.{toy_digest, no_log}
use automatic_trading.Holding.{
  OneOf, panic_exit, delisted, HoldingState, candidate, phase1_research, phase2_crucible,
  approved_pending, active, interrupted, stopped_out, Holding, Order, terminal_state, transition,
  run, is_terminal, is_member, is_abort_reason_state, valid_transitions,
}
use automatic_trading.Holding.Absorbing.{transition-valid_transitions}
use automatic_trading.Holding.Exits.{IsComplete, run-IsComplete}
use automatic_trading.Holding.Pipeline.{left_behind, run-Prerequisites}

abbrev to_state : HoldingState → Order
to_state s = record {
  new_state = s;
  reason = "price";
  cycle_id = "c1";
  op_seq = 1;
  clock = record { now = codes "2026-06-30T12:00:00+00:00"; today = 20634 };
}

abbrev new_holding : Holding Unit
new_holding = record {
  id = "0123456789";
  state = candidate;
  abort_reason = none;
  exit_date = none;
  cycle_id_closed = none;
  updated_at = codes "2026-06-30T11:00:00+00:00";
  details = tt;
}

-- From research to a stop, with an order out of turn and one too many.
abbrev life : List Order
life =
    to_state phase1_research
    ∷ to_state active
    ∷ to_state phase2_crucible
    ∷ to_state approved_pending
    ∷ to_state active
    ∷ to_state stopped_out
    ∷ to_state active
    ∷ []

abbrev lived : Holding Unit × Disk
unfolding run
lived = run toy_digest false life (new_holding, no_log)

lived_state : lived.0.state ≡ stopped_out
unfolding lived is_terminal is_member valid_transitions
lived_state = refl

new_holding-IsComplete : IsComplete new_holding
unfolding is_terminal is_abort_reason_state
new_holding-IsComplete = record { dated = λ e. cc; closed = λ e. cc; explained = λ e. cc }

run-IsComplete_example : IsComplete lived.0
unfolding lived
run-IsComplete_example =
    run-IsComplete toy_digest false life new_holding no_log new_holding-IsComplete

run-Prerequisites_example :
    is_member approved_pending (left_behind toy_digest false life (new_holding, no_log) []) ≡ true
unfolding run is_terminal is_member valid_transitions
run-Prerequisites_example = (run-Prerequisites toy_digest false life new_holding no_log [] tt).2

abbrev stopped : Holding Unit
stopped = record new_holding { state = interrupted }

transition-valid_transitions_example :
    (stopped.state ≡ interrupted) × OneOf active (active ∷ panic_exit ∷ delisted ∷ [])
unfolding transition is_terminal is_member valid_transitions
transition-valid_transitions_example =
    (transition-valid_transitions toy_digest true stopped (to_state active) no_log).0
      (refl, (terminal_state, refl))

-- The second order is out of turn.
abbrev begun : List Order
begun = to_state phase1_research ∷ to_state active ∷ to_state phase2_crucible ∷ []

abbrev begun_log : Disk
begun_log = (run toy_digest true begun (new_holding, no_log)).1
