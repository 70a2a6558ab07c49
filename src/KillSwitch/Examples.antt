-- ===== src/KillSwitch/Examples.antt =====
-- A switch that is engaged twice and lifted while its condition still holds, and a loss between two rows.
use automatic_trading.Prelude.{
  true, false, ◌≡◌, refl, String, List, [], ◌∷◌, Option, none, some, arith,
}
use automatic_trading.Text.{codes}
use automatic_trading.Audit.{verify_full, byte_size}
use automatic_trading.Audit.Toy.{toy_digest, no_log}
use automatic_trading.Float.Fixed.{fixed, pos}
use automatic_trading.Cash.{Snapshot}
use automatic_trading.KillSwitch.{
  World, Row, engaged, Args, disengage, is_engaged, ensured, row_engaged,
}
use automatic_trading.KillSwitch.Triggers.{TriggerResult, crash_loop, check_all_triggers}
use automatic_trading.KillSwitch.Safety.{Call, engages, disengages, run, disengage_lem}
use automatic_trading.KillSwitch.Trail.{Shows, run-Shows, StaysProper}
use automatic_trading.KillSwitch.Daemon.{
  any_triggered, check_triggers_and_engage, check_triggers_and_engage-is_engaged,
}
use automatic_trading.KillSwitch.Losses.{all_failing}

abbrev at : String → Args
at reason = record {
  reason = reason;
  cycle_id = "c1";
  audited = true;
  is_test = false;
  clock = record { now = codes "2026-06-30 12:00:00"; audit_now = codes "2026-06-30T12:00:00" };
}

abbrev fresh : World
fresh = record { row = none; proposals = none; disk = no_log; published = []; notes = [] }

abbrev on_row : Row
on_row = record {
  state = engaged;
  reason = some "loop";
  trigger_name = some "CRASH_LOOP";
  engaged_at = some (codes "2026-06-30 12:00:00");
  disengaged_at = none;
  updated_at = codes "2026-06-30 12:00:00";
}

abbrev on : World
on = record fresh { row = some on_row }

-- The condition still holds.
abbrev looping : Option (List TriggerResult)
looping = some (record { trigger_id = crash_loop; triggered = true } ∷ [])

abbrev calls : List Call
calls =
    engages "CRASH_LOOP" (at "loop")
    ∷ engages "MANUAL" (at "again")
    ∷ disengages looping (at "ok")
    ∷ []

disengage_lem_example : (disengage toy_digest looping (at "ok") on).0 ≡ true
unfolding is_engaged ensured row_engaged
disengage_lem_example = (disengage_lem toy_digest looping none (at "ok") on).0

run-Shows_example :
    Shows (is_engaged (run toy_digest calls fresh)) (run toy_digest calls fresh).published
unfolding is_engaged ensured row_engaged
run-Shows_example = run-Shows toy_digest calls fresh refl

calls-StaysProper : StaysProper toy_digest (engages "CRASH_LOOP" (at "loop") ∷ []) fresh
unfolding byte_size
calls-StaysProper = (((λ e. cc), omega arith), omega arith, tt)

-- $5,000 in cash.
abbrev start : Snapshot fixed
start = record {
  snapshot_at = 1;
  cash_usd = pos 50000000;
  positions_value_usd = pos 0;
  total_value_usd = pos 50000000;
}

-- $1,000 less.
abbrev lower : Snapshot fixed
lower = record start { snapshot_at = 2; total_value_usd = pos 40000000 }

-- The disk is nearly full.
check_triggers_and_engage-is_engaged_example :
    is_engaged (
      check_triggers_and_engage fixed toy_digest
        (λ t. "low")
        (at "").clock
        (record (all_failing fixed 7) { disk_low = some true })
        fresh)
    ≡ true
unfolding is_engaged ensured row_engaged any_triggered check_all_triggers verify_full
check_triggers_and_engage-is_engaged_example =
    check_triggers_and_engage-is_engaged fixed toy_digest (λ t. "low") (at "").clock
      (record (all_failing fixed 7) { disk_low = some true }) fresh
