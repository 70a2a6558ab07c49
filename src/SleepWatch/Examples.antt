-- ===== src/SleepWatch/Examples.antt =====
-- A machine that slept for 500 seconds with a cycle under way, and one with a newer heartbeat.
use automatic_trading.Prelude.{
  true, false, ◌≡◌, refl, String, List, [], ◌∷◌, Option, none, some, inl,
}
use automatic_trading.Text.{codes}
use automatic_trading.Float.Fixed.{fixed, fixed_laws, pos, ◌-ℤ◌}
use automatic_trading.Checkpoint.{load_checkpoint, greater_seq}
use automatic_trading.SleepWatch.{
  Database, resume_cycle_if_needed, check_sleep_wake, detect_sleep_via_heartbeat, latest_heartbeat,
  later_heartbeat, sleep_since, find_incomplete_cycle, open_cycles, is_open, state_of,
  has_checkpoint,
}
use automatic_trading.SleepWatch.Resume.{
  IsLimit, IsResumed, files_of, any_open, resume_cycle_if_needed-IsResumed,
}

abbrev first_row : List String → Option String
first_row [] = none
first_row (id ∷ ids) = some id

first_row-IsLimit : (rows : List String) → IsLimit rows (first_row rows)
first_row-IsLimit [] = refl
first_row-IsLimit (id ∷ ids) = inl refl

abbrev database : Database
database = record {
  op_idempotency =
      record {
        cycle_id = "c1";
        op_seq = 2;
        op_type = "run_persona";
        completed_at = codes "t2";
        result_hash = none;
      }
      ∷ [];
  cycles = record { cycle_id = "c1"; state = "OPEN" } ∷ [];
}

abbrev files : Option (List (Option fixed.F))
files = some (none ∷ some (pos 5000000) ∷ some (pos 3000000) ∷ [])

resumed : resume_cycle_if_needed fixed first_row (pos 10000000) files (some database) ≡ true
unfolding resume_cycle_if_needed check_sleep_wake detect_sleep_via_heartbeat latest_heartbeat
    later_heartbeat sleep_since find_incomplete_cycle open_cycles is_open state_of has_checkpoint
    load_checkpoint greater_seq ◌-ℤ◌
resumed = refl

awake : resume_cycle_if_needed fixed first_row (pos 7000000) files (some database) ≡ false
unfolding resume_cycle_if_needed check_sleep_wake detect_sleep_via_heartbeat latest_heartbeat
    later_heartbeat sleep_since ◌-ℤ◌
awake = refl

resume_cycle_if_needed-IsResumed_example :
    IsResumed fixed
      (pos 10000000)
      (files_of fixed files)
      (any_open (some database))
      (resume_cycle_if_needed fixed first_row (pos 10000000) files (some database))
resume_cycle_if_needed-IsResumed_example =
    resume_cycle_if_needed-IsResumed fixed fixed_laws first_row first_row-IsLimit (pos 10000000)
      files (some database)
