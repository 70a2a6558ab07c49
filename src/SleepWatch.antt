-- ===== src/SleepWatch.antt =====
-- pmacs/cortex/sleep_watch.py: whether the machine slept, and whether a cycle has to be resumed. The
-- heartbeat files are the floats they hold, none for a file that cannot be read; the directory and the
-- database may be missing. Which row the query of _find_incomplete_cycle puts first is open in SQL, since
-- it sorts DISTINCT rows by a column that it does not select: an argument. The debug log is left out.
mod Newest
mod Resume
mod Examples
use automatic_trading.Prelude.{
  Bool, true, false, not, String, str_eq, List, [], ◌∷◌, Option, none, some, map, select,
  if◌then◌else◌,
}
use automatic_trading.Float.{Num}
use automatic_trading.Checkpoint.{CheckpointState, load_checkpoint}

-- What the query reads of a row of `cycles`.
pub record Cycle : Type 0 where
  pub cycle_id : String
  pub state : String

pub record Database : Type 0 where
  pub op_idempotency : List CheckpointState
  pub cycles : List Cycle

unfoldable pub state_of : String → List Cycle → Option String
state_of cycle_id [] = none
state_of cycle_id (c ∷ cs) =
    let rest = state_of cycle_id cs in if str_eq c.cycle_id cycle_id then some c.state else rest

-- The condition of the query: c.state != 'CLOSED' OR c.cycle_id IS NULL
unfoldable pub is_open : List Cycle → CheckpointState → Bool
unfolding state_of
is_open cycles c = elim (state_of c.cycle_id cycles) [
  | none ↦ true
  | some state ↦ not (str_eq state "CLOSED")
]

-- The rows that match, before DISTINCT drops the repetitions.
unfoldable pub open_cycles : Database → List String
unfolding is_open
open_cycles db = map (λ c. c.cycle_id) (select (is_open db.cycles) db.op_idempotency)

unfoldable pub find_incomplete_cycle :
    (List String → Option String) → Option Database → Option String
unfolding open_cycles
find_incomplete_cycle first_row none = none
find_incomplete_cycle first_row (some db) = first_row (open_cycles db)

unfoldable pub has_checkpoint : Option String → Option Database → Bool
unfolding load_checkpoint
has_checkpoint none db = false
has_checkpoint (some cycle_id) none = false
has_checkpoint (some cycle_id) (some db) = elim (load_checkpoint cycle_id db.op_idempotency) [
  | none ↦ false
  | some c ↦ true
]

module _ (N : Num) where
  pub record SleepWakeResult : Type 0 where
    pub sleep_detected : Bool
    pub wake_detected : Bool
    pub gap_seconds : Option N.F
    pub incomplete_cycle_id : Option String

  abbrev pub sleep_gap_threshold : N.F
  sleep_gap_threshold = N.lit 300 0

  -- A file in the loop, and the latest time before it.
  unfoldable pub later_heartbeat : Option N.F → Option N.F → Option N.F
  later_heartbeat none latest_ts = latest_ts
  later_heartbeat (some ts) none = some ts
  later_heartbeat (some ts) (some latest_ts) = if N.lt latest_ts ts then some ts else some latest_ts

  unfoldable pub latest_heartbeat : Option N.F → List (Option N.F) → Option N.F
  unfolding later_heartbeat
  latest_heartbeat latest_ts [] = latest_ts
  latest_heartbeat latest_ts (ts ∷ files) = latest_heartbeat (later_heartbeat ts latest_ts) files

  unfoldable pub sleep_since : N.F → N.F → Option N.F → Bool × Option N.F
  sleep_since now gap_threshold none = (false, none)
  sleep_since now gap_threshold (some latest_ts) =
      (N.lt gap_threshold (N.sub now latest_ts), some (N.sub now latest_ts))

  -- _detect_sleep_via_heartbeat(…), none for a directory that is missing.
  unfoldable pub detect_sleep_via_heartbeat :
      N.F → N.F → Option (List (Option N.F)) → Bool × Option N.F
  unfolding latest_heartbeat sleep_since
  detect_sleep_via_heartbeat now gap_threshold none = (false, none)
  detect_sleep_via_heartbeat now gap_threshold (some files) =
      sleep_since now gap_threshold (latest_heartbeat none files)

  -- check_sleep_wake(…)
  unfoldable pub check_sleep_wake :
      (List String → Option String)
      → N.F
      → N.F
      → Option (List (Option N.F))
      → Option Database
      → SleepWakeResult
  unfolding detect_sleep_via_heartbeat find_incomplete_cycle
  check_sleep_wake first_row now gap_threshold files db =
      let (slept, gap) = detect_sleep_via_heartbeat now gap_threshold files in
      record {
        sleep_detected = slept;
        wake_detected = slept;
        gap_seconds = gap;
        incomplete_cycle_id = if slept then find_incomplete_cycle first_row db else none;
      }

  -- resume_cycle_if_needed(…) with the path of a database.
  unfoldable pub resume_cycle_if_needed :
      (List String → Option String) → N.F → Option (List (Option N.F)) → Option Database → Bool
  unfolding check_sleep_wake has_checkpoint
  resume_cycle_if_needed first_row now files db =
      let result = check_sleep_wake first_row now sleep_gap_threshold files db in
      if result.wake_detected then has_checkpoint result.incomplete_cycle_id db else false
