-- ===== src/CrashLoop.antt =====
-- pmacs/cortex/crash_loop_detector.py: the restarts of processes, and who is in a crash loop. The
-- tables `process_restarts` and `process_state` are lists of rows, the newest restart first. Times are
-- microseconds; the ISO strings that the database compares have the same order.
pub mod Detection
pub mod Clearing
mod Examples
use automatic_trading.Prelude.{
  ℕ, zero, suc, ◌+◌, ◌≡◌, Bool, true, false, ◌&&◌, not, String, str_eq, List, [], ◌∷◌, length,
  Option, none, some, leb, ltb, if◌then◌else◌,
}

pub record Restart : Type 0 where
  pub proc : String
  pub restarted_at : ℕ

pub record ProcessState : Type 0 where
  pub proc : String
  pub last_started_at : ℕ
  pub restart_count_60s : ℕ
  pub is_broken_crash_loop : Bool

pub record Tables : Type 0 where
  pub restarts : List Restart
  pub states : List ProcessState

-- INSERT … ON CONFLICT(proc) DO UPDATE
unfoldable pub upsert : String → ℕ → List ProcessState → List ProcessState
upsert proc now [] =
    record {
      proc = proc;
      last_started_at = now;
      restart_count_60s = 1;
      is_broken_crash_loop = false;
    }
    ∷ []
upsert proc now (s ∷ states) =
    let rest = upsert proc now states in
    if str_eq s.proc proc
    then record s { last_started_at = now; restart_count_60s = s.restart_count_60s + 1 } ∷ states
    else s ∷ rest

-- record_restart(proc)
unfoldable pub record_restart : String → ℕ → Tables → Tables
unfolding upsert
record_restart proc now t = record {
  restarts = record { proc = proc; restarted_at = now } ∷ t.restarts;
  states = upsert proc now t.states;
}

-- SELECT COUNT(*) … WHERE proc = ? AND restarted_at > now - window
unfoldable pub recent_count : String → ℕ → ℕ → List Restart → ℕ
recent_count proc now window [] = 0
recent_count proc now window (r ∷ rs) =
    let rest = recent_count proc now window rs in
    if str_eq r.proc proc && ltb now (r.restarted_at + window) then suc rest else rest

-- UPDATE process_state SET is_broken_crash_loop = 1 WHERE proc = ?
unfoldable pub mark_broken : String → List ProcessState → List ProcessState
mark_broken proc [] = []
mark_broken proc (s ∷ states) =
    (if str_eq s.proc proc then record s { is_broken_crash_loop = true } else s)
    ∷ mark_broken proc states

-- check_crash_loop(proc): the verdict and the tables. The defaults are 5 restarts in 60 seconds.
unfoldable pub check_crash_loop : ℕ → ℕ → String → ℕ → Tables → Bool × Tables
unfolding recent_count mark_broken
check_crash_loop max_restarts window proc now t =
    let is_loop = leb max_restarts (recent_count proc now window t.restarts) in
    (is_loop, if is_loop then record t { states = mark_broken proc t.states } else t)

-- The first process, in the order of `procs`, with enough recent restarts.
unfoldable pub first_looping : ℕ → ℕ → ℕ → List Restart → List Restart → Option String
unfolding recent_count
first_looping max_restarts window now all [] = none
first_looping max_restarts window now all (r ∷ rs) =
    let rest = first_looping max_restarts window now all rs in
    if ltb now (r.restarted_at + window) && leb max_restarts (recent_count r.proc now window all)
    then some r.proc
    else rest

-- check_any_crash_loop(): one of the processes that have rows in the window, and enough of them. SQL
-- leaves open which comes first; here it is the one that restarted last.
unfoldable pub check_any_crash_loop : ℕ → ℕ → ℕ → Tables → Option String
unfolding first_looping
check_any_crash_loop max_restarts window now t =
    first_looping max_restarts window now t.restarts t.restarts

unfoldable pub unmark : String → List ProcessState → List ProcessState
unmark proc [] = []
unmark proc (s ∷ states) =
    (if str_eq s.proc proc
      then record s { is_broken_crash_loop = false; restart_count_60s = 0 }
      else s)
    ∷ unmark proc states

-- DELETE FROM process_restarts WHERE proc = ?
unfoldable pub delete_restarts : String → List Restart → List Restart
delete_restarts proc [] = []
delete_restarts proc (r ∷ rs) =
    let rest = delete_restarts proc rs in if str_eq r.proc proc then rest else r ∷ rest

-- clear_crash_loop_mark(proc)
unfoldable pub clear_crash_loop_mark : String → Tables → Tables
unfolding unmark delete_restarts
clear_crash_loop_mark proc t = record {
  restarts = delete_restarts proc t.restarts;
  states = unmark proc t.states;
}
