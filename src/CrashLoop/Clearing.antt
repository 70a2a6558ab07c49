-- ===== src/CrashLoop/Clearing.antt =====
-- The operator's reset.
use automatic_trading.Prelude.{
  ℕ, ◌<◌, ◌≡◌, ◌≢◌, false, String, str_eq, eq_iff, List, [], ◌∷◌, All, arith, if◌then◌else◌,
}
use automatic_trading.CrashLoop.{
  Restart, ProcessState, Tables, recent_count, check_crash_loop, delete_restarts, unmark,
  mark_broken, clear_crash_loop_mark,
}

recent_count-delete_restarts :
    (proc other : String) (now window : ℕ) (rs : List Restart)
    → recent_count other now window (delete_restarts proc rs)
      ≡ (if str_eq proc other then 0 else recent_count other now window rs)
unfolding recent_count delete_restarts
recent_count-delete_restarts proc other now window [] = ground arith
recent_count-delete_restarts proc other now window (r ∷ rs) = ground (
  arith,
  eq_iff proc other,
  eq_iff r.proc other,
  eq_iff r.proc proc,
  recent_count-delete_restarts proc other now window rs,
)

-- After a process's mark was cleared, the process is in no crash loop, at any time and for any window;
-- the verdict on every other process is what it was. At least one restart is required of a loop.
pub check_crash_loop-clear_crash_loop_mark :
    (max_restarts window now : ℕ) (proc other : String) (t : Tables)
    → 0 < max_restarts
    → (check_crash_loop max_restarts window other now (clear_crash_loop_mark proc t)).0
      ≡ (if str_eq proc other then false else (check_crash_loop max_restarts window other now t).0)
unfolding check_crash_loop clear_crash_loop_mark
check_crash_loop-clear_crash_loop_mark max_restarts window now proc other t pos =
    ground (arith, recent_count-delete_restarts proc other now window t.restarts)

-- No process of this name is marked as broken.
abbrev pub IsUnmarked : String → List ProcessState → Type 0
IsUnmarked proc = All λ s. s.proc ≡ proc → s.is_broken_crash_loop ≡ false

unmark-IsUnmarked :
    (proc : String) (states : List ProcessState) → IsUnmarked proc (unmark proc states)
unfolding unmark
unmark-IsUnmarked proc [] = tt
unmark-IsUnmarked proc (s ∷ states) =
    (ground (arith, eq_iff s.proc proc), unmark-IsUnmarked proc states)

mark_broken-other :
    (proc : String) (other : String) (states : List ProcessState)
    → proc ≢ other
    → IsUnmarked other states
    → IsUnmarked other (mark_broken proc states)
unfolding mark_broken
mark_broken-other proc other [] n h = tt
mark_broken-other proc other (s ∷ states) n h =
    (ground (arith, eq_iff s.proc proc), mark_broken-other proc other states n h.1)

-- A check marks no process but the one that it checks, and clearing a mark leaves none on the process.
pub check_crash_loop-IsUnmarked :
    (max_restarts window now : ℕ) (proc other : String) (t : Tables)
    → (proc ≢ other
        → IsUnmarked other t.states
        → IsUnmarked other (check_crash_loop max_restarts window proc now t).1.states)
      × IsUnmarked proc (clear_crash_loop_mark proc t).states
unfolding check_crash_loop clear_crash_loop_mark
check_crash_loop-IsUnmarked max_restarts window now proc other t = (
  (λ n h. ground (arith, mark_broken-other proc other t.states n h)),
  unmark-IsUnmarked proc t.states,
)
