-- ===== src/CrashLoop/Detection.antt =====
-- The check of all processes against the check of each one.
use automatic_trading.Prelude.{
  ℕ, suc, ◌+◌, ◌<◌, ◌≤◌, ◌≡◌, true, false, String, str_eq, eq_iff, List, [], ◌∷◌, none, some, arith,
  if◌then◌else◌,
}
use automatic_trading.CrashLoop.{
  Restart, Tables, recent_count, check_crash_loop, first_looping, check_any_crash_loop,
  record_restart,
}

module _ (max_restarts window now : ℕ) (all : List Restart) where
  looping-count :
      (rs : List Restart) (proc : String)
      → first_looping max_restarts window now all rs ≡ some proc
      → max_restarts ≤ recent_count proc now window all
  unfolding first_looping
  looping-count [] proc h = cc
  looping-count (r ∷ rs) proc h = ground (arith, looping-count rs proc)

  -- If no process is found, none that has a row in the list has enough of them.
  quiet-count :
      (rs : List Restart) (proc : String)
      → first_looping max_restarts window now all rs ≡ none
      → 0 < recent_count proc now window rs
      → recent_count proc now window all < max_restarts
  unfolding first_looping recent_count
  quiet-count [] proc h k = absurd (omega arith)
  quiet-count (r ∷ rs) proc h k = ground (arith, eq_iff r.proc proc, quiet-count rs proc)

-- The check of all processes finds a process that the check of one process finds too; and if it finds
-- none, then no process, known or not, is in a crash loop. At least one restart is required of a loop.
pub check_any_crash_loop-check_crash_loop :
    (max_restarts window now : ℕ) (t : Tables)
    → 0 < max_restarts
    → ((proc : String)
        → check_any_crash_loop max_restarts window now t ≡ some proc
        → (check_crash_loop max_restarts window proc now t).0 ≡ true)
      × (check_any_crash_loop max_restarts window now t ≡ none
          → (proc : String) → (check_crash_loop max_restarts window proc now t).0 ≡ false)
unfolding check_any_crash_loop check_crash_loop
check_any_crash_loop-check_crash_loop max_restarts window now t pos = (
  (λ proc h. ground (arith, looping-count max_restarts window now t.restarts t.restarts proc h)),
  λ h proc. ground (arith, quiet-count max_restarts window now t.restarts t.restarts proc h),
)

-- A restart within the window raises the process's own count by one, and no other process's.
pub recent_count-record_restart :
    (window now later : ℕ) (proc other : String) (t : Tables)
    → later < now + window
    → recent_count other later window (record_restart proc now t).restarts ≡ (
        if str_eq proc other
        then suc (recent_count other later window t.restarts)
        else recent_count other later window t.restarts)
unfolding record_restart recent_count
recent_count-record_restart window now later proc other t h = ground (arith, eq_iff proc other)
