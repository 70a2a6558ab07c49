-- ===== src/CrashLoop/Examples.antt =====
-- Five restarts within a minute.
use automatic_trading.Prelude.{ℕ, ◌≡◌, refl, true, List, [], ◌∷◌, some, arith}
use automatic_trading.CrashLoop.{Tables, record_restart, check_crash_loop, check_any_crash_loop}
use automatic_trading.CrashLoop.Detection.{check_any_crash_loop-check_crash_loop}

abbrev no_restarts : Tables
no_restarts = record { restarts = []; states = [] }

abbrev restart_at : List ℕ → Tables
unfolding record_restart
restart_at [] = no_restarts
restart_at (t ∷ ts) = record_restart "pmacs-cortex" t (restart_at ts)

abbrev crashing : Tables
unfolding restart_at
crashing = restart_at (59 ∷ 40 ∷ 30 ∷ 20 ∷ 10 ∷ [])

found : check_any_crash_loop 5 60 60 crashing ≡ some "pmacs-cortex"
unfolding crashing check_any_crash_loop
found = refl

check_any_crash_loop-check_crash_loop_example :
    (check_crash_loop 5 60 "pmacs-cortex" 60 crashing).0 ≡ true
check_any_crash_loop-check_crash_loop_example =
    (check_any_crash_loop-check_crash_loop 5 60 60 crashing (omega arith)).0 "pmacs-cortex" found
