-- ===== src/Crucible/Examples.antt =====
-- A thesis that is attacked with 0.45 and, rewritten, with 0.2.
use automatic_trading.Prelude.{ℕ, suc, zero, ◌≡◌, refl, Option, some}
use automatic_trading.Float.Fixed.{fixed, fixed_laws, pos, ◌-ℤ◌}
use automatic_trading.Crucible.{
  Output, done, run_crucible_loop, with_output, after_cycle_1, after_cycle_2, extract_severity,
  severity_or_one,
}
use automatic_trading.Crucible.Routing.{IsRouted, run_crucible_loop-IsRouted}

abbrev answer : ℕ → Option (Output fixed)
answer zero = some (record { severity = some (pos 10000) })
answer (suc zero) = some (record { severity = some (pos 4500) })
answer (suc (suc n)) = some (record { severity = some (pos 2000) })

survived :
    (run_crucible_loop fixed answer (pos 1800000) (pos 400000) (pos 400000)).final_state ≡ done
unfolding run_crucible_loop with_output after_cycle_1 after_cycle_2 extract_severity severity_or_one
    ◌-ℤ◌
survived = refl

run_crucible_loop-IsRouted_example :
    IsRouted fixed
      (answer 1)
      (answer 2)
      (pos 1800000)
      (pos 400000)
      (pos 400000)
      (run_crucible_loop fixed answer (pos 1800000) (pos 400000) (pos 400000))
run_crucible_loop-IsRouted_example =
    run_crucible_loop-IsRouted fixed fixed_laws refl answer (pos 1800000) (pos 400000) (pos 400000)
