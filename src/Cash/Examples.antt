-- ===== src/Cash/Examples.antt =====
-- The paper account with four-decimal numbers.
use automatic_trading.Prelude.{◌≡◌, refl, List, [], ◌∷◌}
use automatic_trading.Float.Fixed.{fixed, fixed_laws, ℤ, pos, negsuc, to_cents, ◌+ℤ◌}
use automatic_trading.Cash.{
  get_balance, get_snapshot, new_cash, apply_flow, validate_total, Call, seeds, applies, validates,
  step, run, seed,
}
use automatic_trading.Cash.Balance.{NoMargin, run-NoMargin}
use automatic_trading.Cash.Account.{run-account_after}

-- $5,000.
abbrev capital : ℤ
capital = pos 50000000

-- Seeded, $1,000 spent, then more than is there, and revalued.
abbrev calls : List (Call fixed)
calls =
    seeds 1
    ∷ applies 2 (negsuc 9999999)
    ∷ applies 3 (negsuc 49999999)
    ∷ validates 4 (pos 10000000 ∷ [])
    ∷ []

broke : get_balance fixed capital (run fixed capital calls []) ≡ pos 0
unfolding run step seed apply_flow new_cash get_balance validate_total to_cents ◌+ℤ◌
broke = refl

run-NoMargin_example : NoMargin fixed fixed_laws capital (run fixed capital calls [])
run-NoMargin_example = run-NoMargin fixed fixed_laws capital calls [] refl tt

run-account_after_example : get_balance fixed capital (run fixed capital calls []) ≡ pos 0
unfolding to_cents ◌+ℤ◌ get_snapshot
run-account_after_example = (run-account_after fixed capital calls []).1
