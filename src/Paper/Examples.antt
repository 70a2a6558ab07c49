-- ===== src/Paper/Examples.antt =====
-- Trades on $5,000: two purchases, a third that is too large, a price that falls to zero, and a sale.
use automatic_trading.Prelude.{◌≡◌, refl, List, [], ◌∷◌, none, some, arith}
use automatic_trading.Float.Fixed.{fixed, fixed_laws, pos, ◌+ℤ◌, ◌-ℤ◌, times, to_cents}
use automatic_trading.Paper.{
  PaperLedger, Trade, opens, closes, updates, trade, run_trades, open_position, close_position,
  opened, position_of, pop, closed, update_price, set_price, cost_basis, stop_or_default,
}
use automatic_trading.Paper.Solvency.{IsSolvent, run_trades-IsSolvent}

abbrev empty : PaperLedger fixed
empty = record { cash = pos 50000000; positions = [] }

-- 10 shares at $50, 5 at $20, and 100 at $50.
abbrev trades : List (Trade fixed)
trades =
    opens "AAA" (pos 100000) (pos 500000) none
    ∷ opens "BBB" (pos 50000) (pos 200000) (some (pos 150000))
    ∷ opens "CCC" (pos 1000000) (pos 500000) none
    ∷ updates "BBB" (pos 0)
    ∷ closes "AAA" (pos 600000)
    ∷ []

traded : (run_trades fixed trades empty).cash ≡ pos 50000000
unfolding run_trades trade open_position close_position opened closed update_price position_of pop
    set_price cost_basis times ◌+ℤ◌ ◌-ℤ◌ stop_or_default to_cents
traded = refl

run_trades-IsSolvent_example : IsSolvent fixed (run_trades fixed trades empty)
run_trades-IsSolvent_example =
    run_trades-IsSolvent fixed fixed_laws trades empty
      (record { funded = refl; modest = tt; distinct = tt; few = omega arith })
