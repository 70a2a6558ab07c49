-- ===== src/Opportunity/Examples.antt =====
-- Two holdings: the conviction in the first collapsed, the second is kept.
use automatic_trading.Prelude.{
  ◌≡◌, refl, String, str_eq, List, [], ◌∷◌, Option, none, some, map, if◌then◌else◌,
}
use automatic_trading.Float.Fixed.{fixed, fixed_laws, pos, times, over, ◌-ℤ◌}
use automatic_trading.Opportunity.{
  Held, Action, exit, hold, OpportunityCostResult, scan, evaluated, evaluate_holding, filled,
  decide_hold_or_exit, result_of, score_or_half, current_conviction,
}
use automatic_trading.Opportunity.Scan.{AllDecided, scan-AllDecided}

abbrev holdings : List (Held fixed)
holdings =
    record { id = "h1"; ticker = "ABC"; conviction_score = some (pos 8000) }
    ∷ record { id = "h2"; ticker = "XYZ"; conviction_score = none }
    ∷ []

abbrev scores : String → Option fixed.F
scores id = if str_eq id "h1" then some (pos 1000) else none

abbrev no_pnl : String → Option fixed.F
no_pnl id = none

actions : List (OpportunityCostResult fixed) → List Action
actions rs = map (λ r. r.action) rs

first_exits : actions (scan fixed scores no_pnl (pos 200000) holdings) ≡ exit ∷ hold ∷ []
unfolding actions scan evaluated evaluate_holding filled decide_hold_or_exit result_of score_or_half
    current_conviction ◌-ℤ◌ times over
first_exits = refl

scan-AllDecided_example :
    AllDecided fixed fixed_laws scores no_pnl
      (pos 200000)
      holdings
      (scan fixed scores no_pnl (pos 200000) holdings)
scan-AllDecided_example = scan-AllDecided fixed fixed_laws scores no_pnl (pos 200000) holdings
