-- ===== src/Sizing/Examples.antt =====
-- A position with an edge that the dollar limit cuts, and a verdict.
use automatic_trading.Prelude.{◌≡◌, ◌≢◌, refl, true, false, [], ◌∷◌, none, some}
use automatic_trading.Float.Fixed.{fixed, fixed_laws, pos, ◌-ℤ◌, times, over}
use automatic_trading.Sizing.{
  SizingInputs, size_position, compute_kelly, kelly_position, target_pct, correlation_factor,
  bootstrap_haircut, limited_factor, shares_for, verdict_tier, evaluate_pass_signal, buy,
  strong_buy,
}
use automatic_trading.Sizing.Conviction.{compute_conviction, verdict_tier-compute_conviction}
use automatic_trading.Sizing.Bounds.{size_position-bounds}

-- 70% for a gain of 30%, 30% for a loss of 10%, on $20,000.
abbrev inputs : SizingInputs fixed
inputs = record {
  p_up = pos 7000;
  p_down = pos 3000;
  target_gain_pct = pos 3000;
  stop_loss_pct = pos 1000;
  matured_sources_used = 2;
  is_limited_history = false;
  portfolio_correlations = pos 9000 ∷ [];
  max_position_pct = pos 2000;
  portfolio_value_usd = pos 200000000;
  current_price = pos 500000;
  is_bootstrap = false;
}

limited : (size_position fixed (pos 10000000) inputs).target_usd ≡ pos 10000000
unfolding size_position compute_kelly kelly_position target_pct correlation_factor bootstrap_haircut
    limited_factor shares_for ◌-ℤ◌ times over
limited = refl

size_position-bounds_example :
    fixed.le (size_position fixed (pos 10000000) inputs).target_usd (pos 10000000) ≡ true
size_position-bounds_example =
    (size_position-bounds fixed fixed_laws (pos 10000000) inputs refl refl refl).1

bought : verdict_tier fixed (pos 3500) false true false (some (pos 20000)) true none ≡ buy
unfolding verdict_tier evaluate_pass_signal
bought = refl

-- A price that falls with 50% and rises with 30%.
verdict_tier-compute_conviction_example :
    (verdict_tier fixed
        (compute_conviction fixed (λ x. x) (pos 3000) (pos 5000) 4 (pos 2000) (pos 20000) false)
        false
        true
        false
        none
        false
        none
      ≢ buy)
    × (verdict_tier fixed
          (compute_conviction fixed (λ x. x) (pos 3000) (pos 5000) 4 (pos 2000) (pos 20000) false)
          false
          true
          false
          none
          false
          none
        ≢ strong_buy)
verdict_tier-compute_conviction_example =
    verdict_tier-compute_conviction fixed (λ x. x) fixed_laws (pos 3000) (pos 5000) 4 (pos 2000)
      (pos 20000) false true false none false none (refl, (refl, (refl, (refl, tt)))) refl
