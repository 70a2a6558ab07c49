-- ===== src/Stops/Examples.antt =====
-- A stop with an ATR of $2 along prices of $100, $120 and $90.
use automatic_trading.Prelude.{◌≡◌, ◌≢◌, refl, true, All, List, [], ◌∷◌, none, some}
use automatic_trading.Float.Fixed.{fixed, fixed_laws, ℤ, pos, ◌-ℤ◌, times}
use automatic_trading.Stops.{
  Watched, ratchet_all, maybe_ratchet_trailing, trailing_for, check_trailing_breach, breach,
  is_watched,
}
use automatic_trading.Stops.Ratchet.{ratchet_all_lem}

abbrev prices : List ℤ
prices = pos 1000000 ∷ pos 1200000 ∷ pos 900000 ∷ []

raised_to : ratchet_all fixed (pos 20000) prices (pos 970000) ≡ pos 1180000
unfolding ratchet_all maybe_ratchet_trailing trailing_for times ◌-ℤ◌
raised_to = refl

ratchet_all_lem_example :
    All
      (λ price.
        fixed.le
          (trailing_for fixed (pos 20000) price)
          (ratchet_all fixed (pos 20000) prices (pos 970000))
        ≡ true)
      prices
ratchet_all_lem_example = (ratchet_all_lem fixed fixed_laws (pos 20000) prices (pos 970000)).1

abbrev watched : Watched fixed
watched = record {
  id = "h1";
  ticker = "AAA";
  stop_price_usd = none;
  trailing_stop_armed = none;
  trailing_stop_price_usd = some (pos 970000);
}

is_breached : check_trailing_breach fixed watched (pos 900000) "RTH" ≢ none
unfolding check_trailing_breach breach is_watched
is_breached e = cc
