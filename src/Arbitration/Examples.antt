-- ===== src/Arbitration/Examples.antt =====
-- Three personas without a track record, one of which has no data, and two with one.
use automatic_trading.Prelude.{ℕ, ◌≡◌, ◌↔◌, refl, String, List, [], ◌∷◌, select}
use automatic_trading.Float.Fixed.{fixed, pos, ◌-ℤ◌}
use automatic_trading.Arbitration.{
  ArbitrationSignal, PersonaName, moat_analyst, growth_hunter, short_interest, forensics,
  macro_regime, proceed_bootstrap_low_confidence, majority_direction, counted_majority, plurality,
  count_direction, points, direction_of, dominant_direction, same_direction, majority_threshold,
}
use automatic_trading.Arbitration.Main.{decided, bootstrap}
use automatic_trading.Arbitration.Dataless.{verdict, informed, decided-select}
use automatic_trading.Arbitration.Bootstrap.{HasQuorum, bootstrap-HasQuorum}

abbrev signal : PersonaName → ℕ → ℕ → String → ArbitrationSignal fixed
signal p up n tag = record {
  dp = record {
    persona = p;
    ticker = "AAA";
    p_up = pos up;
    p_flat = pos 2000;
    p_down = fixed.sub (pos 8000) (pos up);
  };
  historical_n = n;
  rolling_brier = pos 5000;
  quality_tag = tag;
  weight_multiplier = pos 10000;
}

abbrev young : List (ArbitrationSignal fixed)
young =
    signal moat_analyst 6000 3 "" ∷ signal growth_hunter 7000 0 "" ∷ signal forensics 1000 0 "" ∷ []

abbrev mixed : List (ArbitrationSignal fixed)
mixed =
    signal moat_analyst 6000 40 ""
    ∷ signal macro_regime 4000 50 ""
    ∷ signal short_interest 1000 60 "NO_SIGNAL"
    ∷ []

followed : (bootstrap fixed "AAA" young young).decision ≡ proceed_bootstrap_low_confidence
unfolding bootstrap majority_direction counted_majority plurality count_direction points
    direction_of dominant_direction same_direction majority_threshold ◌-ℤ◌
followed = refl

bootstrap-HasQuorum_example :
    ((bootstrap fixed "AAA" young young).decision ≡ proceed_bootstrap_low_confidence)
    ↔ HasQuorum fixed young
bootstrap-HasQuorum_example = bootstrap-HasQuorum fixed "AAA" young young

decided-select_example :
    verdict fixed (decided fixed "AAA" (select (informed fixed) mixed))
    ≡ verdict fixed (decided fixed "AAA" mixed)
decided-select_example = decided-select fixed "AAA" mixed
