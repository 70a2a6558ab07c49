-- ===== src/Arbitration.antt =====
-- pmacs/engines/arbitration.py and pmacs/schemas/arbitration.py: how the signals of the personas are
-- combined, over the interface Float. The fields of a signal's probabilities that are passed on unread
-- and the debug log are left out. `Arbitration.Weights` has the weights of mature sources.
pub mod Weights
pub mod Main
pub mod Dataless
pub mod Bootstrap
mod Examples
use automatic_trading.Prelude.{
  ℕ, suc, ◌+◌, ◌*◌, ◌/◌, ◌==◌, leb, ltb, Bool, true, false, ◌&&◌, ◌||◌, not, String, str_eq, List,
  [], ◌∷◌, map, length, select, any, Option, none, some, if◌then◌else◌,
}
use automatic_trading.Float.{Num, zero_of, sum_from}

pub data PersonaName : Type 0 where
  gatekeeper macro_regime catalyst_summarizer moat_analyst growth_hunter insider_activity
        short_interest forensics bull_advocate bear_advocate cross_persona_auditor crucible
        memo_writer valuation_agent :
      PersonaName

pub data Direction : Type 0 where
  up flat down : Direction

pub data ArbitrationDecision : Type 0 where
  proceed proceed_bootstrap_low_confidence abort_disagreement abort_no_mature_sources :
      ArbitrationDecision

-- MIN_HISTORICAL_N_FOR_MATURE
abbrev pub min_historical_n_for_mature : ℕ
min_historical_n_for_mature = 30

unfoldable pub same_direction : Direction → Direction → Bool
same_direction up up = true
same_direction flat flat = true
same_direction down down = true
same_direction _ _ = false

-- The personas that may report that they have no data.
unfoldable pub may_be_dataless : PersonaName → Bool
may_be_dataless short_interest = true
may_be_dataless insider_activity = true
may_be_dataless _ = false

-- The most frequent direction, up before flat before down.
unfoldable pub plurality : ℕ → ℕ → ℕ → Direction
plurality ups flats downs =
    if leb flats ups && leb downs ups then up else if leb downs flats then flat else down

-- max(2, ceil(0.6 n)). In floats, too, 0.6 n does not come out above a whole number.
unfoldable pub majority_threshold : ℕ → ℕ
majority_threshold n = let c = (3 * n + 4) / 5 in if ltb c 2 then 2 else c

module _ (N : Num) where
  pub record DirectionalProbability : Type 0 where
    pub persona : PersonaName
    pub ticker : String
    pub p_up : N.F
    pub p_flat : N.F
    pub p_down : N.F

  -- `quality_tag` is in upper case, empty for none.
  pub record ArbitrationSignal : Type 0 where
    pub dp : DirectionalProbability
    pub historical_n : ℕ
    pub rolling_brier : N.F
    pub quality_tag : String
    pub weight_multiplier : N.F

  unfoldable pub is_mature : ArbitrationSignal → Bool
  is_mature s = leb min_historical_n_for_mature s.historical_n

  unfoldable pub has_extreme_prob : ArbitrationSignal → Bool
  has_extreme_prob s = N.lt (N.lit 9 1) s.dp.p_up || N.lt (N.lit 9 1) s.dp.p_down

  unfoldable pub is_dataless : ArbitrationSignal → Bool
  unfolding may_be_dataless
  is_dataless s =
      if may_be_dataless s.dp.persona
      then str_eq s.quality_tag "INSUFFICIENT_DATA" || str_eq s.quality_tag "NO_SIGNAL"
      else false

  -- _dominant_direction(p_up, p_flat, p_down)
  unfoldable pub dominant_direction : N.F → N.F → N.F → Direction
  dominant_direction p_up p_flat p_down =
      if N.le p_flat p_up && N.le p_down p_up
      then up
      else if N.le p_flat p_down && N.le p_up p_down
      then down
      else flat

  unfoldable pub direction_of : ArbitrationSignal → Direction
  unfolding dominant_direction
  direction_of s = dominant_direction s.dp.p_up s.dp.p_flat s.dp.p_down

  unfoldable pub points : Direction → ArbitrationSignal → Bool
  unfolding direction_of same_direction
  points d s = same_direction (direction_of s) d

  -- The entry of the Counter.
  unfoldable pub count_direction : List ArbitrationSignal → Direction → ℕ
  unfolding points
  count_direction signals d = length (select (points d) signals)

  pub record Majority : Type 0 where
    pub has_majority : Bool
    pub majority_dir : Direction
    pub majority_signals : List ArbitrationSignal

  unfoldable pub counted_majority : List ArbitrationSignal → Majority
  unfolding plurality count_direction majority_threshold
  counted_majority signals =
      let d =
        plurality (count_direction signals up) (count_direction signals flat)
          (count_direction signals down) in
      if leb (majority_threshold (length signals)) (count_direction signals d)
      then record {
        has_majority = true;
        majority_dir = d;
        majority_signals = select (points d) signals;
      }
      else record { has_majority = false; majority_dir = d; majority_signals = [] }

  -- _majority_direction(signals)
  unfoldable pub majority_direction : List ArbitrationSignal → Majority
  unfolding counted_majority
  majority_direction [] = record {
    has_majority = false;
    majority_dir = flat;
    majority_signals = [];
  }
  majority_direction (s ∷ []) = record {
    has_majority = true;
    majority_dir = direction_of s;
    majority_signals = s ∷ [];
  }
  majority_direction (s ∷ t ∷ signals) = counted_majority (s ∷ t ∷ signals)

  -- _mature_disagree(signals)
  unfoldable pub mature_disagree : List ArbitrationSignal → Bool
  mature_disagree signals =
      any (λ s. N.lt (N.lit 5 1) s.dp.p_up) signals
      && any (λ s. N.lt (N.lit 5 1) s.dp.p_down) signals

  -- float(n)
  abbrev pub float_of : ℕ → N.F
  float_of n = N.lit n 0

  unfoldable pub squared_deviations : N.F → List ArbitrationSignal → List N.F
  squared_deviations mean [] = []
  squared_deviations mean (s ∷ signals) =
      let d = N.sub s.dp.p_up mean in N.mul d d ∷ squared_deviations mean signals

  -- disagreement_severity(signals)
  unfoldable pub disagreement_severity : List ArbitrationSignal → N.F
  unfolding squared_deviations
  disagreement_severity signals =
      let n = float_of (length signals) in
      let mean = N.div (sum_from N (zero_of N) (map (λ s. s.dp.p_up) signals)) n in
      let variance = N.div (sum_from N (zero_of N) (squared_deviations mean signals)) n in
      let scaled = N.div variance (N.lit 25 2) in
      if ltb (length signals) 2
      then zero_of N
      else if N.lt scaled (N.lit 1 0)
      then scaled
      else N.lit 1 0

  pub record PersonaWeight : Type 0 where
    pub persona : PersonaName
    pub weight : N.F
    pub brier_score : N.F
    pub calibration_count : ℕ
    pub weight_multiplier : N.F

  pub record Arbitrated : Type 0 where
    pub ticker : String
    pub p_up : N.F
    pub p_flat : N.F
    pub p_down : N.F
    pub persona_outputs : List DirectionalProbability
    pub persona_weights : List PersonaWeight
    pub agreement_score : N.F
    pub matured_sources_used : ℕ
    pub decision : ArbitrationDecision
    pub abort_reason : Option String
