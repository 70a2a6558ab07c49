-- ===== src/Arbitration/Main.antt =====
-- `arbitrate` itself, with the checks that pydantic makes of what it builds.
use automatic_trading.Prelude.{
  ℕ, leb, Bool, true, false, ◌&&◌, not, String, List, [], ◌∷◌, map, length, select, Option, none,
  some, if◌then◌else◌,
}
use automatic_trading.Float.{Num, zero_of, sum_from}
use automatic_trading.Arbitration.{
  ArbitrationSignal, is_mature, is_dataless, Majority, majority_direction, mature_disagree,
  float_of, PersonaWeight, Arbitrated, points, count_direction, up, flat, down, ArbitrationDecision,
  proceed, proceed_bootstrap_low_confidence, abort_disagreement, abort_no_mature_sources,
}
use automatic_trading.Arbitration.Weights.{ByPersona, get_or, raw_weights, weight_by_persona}

unfoldable pub proceeds : ArbitrationDecision → Bool
proceeds proceed = true
proceeds proceed_bootstrap_low_confidence = true
proceeds _ = false

module _ (N : Num) where
  -- Field(ge=0.0, le=1.0)
  unfoldable pub in_unit : N.F → Bool
  in_unit x = N.le (zero_of N) x && N.le x (N.lit 1 0)

  unfoldable pub weights_valid : List (PersonaWeight N) → Bool
  unfolding in_unit
  weights_valid [] = true
  weights_valid (w ∷ ws) =
      in_unit w.weight && N.le (zero_of N) w.weight_multiplier && weights_valid ws

  -- _check_sum: none for the ValueError.
  unfoldable pub check_sum : Arbitrated N → Option (Arbitrated N)
  unfolding proceeds
  check_sum a =
      let total = N.add (N.add a.p_up a.p_flat) a.p_down in
      let off = N.abs (N.sub total (N.lit 1 0)) in
      let scale = N.div (N.lit 1 0) total in
      if not (proceeds a.decision)
      then some a
      else if N.lt (N.lit 1 2) off
      then none
      else if N.lt (N.lit 1 9) off && N.lt (zero_of N) total
      then some (record a {
        p_up = N.round6 (N.mul a.p_up scale);
        p_flat = N.round6 (N.mul a.p_flat scale);
        p_down = N.round6 (N.mul a.p_down scale);
      })
      else some a

  -- Arbitrated(…): none for the ValidationError.
  unfoldable pub validated : Arbitrated N → Option (Arbitrated N)
  unfolding in_unit weights_valid check_sum
  validated a =
      if in_unit a.p_up
        && in_unit a.p_flat
        && in_unit a.p_down
        && in_unit a.agreement_score
        && weights_valid a.persona_weights
      then check_sum a
      else none

  -- The uninformed result of an abort.
  unfoldable pub aborted :
      String → List (ArbitrationSignal N) → ℕ → ArbitrationDecision → String → Arbitrated N
  aborted ticker outputs used decision reason = record {
    ticker = ticker;
    p_up = N.div (N.lit 1 0) (N.lit 3 0);
    p_flat = N.div (N.lit 1 0) (N.lit 3 0);
    p_down = N.div (N.lit 1 0) (N.lit 3 0);
    persona_outputs = map (λ s. s.dp) outputs;
    persona_weights = [];
    agreement_score = N.lit 1 0;
    matured_sources_used = used;
    decision = decision;
    abort_reason = some reason;
  }

  -- sum(f(s) for s in use) / n
  unfoldable pub mean_of : (ArbitrationSignal N → N.F) → List (ArbitrationSignal N) → N.F
  mean_of f use' = N.div (sum_from N (zero_of N) (map f use')) (float_of N (length use'))

  unfoldable pub bootstrap_weight : Majority N → ArbitrationSignal N → PersonaWeight N
  unfolding is_dataless points
  bootstrap_weight m s = record {
    persona = s.dp.persona;
    weight =
        if not (is_dataless N s) && points N m.majority_dir s
        then N.div (N.lit 1 0) (float_of N (length m.majority_signals))
        else zero_of N;
    brier_score = s.rolling_brier;
    calibration_count = s.historical_n;
    weight_multiplier = if is_dataless N s then zero_of N else N.lit 1 0;
  }

  -- Section 2, without mature sources.
  unfoldable pub bootstrap :
      String → List (ArbitrationSignal N) → List (ArbitrationSignal N) → Arbitrated N
  unfolding aborted mean_of bootstrap_weight majority_direction
  bootstrap ticker immature usable =
      let m = majority_direction N usable in
      if leb 1 (length usable) && m.has_majority
      then record {
        ticker = ticker;
        p_up = mean_of (λ s. s.dp.p_up) m.majority_signals;
        p_flat = mean_of (λ s. s.dp.p_flat) m.majority_signals;
        p_down = mean_of (λ s. s.dp.p_down) m.majority_signals;
        persona_outputs = map (λ s. s.dp) immature;
        persona_weights = map (bootstrap_weight m) immature;
        agreement_score =
            N.div (float_of N (length m.majority_signals)) (float_of N (length usable));
        matured_sources_used = 0;
        decision = proceed_bootstrap_low_confidence;
        abort_reason = none;
      }
      else aborted ticker immature 0 abort_no_mature_sources "NO_MAJORITY_DIRECTION"

  unfoldable pub is_zero : N.F → Bool
  is_zero x = N.le x (zero_of N) && N.le (zero_of N) x

  -- Section 6
  unfoldable pub normalised : List (ArbitrationSignal N) → List N.F → List N.F
  unfolding is_zero
  normalised signals weights =
      let total = sum_from N (zero_of N) weights in
      if is_zero total
      then map (λ s. N.div (N.lit 1 0) (float_of N (length signals))) signals
      else map (λ w. N.div w total) weights

  -- sum(f(s) * w for s, w in zip(signals, weights)), from the left.
  unfoldable pub weighted_sum :
      (ArbitrationSignal N → N.F) → N.F → List (ArbitrationSignal N) → List N.F → N.F
  weighted_sum f acc (s ∷ signals) (w ∷ ws) = weighted_sum f (N.add acc (N.mul (f s) w)) signals ws
  weighted_sum f acc _ _ = acc

  -- The count of the most frequent direction.
  unfoldable pub plurality_count : List (ArbitrationSignal N) → ℕ
  unfolding count_direction
  plurality_count signals =
      let u = count_direction N signals up in
      let f = count_direction N signals flat in
      let d = count_direction N signals down in
      let m = if leb u f then f else u in if leb m d then d else m

  unfoldable pub mature_weight : ByPersona N → ByPersona N → ArbitrationSignal N → PersonaWeight N
  unfolding get_or is_dataless
  mature_weight weights applied s = record {
    persona = s.dp.persona;
    weight = get_or N s.dp.persona (zero_of N) weights;
    brier_score = s.rolling_brier;
    calibration_count = s.historical_n;
    weight_multiplier =
        get_or N s.dp.persona (if is_dataless N s then zero_of N else N.lit 1 0) applied;
  }

  -- Sections 3 to 7, where the usable mature sources agree.
  unfoldable pub combined :
      String → List (ArbitrationSignal N) → List (ArbitrationSignal N) → Arbitrated N
  unfolding raw_weights normalised weighted_sum mature_weight weight_by_persona plurality_count
  combined ticker mature usable =
      let raw = raw_weights N usable [] in
      let ws = normalised usable raw.weights in
      let p_up = weighted_sum (λ s. s.dp.p_up) (zero_of N) usable ws in
      let p_flat = weighted_sum (λ s. s.dp.p_flat) (zero_of N) usable ws in
      let p_down = weighted_sum (λ s. s.dp.p_down) (zero_of N) usable ws in
      let total = N.add (N.add p_up p_flat) p_down in
      let positive = N.lt (zero_of N) total in
      record {
        ticker = ticker;
        p_up = if positive then N.div p_up total else p_up;
        p_flat = if positive then N.div p_flat total else p_flat;
        p_down = if positive then N.div p_down total else p_down;
        persona_outputs = map (λ s. s.dp) mature;
        persona_weights = map (mature_weight (weight_by_persona N usable ws []) raw.applied) mature;
        agreement_score = N.div (float_of N (plurality_count usable)) (float_of N (length usable));
        matured_sources_used = length usable;
        decision = proceed;
        abort_reason = none;
      }

  -- Sections 2 and 8, on the mature and the immature signals and the usable ones of each.
  unfoldable pub chosen :
      String
      → List (ArbitrationSignal N)
      → List (ArbitrationSignal N)
      → List (ArbitrationSignal N)
      → List (ArbitrationSignal N)
      → Arbitrated N
  unfolding bootstrap aborted mature_disagree combined
  chosen ticker mature immature usable_mature usable_immature =
      if leb (length usable_mature) 0
      then bootstrap ticker immature usable_immature
      else if mature_disagree N usable_mature
      then aborted ticker mature (length usable_mature) abort_disagreement "MATURE_SOURCES_DISAGREE"
      else combined ticker mature usable_mature

  -- What is built where there are signals.
  unfoldable pub decided : String → List (ArbitrationSignal N) → Arbitrated N
  unfolding is_mature is_dataless chosen
  decided ticker signals =
      let mature = select (is_mature N) signals in
      let immature = select (λ s. not (is_mature N s)) signals in
      chosen ticker mature immature (select (λ s. not (is_dataless N s)) mature)
        (select (λ s. not (is_dataless N s)) immature)

  -- arbitrate(signals): none where a check of pydantic raises. The cycle identifier is left out.
  unfoldable pub arbitrate : List (ArbitrationSignal N) → Option (Arbitrated N)
  unfolding validated aborted decided
  arbitrate [] = validated (aborted "" [] 0 abort_no_mature_sources "NO_SIGNALS")
  arbitrate (s ∷ signals) = validated (decided s.dp.ticker (s ∷ signals))
