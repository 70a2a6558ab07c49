-- ===== src/Arbitration/Weights.antt =====
-- The weights that `arbitrate` gives to mature sources. `applied_multipliers` is a list of the
-- personas that were given one, the last one first.
use automatic_trading.Prelude.{
  Bool, true, false, ◌&&◌, ◌||◌, not, str_eq, List, [], ◌∷◌, if◌then◌else◌,
}
use automatic_trading.Float.{Num}
use automatic_trading.Arbitration.{
  PersonaName, gatekeeper, macro_regime, catalyst_summarizer, moat_analyst, growth_hunter,
  insider_activity, short_interest, forensics, bull_advocate, bear_advocate, cross_persona_auditor,
  crucible, memo_writer, valuation_agent, ArbitrationSignal, has_extreme_prob,
}

unfoldable pub is_macro_regime : PersonaName → Bool
is_macro_regime macro_regime = true
is_macro_regime _ = false

unfoldable pub is_catalyst_summarizer : PersonaName → Bool
is_catalyst_summarizer catalyst_summarizer = true
is_catalyst_summarizer _ = false

unfoldable pub is_forensics : PersonaName → Bool
is_forensics forensics = true
is_forensics _ = false

-- persona == persona
unfoldable pub same_persona : PersonaName → PersonaName → Bool
same_persona gatekeeper gatekeeper = true
same_persona macro_regime macro_regime = true
same_persona catalyst_summarizer catalyst_summarizer = true
same_persona moat_analyst moat_analyst = true
same_persona growth_hunter growth_hunter = true
same_persona insider_activity insider_activity = true
same_persona short_interest short_interest = true
same_persona forensics forensics = true
same_persona bull_advocate bull_advocate = true
same_persona bear_advocate bear_advocate = true
same_persona cross_persona_auditor cross_persona_auditor = true
same_persona crucible crucible = true
same_persona memo_writer memo_writer = true
same_persona valuation_agent valuation_agent = true
same_persona _ _ = false

module _ (N : Num) where
  -- A dict from personas to floats, the last assignment first.
  abbrev pub ByPersona : Type 0
  ByPersona = List (PersonaName × N.F)

  -- d.get(persona, default)
  unfoldable pub get_or : PersonaName → N.F → ByPersona → N.F
  unfolding same_persona
  get_or p default [] = default
  get_or p default ((q, x) ∷ d) =
      let rest = get_or p default d in if same_persona q p then x else rest

  -- A weight and the multipliers so far.
  pub record Weighed : Type 0 where
    pub weight : N.F
    pub applied : ByPersona

  -- A factor that replaces the recorded multiplier.
  unfoldable pub scaled : Bool → N.F → PersonaName → Weighed → Weighed
  scaled applies factor p w =
      if applies
      then record { weight = N.mul w.weight factor; applied = (p, factor) ∷ w.applied }
      else w

  -- A factor that multiplies the recorded multiplier.
  unfoldable pub compounded : Bool → N.F → PersonaName → Weighed → Weighed
  unfolding get_or
  compounded applies factor p w =
      if applies
      then record {
        weight = N.mul w.weight factor;
        applied = (p, N.mul (get_or p (N.lit 1 0) w.applied) factor) ∷ w.applied;
      }
      else w

  unfoldable pub is_one : N.F → Bool
  is_one x = N.le x (N.lit 1 0) && N.le (N.lit 1 0) x

  -- One round of the loop over the usable mature sources: its weight, and the multipliers.
  unfoldable pub weigh : ArbitrationSignal N → ByPersona → Weighed
  unfolding scaled compounded is_one is_macro_regime is_catalyst_summarizer is_forensics
      has_extreme_prob
  weigh s applied =
      let p = s.dp.persona in
      compounded (not (is_one s.weight_multiplier)) s.weight_multiplier p (
        scaled
          (is_forensics p
            && (str_eq s.quality_tag "MATERIAL_CONCERNS" || str_eq s.quality_tag "SEVERE_RISK"))
          (N.lit 15 1) p
          (scaled (is_catalyst_summarizer p) (N.lit 5 1) p (
            compounded (has_extreme_prob N s) (N.lit 5 1) p (
              scaled (is_macro_regime p) (N.lit 5 1) p (record {
                weight = N.div (N.lit 1 0) (N.add s.rolling_brier (N.lit 5 2));
                applied = applied;
              })))))

  -- raw_weights and applied_multipliers
  pub record Raw : Type 0 where
    pub weights : List N.F
    pub applied : ByPersona

  unfoldable pub consed : N.F → Raw → Raw
  consed w r = record { weights = w ∷ r.weights; applied = r.applied }

  unfoldable pub raw_weights : List (ArbitrationSignal N) → ByPersona → Raw
  unfolding weigh consed
  raw_weights [] applied = record { weights = []; applied = applied }
  raw_weights (s ∷ signals) applied =
      let w = weigh s applied in consed w.weight (raw_weights signals w.applied)

  -- weight_by_persona: the last weight of a persona counts.
  unfoldable pub weight_by_persona : List (ArbitrationSignal N) → List N.F → ByPersona → ByPersona
  weight_by_persona (s ∷ signals) (w ∷ ws) d = weight_by_persona signals ws ((s.dp.persona, w) ∷ d)
  weight_by_persona _ _ d = d
