-- ===== src/Opportunity/Scan.antt =====
-- Which holdings the scan gives up.
use automatic_trading.Prelude.{
  Bool, false, ◌&&◌, ◌||◌, ◌≡◌, refl, ap, ◌∙◌, String, List, [], ◌∷◌, Option, none, some, arith,
  if◌then◌else◌,
}
use automatic_trading.Float.{Num, NumLaws, zero_of}
use automatic_trading.Holding.{exit_opportunity_cost}
use automatic_trading.Opportunity.{
  is_exit, OpportunityCostResult, Held, decide_hold_or_exit, result_of, score_or_half, filled,
  evaluate_holding, current_conviction, evaluated, scan,
}

module _ (N : Num) where
  -- The conviction fell by more than 0.3 to less than 0.2.
  abbrev pub collapsed : Held N → N.F → Bool
  collapsed h conviction =
      N.lt (N.lit 3 1) (N.sub (score_or_half N h.conviction_score) conviction)
      && N.lt conviction (N.lit 2 1)

  -- The profit is given, is below -5%, and the alternative is better by more than 10.
  abbrev pub sinks : N.F → Option N.F → Bool
  sinks alternative none = false
  sinks alternative (some pnl) =
      N.lt pnl (N.sub (zero_of N) (N.lit 5 0)) && N.lt (N.add pnl (N.lit 10 0)) alternative

  -- What the scan says of a holding.
  pub record IsDecided (h : Held N) (conviction alternative : N.F) (pnl : Option N.F)
      (r : OpportunityCostResult N) : Type 0 where
    pub named : (r.holding_id ≡ h.id) × (r.ticker ≡ h.ticker)
    pub exits : is_exit r.action ≡ (collapsed h conviction || sinks alternative pnl)
    pub state : r.exit_state ≡ (if is_exit r.action then some exit_opportunity_cost else none)

  decide_lem :
      (h : Held N) (conviction alternative pnl : N.F)
      → let r =
          filled N h (
            decide_hold_or_exit N pnl alternative
              (score_or_half N h.conviction_score)
              conviction) in
        (is_exit r.action ≡ (collapsed h conviction || sinks alternative (some pnl)))
        × (r.exit_state ≡ (if is_exit r.action then some exit_opportunity_cost else none))
  unfolding filled decide_hold_or_exit result_of is_exit
  decide_lem h conviction alternative pnl = ground arith

  module _ (laws : NumLaws N) where
    zero_not_sinking : (alternative : N.F) → sinks alternative (some (zero_of N)) ≡ false
    zero_not_sinking alternative =
        let low = N.sub (zero_of N) (N.lit 5 0) in
        ground (
          arith,
          laws.lt_not_le (zero_of N) low,
          laws.sub_nonpos (zero_of N) (N.lit 5 0) (laws.lit_nonneg 5 0),
        )

    evaluated-IsDecided :
        (h : Held N) (conviction alternative : N.F) (pnl : Option N.F)
        → IsDecided h conviction alternative pnl (evaluated N h conviction alternative pnl)
    unfolding evaluated evaluate_holding filled
    evaluated-IsDecided h conviction alternative (some pnl) =
        let (e, s) = decide_lem h conviction alternative pnl in
        record { named = (refl, refl); exits = e; state = s }
    evaluated-IsDecided h conviction alternative none =
        let (e, s) = decide_lem h conviction alternative (zero_of N) in
        record {
          named = (refl, refl);
          exits = e ∙ ap (λ b. collapsed h conviction || b) (zero_not_sinking alternative);
          state = s;
        }

    module _ (conviction_scores pnl_pcts : String → Option N.F) where
      -- The results are those of the holdings, in their order.
      abbrev pub AllDecided : N.F → List (Held N) → List (OpportunityCostResult N) → Type 0
      AllDecided alternative [] [] = Unit
      AllDecided alternative (h ∷ hs) (r ∷ rs) =
          IsDecided h (current_conviction N h (conviction_scores h.id)) alternative (pnl_pcts h.id)
            r
          × AllDecided alternative hs rs
      AllDecided alternative _ _ = ⊥

      -- The scan gives one result for each holding, in their order. A holding exits exactly if its
      -- conviction fell by more than 0.3 to less than 0.2, or its profit is given and is below -5% while the
      -- alternative is better by more than 10 points: without a given profit the second never happens. An
      -- exit has the state EXIT_OPPORTUNITY_COST, and nothing else has a state.
      pub scan-AllDecided :
          (alternative : N.F) (hs : List (Held N))
          → AllDecided alternative hs (scan N conviction_scores pnl_pcts alternative hs)
      unfolding scan
      scan-AllDecided alternative [] = tt
      scan-AllDecided alternative (h ∷ hs) =
          (evaluated-IsDecided h _ alternative (pnl_pcts h.id), scan-AllDecided alternative hs)
