-- ===== src/Opportunity.antt =====
-- pmacs/engines/opportunity_cost.py and pmacs/engines/portfolio_risk_gate.py: which holdings are given up
-- for better ones, and the gate of a new position. Dicts are functions, none for a missing key; the
-- days that a holding is held are read by nothing, and the debug log is left out.
pub mod Scan
mod Examples
use automatic_trading.Prelude.{
  ℕ, leb, Bool, true, false, ◌&&◌, not, String, str_eq, List, [], ◌∷◌, Option, none, some,
  if◌then◌else◌,
}
use automatic_trading.Float.{Num, zero_of}
use automatic_trading.Holding.{HoldingState, exit_opportunity_cost}

pub data Action : Type 0 where
  hold exit : Action

-- The texts of `reason`, without their numbers.
pub data Reason : Type 0 where
  conviction_dropped underwater no_compelling_reason : Reason

pub data GateReason : Type 0 where
  position_limit position_concentration sector_exposure : GateReason

unfoldable pub is_exit : Action → Bool
is_exit exit = true
is_exit hold = false

module _ (N : Num) where
  pub record OpportunityCostResult : Type 0 where
    pub action : Action
    pub reason : Reason
    pub opportunity_cost_pct : N.F
    pub holding_id : String
    pub ticker : String
    pub conviction_drop : N.F
    pub exit_state : Option HoldingState

  -- What the scan reads of a holding.
  pub record Held : Type 0 where
    pub id : String
    pub ticker : String
    pub conviction_score : Option N.F

  unfoldable pub result_of : Action → Reason → N.F → N.F → OpportunityCostResult
  result_of action reason cost drop = record {
    action = action;
    reason = reason;
    opportunity_cost_pct = cost;
    holding_id = "";
    ticker = "";
    conviction_drop = drop;
    exit_state = none;
  }

  -- decide_hold_or_exit(…)
  unfoldable pub decide_hold_or_exit :
      (holding_pnl_pct alternative conviction_at_entry current_conviction : N.F)
      → OpportunityCostResult
  unfolding result_of
  decide_hold_or_exit holding_pnl_pct alternative conviction_at_entry current_conviction =
      let drop = N.sub conviction_at_entry current_conviction in
      if N.lt (N.lit 3 1) drop && N.lt current_conviction (N.lit 2 1)
      then result_of exit conviction_dropped alternative drop
      else if N.lt holding_pnl_pct (N.sub (zero_of N) (N.lit 5 0))
          && N.lt (N.add holding_pnl_pct (N.lit 10 0)) alternative
      then result_of exit underwater alternative drop
      else result_of hold no_compelling_reason (zero_of N) drop

  -- score or 0.5: zero counts as no score.
  unfoldable pub score_or_half : Option N.F → N.F
  score_or_half none = N.lit 5 1
  score_or_half (some c) = if N.le c (zero_of N) && N.le (zero_of N) c then N.lit 5 1 else c

  -- The assignments after a decision.
  unfoldable pub filled : Held → OpportunityCostResult → OpportunityCostResult
  unfolding is_exit
  filled h r = record r {
    holding_id = h.id;
    ticker = h.ticker;
    exit_state = if is_exit r.action then some exit_opportunity_cost else r.exit_state;
  }

  -- evaluate_holding(…) with a cycle identifier. Its pnl_pct is 0.0 in every branch.
  unfoldable pub evaluate_holding : Held → N.F → N.F → OpportunityCostResult
  unfolding filled decide_hold_or_exit score_or_half
  evaluate_holding h current_conviction alternative = filled h (
      decide_hold_or_exit (zero_of N) alternative (score_or_half h.conviction_score)
        current_conviction)

  -- conviction_scores.get(id, score or 0.5)
  unfoldable pub current_conviction : Held → Option N.F → N.F
  unfolding score_or_half
  current_conviction h none = score_or_half h.conviction_score
  current_conviction h (some c) = c

  -- With the profit or loss that is given for the holding, if one is.
  unfoldable pub evaluated : Held → N.F → N.F → Option N.F → OpportunityCostResult
  unfolding evaluate_holding filled decide_hold_or_exit score_or_half
  evaluated h conviction alternative none = evaluate_holding h conviction alternative
  evaluated h conviction alternative (some pnl) =
      filled h (decide_hold_or_exit pnl alternative (score_or_half h.conviction_score) conviction)

  module _ (conviction_scores pnl_pcts : String → Option N.F) where
    -- The loop of run_opportunity_cost_scan.
    unfoldable pub scan : N.F → List Held → List OpportunityCostResult
    unfolding evaluated current_conviction
    scan alternative [] = []
    scan alternative (h ∷ hs) =
        evaluated h (current_conviction h (conviction_scores h.id)) alternative (pnl_pcts h.id)
        ∷ scan alternative hs

    -- run_opportunity_cost_scan(…), none for the ValueError.
    unfoldable pub run_opportunity_cost_scan :
        N.F → (cycle_id : String) → List Held → Option (List OpportunityCostResult)
    unfolding scan
    run_opportunity_cost_scan alternative cycle_id hs =
        if str_eq cycle_id "" then none else some (scan alternative hs)

  -- RiskGateInputs. `sector` is none for None and for the empty text.
  pub record RiskGateInputs : Type 0 where
    pub current_position_count : ℕ
    pub max_concurrent_positions : ℕ
    pub target_usd : N.F
    pub portfolio_value_usd : N.F
    pub max_position_pct : N.F
    pub sector : Option String
    pub current_sector_exposure : Option (String → Option N.F)
    pub max_sector_pct : N.F

  unfoldable pub position_pct : RiskGateInputs → N.F
  position_pct x =
      if N.lt (zero_of N) x.portfolio_value_usd
      then N.div x.target_usd x.portfolio_value_usd
      else zero_of N

  unfoldable pub exposure_or_zero : Option N.F → N.F
  exposure_or_zero none = zero_of N
  exposure_or_zero (some e) = e

  unfoldable pub sector_exceeded : N.F → N.F → Option String → Option (String → Option N.F) → Bool
  unfolding exposure_or_zero
  sector_exceeded pct max (some sector) (some exposure) =
      N.lt max (N.add (exposure_or_zero (exposure sector)) pct)
  sector_exceeded pct max _ _ = false

  abbrev pub reason_if : Bool → GateReason → List GateReason → List GateReason
  reason_if b r rs = if b then r ∷ rs else rs

  pub record RiskGateResult : Type 0 where
    pub passed : Bool
    pub reasons : List GateReason

  unfoldable pub is_empty : List GateReason → Bool
  is_empty [] = true
  is_empty (r ∷ rs) = false

  -- The list of reasons that evaluate_risk_gate builds.
  unfoldable pub gate_reasons : RiskGateInputs → List GateReason
  unfolding position_pct sector_exceeded
  gate_reasons x =
      reason_if (leb x.max_concurrent_positions x.current_position_count) position_limit (
        reason_if (N.lt x.max_position_pct (position_pct x)) position_concentration (
          reason_if
            (sector_exceeded (position_pct x) x.max_sector_pct x.sector x.current_sector_exposure)
            sector_exposure []))

  -- evaluate_risk_gate(x)
  unfoldable pub evaluate_risk_gate : RiskGateInputs → RiskGateResult
  unfolding gate_reasons is_empty
  evaluate_risk_gate x = record { passed = is_empty (gate_reasons x); reasons = gate_reasons x }
