-- ===== src/Sizing.antt =====
-- pmacs/engines/sizing.py and pmacs/engines/conviction.py: whether and how much to buy.
-- `Sizing.Conviction` has compute_conviction.
pub mod Bounds
pub mod Conviction
mod Examples
use automatic_trading.Prelude.{
  ℕ, zero, suc, Bool, true, false, ◌&&◌, String, List, [], ◌∷◌, Option, none, some, if◌then◌else◌,
}
use automatic_trading.Float.{Num, zero_of}

pub data VerdictTier : Type 0 where
  strong_buy buy hold skip pass : VerdictTier

module _ (N : Num) where
  -- min(a, b) and max(a, b): the first where they are equal.
  abbrev pub min_of : N.F → N.F → N.F
  min_of a b = if N.lt b a then b else a

  abbrev pub max_of : N.F → N.F → N.F
  max_of a b = if N.lt a b then b else a

  abbrev greatest : N.F → List N.F → N.F
  greatest a [] = a
  greatest a (b ∷ bs) = greatest (max_of a b) bs

  abbrev is_zero : N.F → Bool
  is_zero a = N.le a (zero_of N) && N.le (zero_of N) a

  -- BOOTSTRAP_HAIRCUT.get(min(n, 4), 1.0)
  unfoldable pub bootstrap_haircut : ℕ → N.F
  bootstrap_haircut zero = N.lit 50 2
  bootstrap_haircut (suc zero) = N.lit 65 2
  bootstrap_haircut (suc (suc zero)) = N.lit 80 2
  bootstrap_haircut (suc (suc (suc zero))) = N.lit 90 2
  bootstrap_haircut (suc (suc (suc (suc n)))) = N.lit 1 0

  pub record SizingInputs : Type 0 where
    pub p_up : N.F
    pub p_down : N.F
    pub target_gain_pct : N.F
    pub stop_loss_pct : N.F
    pub matured_sources_used : ℕ
    pub is_limited_history : Bool
    pub portfolio_correlations : List N.F
    pub max_position_pct : N.F
    pub portfolio_value_usd : N.F
    pub current_price : N.F
    pub is_bootstrap : Bool

  pub record SizingResult : Type 0 where
    pub target_usd : N.F
    pub target_shares : N.F
    pub applied_haircuts : List (String × N.F)
    pub abort_reason : Option String

  -- compute_kelly(p_up, p_down, target_gain_pct, stop_loss_pct)
  unfoldable pub compute_kelly : N.F → N.F → N.F → N.F → N.F
  compute_kelly p_up p_down target_gain_pct stop_loss_pct =
      if is_zero stop_loss_pct
      then zero_of N
      else N.div (N.sub (N.mul p_up target_gain_pct) (N.mul p_down stop_loss_pct)) stop_loss_pct

  unfoldable pub correlation_factor : List N.F → N.F
  correlation_factor [] = N.lit 1 0
  correlation_factor (c ∷ cs) = max_of (N.lit 30 2) (N.sub (N.lit 1 0) (greatest c cs))

  unfoldable pub limited_factor : Bool → N.F
  limited_factor is_limited = if is_limited then N.lit 50 2 else N.lit 1 0

  unfoldable pub shares_for : N.F → N.F → N.F
  shares_for target_usd current_price =
      if N.lt (zero_of N) current_price then N.div target_usd current_price else zero_of N

  -- `max_usd` is MAX_POSITION_USD, which the configuration gives.
  module _ (max_usd : N.F) where
    -- The least position during the bootstrap, 5% of the portfolio.
    unfoldable pub bootstrap_position : SizingInputs → SizingResult
    unfolding shares_for
    bootstrap_position x =
        let target_usd = min_of (N.mul (N.lit 5 2) x.portfolio_value_usd) max_usd in
        record {
          target_usd = target_usd;
          target_shares = shares_for target_usd x.current_price;
          applied_haircuts = ("bootstrap_floor", N.lit 5 2) ∷ [];
          abort_reason = none;
        }

    unfoldable pub target_pct : SizingInputs → N.F → N.F
    unfolding correlation_factor bootstrap_haircut limited_factor
    target_pct x kelly =
        min_of
          (N.mul
            (N.mul (N.mul (N.mul kelly (N.lit 5 1)) (correlation_factor x.portfolio_correlations))
              (bootstrap_haircut x.matured_sources_used))
            (limited_factor x.is_limited_history))
          x.max_position_pct

    unfoldable pub kelly_position : SizingInputs → N.F → SizingResult
    unfolding shares_for target_pct
    kelly_position x kelly =
        let target_usd = min_of (N.mul (target_pct x kelly) x.portfolio_value_usd) max_usd in
        record {
          target_usd = target_usd;
          target_shares = shares_for target_usd x.current_price;
          applied_haircuts =
              ("bootstrap", bootstrap_haircut x.matured_sources_used)
              ∷ ("limited_history", limited_factor x.is_limited_history)
              ∷ ("correlation", correlation_factor x.portfolio_correlations)
              ∷ [];
          abort_reason = none;
        }

    -- size_position(x)
    unfoldable pub size_position : SizingInputs → SizingResult
    unfolding compute_kelly bootstrap_position kelly_position
    size_position x =
        let kelly = compute_kelly x.p_up x.p_down x.target_gain_pct x.stop_loss_pct in
        if N.le kelly (zero_of N)
        then (if x.is_bootstrap then bootstrap_position x else record {
          target_usd = zero_of N;
          target_shares = zero_of N;
          applied_haircuts = [];
          abort_reason = some "NEGATIVE_KELLY_NO_EDGE";
        })
        else kelly_position x kelly

  abbrev below : Option N.F → N.F → Bool
  below none limit = false
  below (some x) limit = N.lt x limit

  -- Whether evaluate_pass_signal triggers. `no_comps` says that there are no comparable transactions.
  unfoldable pub evaluate_pass_signal : Option N.F → Bool → Option N.F → Bool
  evaluate_pass_signal rr_ratio no_comps growth_pct =
      if below rr_ratio (N.lit 15 1)
      then true
      else if no_comps && below growth_pct (N.lit 10 2)
      then true
      else false

  -- verdict_tier(conviction, …)
  unfoldable pub verdict_tier :
      N.F → Bool → Bool → Bool → Option N.F → Bool → Option N.F → VerdictTier
  unfolding evaluate_pass_signal
  verdict_tier conviction is_active_holding thesis_valid is_bootstrap rr_ratio no_comps growth_pct =
      if evaluate_pass_signal rr_ratio no_comps growth_pct
      then pass
      else if is_active_holding && thesis_valid
      then hold
      else if is_bootstrap
      then (if N.le (N.lit 40 2) conviction
          then strong_buy
          else if N.le (N.lit 15 2) conviction
          then buy
          else if N.le (N.lit 5 2) conviction
          then hold
          else skip)
      else if N.le (N.lit 6 1) conviction
      then strong_buy
      else if N.le (N.lit 3 1) conviction
      then buy
      else skip
