-- ===== src/Stops.antt =====
-- pmacs/engines/trailing_stop.py and pmacs/engines/stop_loss_monitor.py: the stops of an active holding.
pub mod Ratchet
mod Examples
use automatic_trading.Prelude.{
  Bool, true, false, ◌&&◌, not, String, str_eq, List, [], ◌∷◌, Option, none, some, if◌then◌else◌,
}
use automatic_trading.Float.{Num, zero_of}

pub data StopBreachType : Type 0 where
  fixed_stop trailing_stop : StopBreachType

-- determine_order_type(market_state)
unfoldable pub determine_order_type : String → String
determine_order_type market_state = if str_eq market_state "RTH" then "MARKET" else "MARKET_ON_OPEN"

module _ (N : Num) where
  pub record TrailingStopState : Type 0 where
    pub armed : Bool
    pub trailing_stop_price : N.F
    pub profit_r_at_arm : N.F

  -- compute_profit_r(entry_price, current_price, stop_loss_price). Finite floats are equal if each is at
  -- most the other.
  unfoldable pub compute_profit_r : N.F → N.F → N.F → N.F
  compute_profit_r entry_price current_price stop_loss_price =
      if N.le entry_price stop_loss_price && N.le stop_loss_price entry_price
      then zero_of N
      else N.div (N.sub current_price entry_price) (N.sub entry_price stop_loss_price)

  -- current_price - 1.0 * atr_20
  unfoldable pub trailing_for : N.F → N.F → N.F
  trailing_for atr_20 current_price = N.sub current_price (N.mul (N.lit 1 0) atr_20)

  -- maybe_arm_trailing(…)
  unfoldable pub maybe_arm_trailing : N.F → N.F → N.F → N.F → Bool → N.F → TrailingStopState
  unfolding compute_profit_r trailing_for
  maybe_arm_trailing entry_price current_price stop_loss_price atr_20 is_armed current_trailing =
      let profit_r = compute_profit_r entry_price current_price stop_loss_price in
      if is_armed
      then record {
        armed = true;
        trailing_stop_price = current_trailing;
        profit_r_at_arm = zero_of N;
      }
      else if N.lt (N.lit 15 1) profit_r
      then record {
        armed = true;
        trailing_stop_price = trailing_for atr_20 current_price;
        profit_r_at_arm = profit_r;
      }
      else record { armed = false; trailing_stop_price = zero_of N; profit_r_at_arm = zero_of N }

  -- maybe_ratchet_trailing(current_price, atr_20, current_trailing)
  unfoldable pub maybe_ratchet_trailing : N.F → N.F → N.F → N.F
  unfolding trailing_for
  maybe_ratchet_trailing current_price atr_20 current_trailing =
      let new_trailing = trailing_for atr_20 current_price in
      if N.lt current_trailing new_trailing then new_trailing else current_trailing

  -- The stop along the prices that come in.
  unfoldable pub ratchet_all : N.F → List N.F → N.F → N.F
  unfolding maybe_ratchet_trailing
  ratchet_all atr_20 [] trailing = trailing
  ratchet_all atr_20 (price ∷ prices) trailing =
      ratchet_all atr_20 prices (maybe_ratchet_trailing price atr_20 trailing)

  -- What the checks read of a holding. `trailing_stop_armed` is none where it has no such attribute.
  pub record Watched : Type 0 where
    pub id : String
    pub ticker : String
    pub stop_price_usd : Option N.F
    pub trailing_stop_armed : Option Bool
    pub trailing_stop_price_usd : Option N.F

  -- `triggered` is always True.
  pub record StopCheckResult : Type 0 where
    pub ticker : String
    pub holding_id : String
    pub stop_price : N.F
    pub current_price : N.F
    pub is_gap_down : Bool
    pub order_type : String
    pub stop_type : StopBreachType

  -- The comparison and the result that the two checks share.
  unfoldable pub breach :
      StopBreachType → Watched → N.F → String → Option N.F → Option StopCheckResult
  breach kind h current_price market_state none = none
  breach kind h current_price market_state (some stop) =
      let is_gap = not (str_eq market_state "RTH") in
      if N.le current_price stop
      then some (record {
        ticker = h.ticker;
        holding_id = h.id;
        stop_price = stop;
        current_price = current_price;
        is_gap_down = is_gap;
        order_type = if is_gap then "MARKET_ON_OPEN" else "MARKET";
        stop_type = kind;
      })
      else none

  -- check_stop_breach(holding, current_price, market_state)
  unfoldable pub check_stop_breach : Watched → N.F → String → Option StopCheckResult
  unfolding breach
  check_stop_breach h current_price market_state =
      breach fixed_stop h current_price market_state h.stop_price_usd

  -- Without the flag, a trailing price implies that the stop is armed.
  unfoldable pub is_watched : Option Bool → Bool
  is_watched none = true
  is_watched (some armed) = armed

  -- check_trailing_breach(holding, current_price, market_state)
  unfoldable pub check_trailing_breach : Watched → N.F → String → Option StopCheckResult
  unfolding breach is_watched
  check_trailing_breach h current_price market_state =
      if is_watched h.trailing_stop_armed
      then breach trailing_stop h current_price market_state h.trailing_stop_price_usd
      else none
