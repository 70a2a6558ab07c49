-- ===== src/StopEvents.antt =====
-- pmacs/cortex/stop_loss_daemon.py and pmacs/schemas/stop_loss.py: the table of stop events and the
-- sweep of the stop-loss daemon over the active holdings, which writes them. `StopEvents.Poller` is the
-- process that reads them. Prices from outside and the last known price are arguments; a failing
-- database and the heartbeats are left out.
pub mod Poller
pub mod Advance
pub mod Filled
pub mod Closed
pub mod Sweep
mod Examples
use automatic_trading.Prelude.{
  ℕ, suc, Bool, true, false, ◌||◌, String, str_eq, List, [], ◌∷◌, ◌++◌, Option, none, some,
  if◌then◌else◌,
}
use automatic_trading.Text.{Text}
use automatic_trading.Float.{Num, zero_of}
use automatic_trading.Stops.{
  StopBreachType, fixed_stop, trailing_stop, Watched, StopCheckResult, check_stop_breach,
  check_trailing_breach,
}
use automatic_trading.CatastropheNet.{truthy}

-- StopEventStatus
pub data StopEventStatus : Type 0 where
  pending submitted filled cancelled : StopEventStatus

unfoldable pub is_pending : StopEventStatus → Bool
is_pending pending = true
is_pending _ = false

module _ (N : Num) where
  -- A row of `stop_events`. The column `processed` is never written.
  pub record StopEvent : Type 0 where
    pub id : ℕ
    pub holding_id : String
    pub ticker : String
    pub stop_type : String
    pub trigger_price_usd : N.F
    pub stop_price_usd : N.F
    pub detected_at : Text
    pub cycle_id : Option String
    pub status : StopEventStatus
    pub stop_type_category : String
    pub updated_at : Option Text

  -- The table: its rows and AUTOINCREMENT's last key.
  pub record StopTable : Type 0 where
    pub rows : List StopEvent
    pub last_id : ℕ

  -- The string of the category with a result.
  unfoldable pub categorised :
      Option (StopCheckResult N)
      → String
      → Option (StopCheckResult N × String)
      → Option (StopCheckResult N × String)
  categorised none category other = other
  categorised (some r) category other = some (r, category)

  -- check_holding(holding, current_price, market_state)
  unfoldable pub check_holding : Watched N → N.F → String → Option (StopCheckResult N × String)
  unfolding categorised
  check_holding h current_price market_state =
      categorised (check_trailing_breach N h current_price market_state) "TRAILING"
        (categorised (check_stop_breach N h current_price market_state) "FIXED" none)

  unfoldable pub stop_type_value : StopBreachType → String
  stop_type_value trailing_stop = "TRAILING_STOP"
  stop_type_value fixed_stop = "FIXED_STOP"

  unfoldable pub stop_event : ℕ → StopCheckResult N → String → String → Text → StopEvent
  unfolding stop_type_value
  stop_event id r category cycle_id now = record {
    id = id;
    holding_id = r.holding_id;
    ticker = r.ticker;
    stop_type = stop_type_value r.stop_type;
    trigger_price_usd = r.current_price;
    stop_price_usd = r.stop_price;
    detected_at = now;
    cycle_id = some cycle_id;
    status = pending;
    stop_type_category = category;
    updated_at = some now;
  }

  -- _write_stop_trigger(conn, result, stop_type_category, cycle_id): none where StopTrigger refuses a
  -- price that is not positive.
  unfoldable pub write_stop_trigger :
      StopCheckResult N → String → String → Text → StopTable → Option StopTable
  unfolding stop_event
  write_stop_trigger r category cycle_id now t =
      if N.le r.current_price (zero_of N) || N.le r.stop_price (zero_of N)
      then none
      else some (record {
        rows = t.rows ++ stop_event (suc t.last_id) r category cycle_id now ∷ [];
        last_id = suc t.last_id;
      })

  -- What the daemon reads of a row of `holdings`.
  pub record HoldingRow : Type 0 where
    pub id : String
    pub ticker : String
    pub state : String
    pub stop_price_usd : Option N.F
    pub trailing_stop_price_usd : Option N.F
    pub trailing_stop_armed : Bool

  -- What a sweep reads from outside: _fetch_current_price(ticker, gateway), the query for
  -- last_price_usd, none where it raises or finds NULL, and the time of a write.
  pub record Market : Type 0 where
    pub fetch : String → Option N.F
    pub last_price : String → Option N.F
    pub now : String → Text

  unfoldable pub last_known : Option N.F → Option N.F
  last_known none = none
  last_known (some p) = if truthy N p then some p else none

  unfoldable pub price_or_last : Option N.F → Option N.F → Option N.F
  unfolding last_known
  price_or_last none last = last_known last
  price_or_last (some p) last = some p

  unfoldable pub watched : HoldingRow → Watched N
  watched h = record {
    id = h.id;
    ticker = h.ticker;
    stop_price_usd = h.stop_price_usd;
    trailing_stop_armed = some h.trailing_stop_armed;
    trailing_stop_price_usd = h.trailing_stop_price_usd;
  }

  -- A sweep ends with the table, at a row that raises with the rows before it done.
  pub record Swept : Type 0 where
    pub table : StopTable
    pub raised : Bool

  unfoldable pub written : StopTable → Option StopTable → Swept
  written before none = record { table = before; raised = true }
  written before (some after) = record { table = after; raised = false }

  unfoldable pub recorded : String → Text → StopTable → Option (StopCheckResult N × String) → Swept
  unfolding written write_stop_trigger
  recorded cycle_id now t none = record { table = t; raised = false }
  recorded cycle_id now t (some (r, category)) =
      written t (write_stop_trigger r category cycle_id now t)

  unfoldable pub check_row : Market → String → HoldingRow → Option N.F → StopTable → Swept
  unfolding check_holding recorded watched
  check_row m cycle_id h none t = record { table = t; raised = false }
  check_row m cycle_id h (some price) t =
      recorded cycle_id (m.now h.id) t (check_holding (watched h) price "RTH")

  -- The body of run_stop_loss_loop in regular trading hours.
  unfoldable pub sweep : Market → String → List HoldingRow → StopTable → Swept
  unfolding check_row price_or_last
  sweep m cycle_id [] t = record { table = t; raised = false }
  sweep m cycle_id (h ∷ hs) t =
      let s = check_row m cycle_id h (price_or_last (m.fetch h.ticker) (m.last_price h.id)) t in
      let rest = sweep m cycle_id hs s.table in
      if str_eq h.state "ACTIVE" then if s.raised then s else rest else sweep m cycle_id hs t
