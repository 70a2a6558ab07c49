-- ===== src/CatastropheNet.antt =====
-- pmacs/execution/catastrophe_net.py: the stop that rests at the broker, 15% below entry, and the exit
-- of a holding, which cancels it first. The broker's `cancel_order` is an argument: it returns whether
-- the order was cancelled, or raises with a text. Entries of the debug log are left out.
pub mod Exits
mod Examples
use Prim.Native.String.{◌++◌ as str_append}
use automatic_trading.Prelude.{
  Bool, true, false, ◌&&◌, not, String, str_eq, List, [], ◌∷◌, Option, none, some, if◌then◌else◌,
}
use automatic_trading.Text.{Text, codes}
use automatic_trading.Canonical.{boolean, text}
use automatic_trading.Audit.{Request, log_event}
use automatic_trading.Float.{Num, zero_of}
use automatic_trading.Holding.{Holding}
use automatic_trading.KillSwitch.{World, Clock, engage}

-- CancelResult
pub record CancelResult : Type 0 where
  pub success : Bool
  pub order_id : String

-- What the broker answers to a cancellation.
pub data Answer : Type 0 where
  returned : (cancelled : Bool) → Answer
  raised : (error : String) → Answer

pub data ExitError : Type 0 where
  cycle_id_required broker_error : ExitError

-- cancel_catastrophe_net(order_id, broker): the result, none for the BrokerError. `broker` is none where
-- no broker is given. What `cancel_order` returns is not read.
module _ (digest : Text → Text) where
  unfoldable pub cancelled : Clock → String → Answer → World → Option CancelResult × World
  cancelled clock order_id (returned b) w =
      (some (record { success = true; order_id = order_id }), w)
  cancelled clock order_id (raised error) w = (
    none,
    engage digest "CATASTROPHE_CANCEL_FAILED"
        (record {
          reason =
              str_append "Catastrophe-net cancel failed for order "
                (str_append order_id (str_append ": " error));
          cycle_id = "";
          audited = false;
          is_test = false;
          clock = clock;
        })
        w,
  )

  unfoldable pub cancel_catastrophe_net :
      Clock → String → Option (String → Answer) → World → Option CancelResult × World
  unfolding cancelled
  cancel_catastrophe_net clock order_id none w =
      (some (record { success = true; order_id = order_id }), w)
  cancel_catastrophe_net clock order_id (some cancel_order) w =
      cancelled clock order_id (cancel_order order_id) w

module _ (N : Num) where
  -- compute_catastrophe_stop(entry_price), none for the ValueError.
  unfoldable pub compute_catastrophe_stop : N.F → Option N.F
  compute_catastrophe_stop entry_price =
      if N.le entry_price (zero_of N)
      then none
      else some (N.round2 (N.mul entry_price (N.sub (N.lit 1 0) (N.lit 15 2))))

  -- A dict of an order: none for a missing key.
  pub record StopOrder : Type 0 where
    pub ticker : Option String
    pub side : Option String
    pub order_type : Option String
    pub stop_price : Option N.F
    pub qty : Option N.F
    pub time_in_force : Option String
    pub reason : Option String

  unfoldable pub stop_order : String → N.F → Option N.F → Option StopOrder
  stop_order t shares none = none
  stop_order t shares (some price) = some (record {
    ticker = some t;
    side = some "SELL";
    order_type = some "STOP_MARKET";
    stop_price = some price;
    qty = some shares;
    time_in_force = some "GTC";
    reason = some "catastrophe_net";
  })

  -- place_catastrophe_net_stop(ticker, entry_price, shares)
  unfoldable pub place_catastrophe_net_stop : String → N.F → N.F → Option StopOrder
  unfolding stop_order compute_catastrophe_stop
  place_catastrophe_net_stop t entry_price shares =
      stop_order t shares (compute_catastrophe_stop entry_price)

  unfoldable pub validate_fields :
      Option String
      → Option String
      → Option String
      → Option N.F
      → Option N.F
      → Option String
      → Option String
      → Bool
  validate_fields (some t) (some side) (some kind) (some price) (some qty) (some tif)
        (some reason) =
      if not (str_eq side "SELL")
      then false
      else if not (str_eq kind "STOP_MARKET")
      then false
      else if not (str_eq reason "catastrophe_net")
      then false
      else not (N.le price (zero_of N)) && not (N.le qty (zero_of N))
  validate_fields _ _ _ _ _ _ _ = false

  -- validate_stop_order(order)
  unfoldable pub validate_stop_order : StopOrder → Bool
  unfolding validate_fields
  validate_stop_order o =
      validate_fields o.ticker o.side o.order_type o.stop_price o.qty o.time_in_force o.reason

  -- What an exit reads of a holding beside its identifier.
  pub record Priced : Type 0 where
    pub ticker : String
    pub position_size_usd : Option N.F
    pub entry_price_usd : Option N.F

  -- A market order to sell. Its side and type are constants.
  pub record ExitOrder : Type 0 where
    pub ticker : String
    pub qty : N.F

  pub record ExitResult : Type 0 where
    pub exit_order : ExitOrder
    pub cancel_result : CancelResult
    pub holding_id : String
    pub exit_reason : String

  pub data Exit : Type 0 where
    exited : ExitResult → Exit
    exit_raised : ExitError → Exit

  -- A float that counts as true.
  unfoldable pub truthy : N.F → Bool
  truthy x = not (N.le x (zero_of N) && N.le (zero_of N) x)

  unfoldable pub exit_qty : Option N.F → Option N.F → N.F
  unfolding truthy
  exit_qty (some size) (some entry) =
      if truthy size && truthy entry && N.lt (zero_of N) entry then N.div size entry else zero_of N
  exit_qty _ _ = zero_of N

  unfoldable pub exit_event : Text → Holding Priced → String → String → String → Bool → Request
  exit_event now h exit_reason cycle_id order_id success = record {
    iso_ts = now;
    event_type = codes "catastrophe_net_cancelled";
    payload =
        (codes "holding_id", text (codes h.id))
        ∷ (codes "ticker", text (codes h.details.ticker))
        ∷ (codes "exit_reason", text (codes exit_reason))
        ∷ (codes "catastrophe_order_id", text (codes order_id))
        ∷ (codes "cancel_success", boolean success)
        ∷ [];
    cycle_id = codes cycle_id;
  }

  -- The arguments of `execute_exit` beside the holding. `audited` says that an audit path is given.
  pub record ExitArgs : Type 0 where
    pub exit_reason : String
    pub cycle_id : String
    pub broker : Option (String → Answer)
    pub audited : Bool
    pub catastrophe_order_id : String
    pub clock : Clock

  module _ (digest : Text → Text) where
    -- What follows the cancellation.
    unfoldable pub sell : Holding Priced → ExitArgs → Option CancelResult × World → Exit × World
    unfolding exit_qty exit_event
    sell h a (none, w) = (exit_raised broker_error, w)
    sell h a (some c, w) = (
      exited (record {
        exit_order = record {
          ticker = h.details.ticker;
          qty = exit_qty h.details.position_size_usd h.details.entry_price_usd;
        };
        cancel_result = c;
        holding_id = h.id;
        exit_reason = a.exit_reason;
      }),
      if a.audited
          then record w {
            disk =
                log_event digest
                  (exit_event a.clock.audit_now h a.exit_reason a.cycle_id a.catastrophe_order_id
                    c.success)
                  w.disk;
          }
          else w,
    )

    -- execute_exit(holding, exit_reason, cycle_id, …)
    unfoldable pub execute_exit : Holding Priced → ExitArgs → World → Exit × World
    unfolding sell cancel_catastrophe_net
    execute_exit h a w =
        if str_eq a.cycle_id ""
        then (exit_raised cycle_id_required, w)
        else sell h a (
            if str_eq a.catastrophe_order_id ""
            then (some (record { success = true; order_id = "" }), w)
            else cancel_catastrophe_net digest a.clock a.catastrophe_order_id a.broker w)
