-- ===== src/StopEvents/Poller.antt =====
-- pmacs/nervous/stop_poller.py: the process that reads the pending stop events, exits their holdings
-- and moves those to a terminal state. The lookup of holdings is a list of them by identifier.
use Prim.Native.String.{◌++◌ as str_append}
use automatic_trading.Prelude.{
  ℕ, ◌==◌, false, String, str_eq, List, [], ◌∷◌, Option, none, some, if◌then◌else◌,
}
use automatic_trading.Text.{Text}
use automatic_trading.Audit.{Disk}
use automatic_trading.Float.{Num}
use automatic_trading.Holding.{
  Holding, HoldingState, exit_trailing_stop, stopped_out, Order, Clock, Refusal, Result, ok,
  refused, transition,
}
use automatic_trading.KillSwitch.{World}
use automatic_trading.CatastropheNet.{Priced, ExitError, Exit, exited, exit_raised, execute_exit}
use automatic_trading.StopEvents.{StopEventStatus, submitted, filled, is_pending, StopEvent}

pub data PollError : Type 0 where
  exit_error : ExitError → PollError
  refused_transition : Refusal → PollError

-- What a call reads from the clock: for the two updates, for the exit and for the transition.
pub record Times : Type 0 where
  pub submitted_at : Text
  pub filled_at : Text
  pub exit_clock : automatic_trading.KillSwitch.Clock
  pub clock : Clock

-- a or b
unfoldable pub or_string : String → String → String
or_string a b = if str_eq a "" then b else a

unfoldable pub or_none : Option String → String → String
unfolding or_string
or_none none b = b
or_none (some a) b = or_string a b

-- _determine_exit_state(stop_type)
unfoldable pub determine_exit_state : String → HoldingState
determine_exit_state stop_type =
    if str_eq stop_type "TRAILING_STOP" then exit_trailing_stop else stopped_out

module _ (N : Num) where
  -- The dict that `poll_pending` makes of a row.
  pub record Trigger : Type 0 where
    pub id : ℕ
    pub holding_id : String
    pub ticker : String
    pub stop_type : String
    pub trigger_price_usd : N.F
    pub stop_price_usd : N.F
    pub detected_at : Text
    pub cycle_id : String
    pub stop_type_category : String

  unfoldable pub trigger_of : StopEvent N → Trigger
  unfolding or_none or_string
  trigger_of e = record {
    id = e.id;
    holding_id = e.holding_id;
    ticker = e.ticker;
    stop_type = e.stop_type;
    trigger_price_usd = e.trigger_price_usd;
    stop_price_usd = e.stop_price_usd;
    detected_at = e.detected_at;
    cycle_id = or_none e.cycle_id "";
    stop_type_category = or_string e.stop_type_category "FIXED";
  }

  -- poll_pending()
  unfoldable pub poll_pending : List (StopEvent N) → List Trigger
  unfolding trigger_of is_pending
  poll_pending [] = []
  poll_pending (e ∷ es) =
      let rest = poll_pending es in if is_pending e.status then trigger_of e ∷ rest else rest

  -- _update_status(trigger_id, status)
  unfoldable pub update_status :
      ℕ → StopEventStatus → Text → List (StopEvent N) → List (StopEvent N)
  update_status id status now [] = []
  update_status id status now (e ∷ es) =
      let rest = update_status id status now es in
      if e.id == id then record e { status = status; updated_at = some now } ∷ rest else e ∷ rest

  -- holding_lookup.get(holding_id)
  unfoldable pub holding_of : String → List (Holding (Priced N)) → Option (Holding (Priced N))
  holding_of id [] = none
  holding_of id (h ∷ hs) = let rest = holding_of id hs in if str_eq h.id id then some h else rest

  -- A holding in the lookup has changed.
  unfoldable pub set_holding :
      Holding (Priced N) → List (Holding (Priced N)) → List (Holding (Priced N))
  set_holding h [] = []
  set_holding h (k ∷ hs) =
      let rest = set_holding h hs in if str_eq k.id h.id then h ∷ hs else k ∷ rest

  pub record System : Type 0 where
    pub events : List (StopEvent N)
    pub holdings : List (Holding (Priced N))
    pub world : World

  -- A call that returns, or raises, with the state it leaves.
  pub data Step : Type 0 where
    fine : System → Step
    failed : PollError → System → Step

  unfoldable pub and_then : Step → (System → Step) → Step
  and_then (fine s) f = f s
  and_then (failed e s) f = failed e s

  module _ (digest : Text → Text) (times : ℕ → Times) where
    unfoldable pub after_exit : System → Exit N × World → Step
    after_exit s (exited r, w) = fine (record s { world = w })
    after_exit s (exit_raised e, w) = failed (exit_error e) (record s { world = w })

    -- Step 2. No broker and no order is given.
    unfoldable pub exit_step : Option (Holding (Priced N)) → Trigger → String → System → Step
    unfolding after_exit
    exit_step none t cycle_id s = fine s
    exit_step (some h) t cycle_id s = after_exit s (
        execute_exit N digest h
          (record {
            exit_reason = t.stop_type;
            cycle_id = cycle_id;
            broker = none;
            audited = false;
            catastrophe_order_id = "";
            clock = (times t.id).exit_clock;
          })
          s.world)

    unfoldable pub after_transition : System → Result (Holding (Priced N) × Disk) → Step
    after_transition s (refused r) = failed (refused_transition r) s
    after_transition s (ok (h, d)) =
        fine (record s { holdings = set_holding h s.holdings; world = record s.world { disk = d } })

    unfoldable pub exit_order : Trigger → String → Order
    unfolding determine_exit_state
    exit_order t cycle_id = record {
      new_state = determine_exit_state t.stop_type;
      reason = str_append "Stop trigger: " t.stop_type;
      cycle_id = cycle_id;
      op_seq = 0;
      clock = (times t.id).clock;
    }

    -- Step 4
    unfoldable pub transition_step : Option (Holding (Priced N)) → Trigger → String → System → Step
    unfolding after_transition exit_order
    transition_step none t cycle_id s = fine s
    transition_step (some h) t cycle_id s =
        if str_eq cycle_id ""
        then fine s
        else after_transition s (transition digest false h (exit_order t cycle_id) s.world.disk)

    -- process_trigger(trigger, holding, cycle_id)
    unfoldable pub process_trigger : Trigger → Option (Holding (Priced N)) → String → System → Step
    unfolding or_string update_status and_then exit_step transition_step
    process_trigger t holding cycle_id s =
        let trig_cycle_id = or_string t.cycle_id (or_string cycle_id "stop-poll") in
        let s' = record s {
          events = update_status t.id submitted (times t.id).submitted_at s.events;
        } in
        and_then (exit_step holding t trig_cycle_id s') λ u.
          transition_step holding t trig_cycle_id
            (record u { events = update_status t.id filled (times t.id).filled_at u.events })

    -- The triggers of one round. What raises ends it, and the process.
    unfoldable pub process_all : List Trigger → System → Step
    unfolding and_then process_trigger holding_of
    process_all [] s = fine s
    process_all (t ∷ ts) s =
        and_then (process_trigger t (holding_of t.holding_id s.holdings) "" s) (process_all ts)

    -- One round of run_poll_loop in regular trading hours.
    unfoldable pub poll : System → Step
    unfolding poll_pending process_all
    poll s = process_all (poll_pending s.events) s
