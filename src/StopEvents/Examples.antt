-- ===== src/StopEvents/Examples.antt =====
-- Two active holdings, one of which has fallen to its stop, and a third in a trailing stop.
use automatic_trading.Prelude.{ℕ, true, false, ◌||◌, ◌≡◌, refl, String, List, [], ◌∷◌, some, none}
use automatic_trading.Text.{codes}
use automatic_trading.Audit.Toy.{toy_digest, no_log}
use automatic_trading.Float.Fixed.{fixed, fixed_laws, pos}
use automatic_trading.Holding.{
  Holding, active, is_terminal, is_member, valid_transitions, is_valid_transition,
}
use automatic_trading.Stops.{check_stop_breach, check_trailing_breach, breach, is_watched}
use automatic_trading.KillSwitch.{World}
use automatic_trading.CatastropheNet.{Priced}
use automatic_trading.StopEvents.{
  StopTable, HoldingRow, Market, sweep, check_row, check_holding, watched, categorised,
  price_or_last, last_known, recorded as recorded_row, written, write_stop_trigger, stop_event,
  is_pending,
}
use automatic_trading.StopEvents.Poller.{
  System, Times, poll, poll_pending, trigger_of, determine_exit_state, holding_of,
}
use automatic_trading.StopEvents.Advance.{returns, state_of}
use automatic_trading.StopEvents.Closed.{mentions, ready, is_ended, poll-ready}
use automatic_trading.StopEvents.Sweep.{breached_in, sweep-mentions, sweep-raised, sweep-poll}

abbrev row : String → ℕ → HoldingRow fixed
row id stop = record {
  id = id;
  ticker = "AAA";
  state = "ACTIVE";
  stop_price_usd = some (pos stop);
  trailing_stop_price_usd = none;
  trailing_stop_armed = false;
}

abbrev rows : List (HoldingRow fixed)
rows = row "h1" 950000 ∷ row "h2" 500000 ∷ []

abbrev market : Market fixed
market = record {
  fetch = λ ticker. some (pos 900000);
  last_price = λ id. none;
  now = λ id. codes "t1";
}

abbrev no_events : StopTable fixed
no_events = record { rows = []; last_id = 0 }

abbrev held : String → Holding (Priced fixed)
held id = record {
  id = id;
  state = active;
  abort_reason = none;
  exit_date = none;
  cycle_id_closed = none;
  updated_at = codes "t0";
  details = record {
    ticker = "AAA";
    position_size_usd = some (pos 10000000);
    entry_price_usd = some (pos 1000000);
  };
}

abbrev times : ℕ → Times
times id = record {
  submitted_at = codes "t2";
  filled_at = codes "t3";
  exit_clock = record { now = codes "t2"; audit_now = codes "t2" };
  clock = record { now = codes "t3"; today = 20634 };
}

abbrev world : World
world = record { row = none; proposals = none; disk = no_log; published = []; notes = [] }

abbrev system : System fixed
unfolding sweep
system = record {
  events = (sweep fixed market "c1" rows no_events).table.rows;
  holdings = held "h1" ∷ held "h2" ∷ [];
  world = world;
}

sweep-mentions_example :
    mentions fixed "h1" (poll_pending fixed (sweep fixed market "c1" rows no_events).table.rows) ≡ (
      mentions fixed "h1" (poll_pending fixed no_events.rows) || breached_in fixed market "h1" rows)
unfolding price_or_last
sweep-mentions_example =
    sweep-mentions fixed market "c1" rows no_events "h1"
      (sweep-raised fixed fixed_laws market "c1" rows no_events refl)

poll-ready_example :
    returns fixed (poll fixed toy_digest times system)
    ≡ ready fixed (poll_pending fixed system.events) system.holdings
poll-ready_example = poll-ready fixed toy_digest times system

sweep-poll_example :
    is_ended fixed "h1" (state_of fixed (poll fixed toy_digest times system)).holdings ≡ true
unfolding sweep check_row check_holding watched categorised price_or_last last_known recorded_row
    written write_stop_trigger stop_event is_pending check_stop_breach check_trailing_breach breach
    is_watched poll_pending trigger_of is_valid_transition is_terminal is_member valid_transitions
    determine_exit_state holding_of
sweep-poll_example =
    sweep-poll fixed fixed_laws toy_digest times market "c1" rows no_events system "h1" refl refl
      (poll-ready fixed toy_digest times system)
