-- ===== src/CatastropheNet/Examples.antt =====
-- The exit of a holding of $1000 that was bought at $40, with brokers that cancel, refuse and fail.
use automatic_trading.Prelude.{
  true, false, not, ◌&&◌, ◌||◌, ◌≡◌, refl, [], String, str_eq, some, none,
}
use automatic_trading.Text.{codes}
use automatic_trading.Audit.Toy.{toy_digest, no_log}
use automatic_trading.Float.Fixed.{fixed, pos, times, ◌-ℤ◌, to_cents}
use automatic_trading.Holding.{Holding, active}
use automatic_trading.KillSwitch.{World, is_engaged, Clock}
use automatic_trading.CatastropheNet.{
  Answer, returned, raised, Priced, ExitArgs, execute_exit, compute_catastrophe_stop,
}
use automatic_trading.CatastropheNet.Exits.{
  cancel_fails, sells, execute_exit-is_engaged, execute_exit-refused,
}

abbrev clock : Clock
clock = record { now = codes "t1"; audit_now = codes "t2" }

abbrev held : Holding (Priced fixed)
held = record {
  id = "h1";
  state = active;
  abort_reason = none;
  exit_date = none;
  cycle_id_closed = none;
  updated_at = codes "t0";
  details = record {
    ticker = "AAA";
    position_size_usd = some (pos 10000000);
    entry_price_usd = some (pos 400000);
  };
}

abbrev failing : String → Answer
failing order_id = raised "timeout"

abbrev cancelling : String → Answer
cancelling order_id = returned true

abbrev refusing : String → Answer
refusing order_id = returned false

abbrev args : ExitArgs fixed
args = record {
  exit_reason = "TRAILING_STOP";
  cycle_id = "c1";
  broker = some failing;
  audited = false;
  catastrophe_order_id = "o1";
  clock = clock;
}

abbrev world : World
world = record { row = none; proposals = none; disk = no_log; published = []; notes = [] }

stop_at : compute_catastrophe_stop fixed (pos 400000) ≡ some (pos 340000)
unfolding compute_catastrophe_stop times ◌-ℤ◌ to_cents
stop_at = refl

execute_exit-is_engaged_example :
    (sells fixed (execute_exit fixed toy_digest held args world).0
      ≡ (not (str_eq args.cycle_id "") && not (cancel_fails fixed args)))
    × (is_engaged (execute_exit fixed toy_digest held args world).1
        ≡ (is_engaged world || cancel_fails fixed args))
execute_exit-is_engaged_example = execute_exit-is_engaged fixed toy_digest held args world

execute_exit-refused_example :
    execute_exit fixed toy_digest held (record args { broker = some cancelling }) world
    ≡ execute_exit fixed toy_digest held (record args { broker = some refusing }) world
execute_exit-refused_example =
    execute_exit-refused fixed toy_digest held args world cancelling refusing λ order_id. refl
