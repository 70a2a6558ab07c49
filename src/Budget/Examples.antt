-- ===== src/Budget/Examples.antt =====
-- A day on which $0.90 are spent, with yesterday's rows in the table.
use automatic_trading.Prelude.{◌&&◌, ◌||◌, not, ◌≡◌, refl, String, [], some, none}
use automatic_trading.Text.{codes}
use automatic_trading.Audit.Toy.{toy_digest, no_log}
use automatic_trading.Float.Fixed.{fixed, fixed_laws, ℤ, pos}
use automatic_trading.KillSwitch.{Clock, is_engaged}
use automatic_trading.Budget.{
  Dates, Books, State, CapSettings, is_stale, total_or_zero, check_and_roll, enforce_budgets,
}
use automatic_trading.Budget.Rollover.{total_if, check_and_roll_lem}
use automatic_trading.Budget.Caps.{
  spent_today, spent_this_month, enforce_budgets_lem, enforce_budgets-shadowed,
}

abbrev clock : Clock
clock = record { now = codes "t1"; audit_now = codes "t2" }

abbrev dates : Dates
dates = record { today = "2026-06-30"; month_start = "2026-06-01" }

abbrev books : Books fixed
books = record {
  today =
      some (record { period_start = "2026-06-29"; total_cost_usd = pos 9000; cap_usd = pos 20000 });
  this_month =
      some
        (record { period_start = "2026-06-01"; total_cost_usd = pos 90000; cap_usd = pos 300000 });
  history = [];
}

abbrev state : State fixed
state = record {
  books = books;
  world = record { row = none; proposals = none; disk = no_log; published = []; notes = [] };
}

abbrev reason_of : ℤ → ℤ → String
reason_of total cap = "over"

abbrev defaults : CapSettings fixed
defaults = record { daily = none; monthly = none; cycle = none }

check_and_roll_lem_example :
    total_or_zero fixed (check_and_roll fixed dates books).today
    ≡ total_if fixed (is_stale fixed dates.today books.today) (total_or_zero fixed books.today)
check_and_roll_lem_example = (check_and_roll_lem fixed dates books).2

enforce_budgets_lem_example :
    (enforce_budgets fixed toy_digest reason_of clock dates
      (pos 20000, pos 300000, pos 10000)
      defaults
      (pos 9000)
      state).0.allowed
    ≡ (fixed.le (spent_today fixed dates state (pos 9000)) (pos 10000)
        && (fixed.le (spent_today fixed dates state (pos 9000)) (pos 20000)
            && fixed.le (spent_this_month fixed dates state (pos 9000)) (pos 300000)))
enforce_budgets_lem_example =
    (enforce_budgets_lem fixed toy_digest reason_of clock dates (pos 20000) (pos 300000) (pos 10000)
      defaults (pos 9000) state).0

enforce_budgets-shadowed_example :
    is_engaged
      (enforce_budgets fixed toy_digest reason_of clock dates
        (pos 20000, pos 300000, pos 10000)
        defaults
        (pos 9000)
        state).1.world
    ≡ (is_engaged state.world
        || (fixed.le (spent_today fixed dates state (pos 9000)) (pos 10000)
            && not (fixed.le (spent_this_month fixed dates state (pos 9000)) (pos 300000))))
enforce_budgets-shadowed_example =
    enforce_budgets-shadowed fixed toy_digest reason_of fixed_laws clock dates (pos 20000)
      (pos 300000) (pos 10000) defaults (pos 9000) state refl
