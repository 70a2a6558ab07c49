-- ===== src/Budget.antt =====
-- pmacs/billing/budget_enforcer.py and pmacs/billing/period_roller.py: the caps on spending, on the
-- tables `budget_state` and `budget_history` of pmacs/storage/sqlite.py, over the interface Float. What
-- config/risk.toml configures is an argument, the events that are published are left out, and so is a
-- failing database.
pub mod Caps
pub mod Rollover
mod Examples
use automatic_trading.Prelude.{
  Bool, true, false, ◌&&◌, not, String, str_eq, List, [], ◌∷◌, Option, none, some, if◌then◌else◌,
}
use automatic_trading.Text.{Text}
use automatic_trading.Float.{Num, zero_of}
use automatic_trading.KillSwitch.{World, Clock, engage}

pub data CapType : Type 0 where
  no_cap cycle_soft daily_hard monthly_hard runaway_cap : CapType

pub data PeriodType : Type 0 where
  day month : PeriodType

unfoldable pub same_period_type : PeriodType → PeriodType → Bool
same_period_type day day = true
same_period_type month month = true
same_period_type _ _ = false

-- What a call reads from the clock, as dates in ISO format.
pub record Dates : Type 0 where
  pub today : String
  pub month_start : String

module _ (N : Num) where
  -- DEFAULT_CYCLE_SOFT_CAP, DEFAULT_DAILY_HARD_CAP, DEFAULT_MONTHLY_HARD_CAP, RUNAWAY_MULTIPLIER
  abbrev pub default_cycle_soft_cap : N.F
  default_cycle_soft_cap = N.lit 1 0

  abbrev pub default_daily_hard_cap : N.F
  default_daily_hard_cap = N.lit 2 0

  abbrev pub default_monthly_hard_cap : N.F
  default_monthly_hard_cap = N.lit 30 0

  abbrev pub runaway_multiplier : N.F
  runaway_multiplier = N.lit 15 1

  -- A row of `budget_state`.
  pub record Period : Type 0 where
    pub period_start : String
    pub total_cost_usd : N.F
    pub cap_usd : N.F

  -- A row of `budget_history`.
  pub record Archived : Type 0 where
    pub period_start : String
    pub period_end : String
    pub period_type : PeriodType
    pub total_cost_usd : N.F
    pub cap_usd : N.F
    pub breached : Bool

  -- The two rows of `budget_state`, none where one is missing, and the history.
  pub record Books : Type 0 where
    pub today : Option Period
    pub this_month : Option Period
    pub history : List Archived

  unfoldable pub delete_archived : Archived → List Archived → List Archived
  unfolding same_period_type
  delete_archived a [] = []
  delete_archived a (b ∷ bs) =
      let rest = delete_archived a bs in
      if same_period_type a.period_type b.period_type && str_eq a.period_start b.period_start
      then rest
      else b ∷ rest

  unfoldable pub archived : PeriodType → String → Period → Archived
  archived type end p = record {
    period_start = p.period_start;
    period_end = end;
    period_type = type;
    total_cost_usd = p.total_cost_usd;
    cap_usd = p.cap_usd;
    breached = N.lt p.cap_usd p.total_cost_usd;
  }

  -- INSERT OR REPLACE INTO budget_history
  unfoldable pub archive : Archived → List Archived → List Archived
  unfolding delete_archived
  archive a history = a ∷ delete_archived a history

  unfoldable pub reset : String → Period → Period
  reset start p = record p { period_start = start; total_cost_usd = zero_of N }

  unfoldable pub rolled_daily : Dates → Option Period → Books → Books
  unfolding archived archive reset
  rolled_daily d none b = b
  rolled_daily d (some p) b = record b {
    today = some (reset d.today p);
    history = archive (archived day d.today p) b.history;
  }

  -- roll_daily
  unfoldable pub roll_daily : Dates → Books → Books
  unfolding rolled_daily
  roll_daily d b = rolled_daily d b.today b

  unfoldable pub rolled_monthly : Dates → Option Period → Books → Books
  unfolding archived archive reset
  rolled_monthly d none b = b
  rolled_monthly d (some p) b = record b {
    this_month = some (reset d.month_start p);
    history = archive (archived month d.today p) b.history;
  }

  -- roll_monthly
  unfoldable pub roll_monthly : Dates → Books → Books
  unfolding rolled_monthly
  roll_monthly d b = rolled_monthly d b.this_month b

  -- The row is there and began at another date.
  unfoldable pub is_stale : String → Option Period → Bool
  is_stale start none = false
  is_stale start (some p) = not (str_eq p.period_start start)

  -- The two checks of check_and_roll.
  unfoldable pub roll_new_day : Dates → Books → Books
  unfolding is_stale roll_daily
  roll_new_day d b = if is_stale d.today b.today then roll_daily d b else b

  unfoldable pub roll_new_month : Dates → Books → Books
  unfolding is_stale roll_monthly
  roll_new_month d b = if is_stale d.month_start b.this_month then roll_monthly d b else b

  -- check_and_roll
  unfoldable pub check_and_roll : Dates → Books → Books
  unfolding roll_new_day roll_new_month
  check_and_roll d b = roll_new_month d (roll_new_day d b)

  unfoldable pub total_or_zero : Option Period → N.F
  total_or_zero none = zero_of N
  total_or_zero (some p) = p.total_cost_usd

  pub record BudgetCheckResult : Type 0 where
    pub allowed : Bool
    pub cap_type : CapType
    pub current_total : N.F
    pub estimated_new_total : N.F
    pub cap_usd : N.F

  -- A check of a total against a cap. The texts of its reasons are left out.
  unfoldable pub checked : CapType → N.F → N.F → N.F → BudgetCheckResult
  checked type current cost cap =
      let projected = N.add current cost in
      record {
        allowed = N.le projected cap;
        cap_type = type;
        current_total = current;
        estimated_new_total = projected;
        cap_usd = cap;
      }

  -- The tables and what the kill switch changes.
  pub record State : Type 0 where
    pub books : Books
    pub world : World

  -- _get_period_total(conn, "today") and its "this_month": the total after the rollover.
  unfoldable pub with_rolled : Dates → State → State
  unfolding check_and_roll
  with_rolled d s = record s { books = check_and_roll d s.books }

  -- check_per_cycle_soft_cap(conn, estimated_total, cap)
  unfoldable pub check_per_cycle_soft_cap : Dates → N.F → N.F → State → BudgetCheckResult × State
  unfolding with_rolled total_or_zero checked
  check_per_cycle_soft_cap d cost cap s =
      let s' = with_rolled d s in (checked cycle_soft (total_or_zero s'.books.today) cost cap, s')

  -- check_runaway(actual_cumulative, estimated_cumulative)
  unfoldable pub check_runaway : N.F → N.F → BudgetCheckResult
  check_runaway actual estimated =
      if N.le estimated (zero_of N)
      then record {
        allowed = true;
        cap_type = runaway_cap;
        current_total = zero_of N;
        estimated_new_total = zero_of N;
        cap_usd = zero_of N;
      }
      else if N.le (N.div actual estimated) runaway_multiplier
      then record {
        allowed = true;
        cap_type = runaway_cap;
        current_total = zero_of N;
        estimated_new_total = zero_of N;
        cap_usd = zero_of N;
      }
      else record {
        allowed = false;
        cap_type = runaway_cap;
        current_total = actual;
        estimated_new_total = estimated;
        cap_usd = zero_of N;
      }

  -- The caps of a call: what it is given, or else what is configured.
  pub record CapSettings : Type 0 where
    pub daily : Option N.F
    pub monthly : Option N.F
    pub cycle : Option N.F

  abbrev pub cap_or : Option N.F → N.F → N.F
  cap_or none configured = configured
  cap_or (some cap) configured = cap

  unfoldable pub all_allowed : BudgetCheckResult
  all_allowed = record {
    allowed = true;
    cap_type = no_cap;
    current_total = zero_of N;
    estimated_new_total = zero_of N;
    cap_usd = zero_of N;
  }

  -- The next check, where the one before allows the call.
  unfoldable pub and_check :
      BudgetCheckResult × State → (State → BudgetCheckResult × State) → BudgetCheckResult × State
  and_check (r, s) next = if r.allowed then next s else (r, s)

  module _ (digest : Text → Text) (reason_of : N.F → N.F → String) where
    -- _engage_budget_kill_switch(trigger, total, cap). `reason_of` prints the two amounts.
    unfoldable pub engage_budget_kill_switch : Clock → String → N.F → N.F → World → World
    engage_budget_kill_switch clock trigger total cap w =
        engage digest trigger
          (record {
            reason = reason_of total cap;
            cycle_id = "";
            audited = false;
            is_test = false;
            clock = clock;
          })
          w

    -- A breached hard cap engages the switch.
    unfoldable pub enforced : Clock → String → BudgetCheckResult → State → BudgetCheckResult × State
    unfolding engage_budget_kill_switch
    enforced clock trigger r s = if r.allowed then (r, s) else (
      r,
      record s {
        world = engage_budget_kill_switch clock trigger r.estimated_new_total r.cap_usd s.world;
      },
    )

    -- check_daily_hard_cap(conn, estimated_call_cost, cap)
    unfoldable pub check_daily_hard_cap :
        Clock → Dates → N.F → N.F → State → BudgetCheckResult × State
    unfolding with_rolled total_or_zero checked enforced
    check_daily_hard_cap clock d cost cap s =
        let s' = with_rolled d s in
        enforced clock "CYCLE_BLOCKED_BUDGET_DAILY"
          (checked daily_hard (total_or_zero s'.books.today) cost cap) s'

    -- check_monthly_hard_cap(conn, estimated_call_cost, cap)
    unfoldable pub check_monthly_hard_cap :
        Clock → Dates → N.F → N.F → State → BudgetCheckResult × State
    unfolding with_rolled total_or_zero checked enforced
    check_monthly_hard_cap clock d cost cap s =
        let s' = with_rolled d s in
        enforced clock "CYCLE_BLOCKED_BUDGET_MONTHLY"
          (checked monthly_hard (total_or_zero s'.books.this_month) cost cap) s'

    -- The last check of enforce_budgets, and the last two.
    unfoldable pub enforce_monthly : Clock → Dates → N.F → N.F → State → BudgetCheckResult × State
    unfolding check_monthly_hard_cap and_check all_allowed
    enforce_monthly clock d monthly cost s =
        and_check (check_monthly_hard_cap clock d cost monthly s) λ s'. (all_allowed, s')

    unfoldable pub enforce_hard :
        Clock → Dates → (daily monthly : N.F) → N.F → State → BudgetCheckResult × State
    unfolding check_daily_hard_cap enforce_monthly
    enforce_hard clock d daily monthly cost s =
        and_check (check_daily_hard_cap clock d cost daily s) (enforce_monthly clock d monthly cost)

    -- enforce_budgets(conn, estimated_call_cost, …). `configured` is what the file says of the daily, the
    -- monthly and the cycle's cap.
    unfoldable pub enforce_budgets :
        Clock
        → Dates
        → (configured : N.F × N.F × N.F) → CapSettings
        → N.F
        → State
        → BudgetCheckResult × State
    unfolding check_per_cycle_soft_cap enforce_hard
    enforce_budgets clock d (daily, monthly, cycle) caps cost s =
        and_check (check_per_cycle_soft_cap d cost (cap_or caps.cycle cycle) s)
          (enforce_hard clock d (cap_or caps.daily daily) (cap_or caps.monthly monthly) cost)
