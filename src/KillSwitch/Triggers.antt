-- ===== src/KillSwitch/Triggers.antt =====
-- check_all_triggers and the checks that it calls. What a check reads is an argument, `none` where
-- reading it raises. The texts of the reasons are left out.
use automatic_trading.Prelude.{
  ℕ, ◌-◌, ◌*◌, ◌/◌, Bool, true, false, not, String, str_eq, List, [], ◌∷◌, Option, none, some, leb,
  ltb, if◌then◌else◌,
}
use automatic_trading.Text.{Text}
use automatic_trading.Audit.{Disk, Verdict, valid, verify_full}
use automatic_trading.Float.{Num, zero_of}
use automatic_trading.Cash.{Snapshot}
use automatic_trading.CrashLoop.{Tables, check_any_crash_loop}

pub data TriggerId : Type 0 where
  audit_chain_integrity rolling_5d_loss single_day_mtm_loss reconciliation_mismatch : TriggerId
  broker_auth_failure disk_space_low ntp_drift meta_monitor_unresponsive crash_loop : TriggerId
  model_integrity cycle_blocked_budget_daily cycle_blocked_budget_monthly manual : TriggerId
  catastrophe_cancel_failed : TriggerId

unfoldable pub trigger_name_of : TriggerId → String
trigger_name_of audit_chain_integrity = "AUDIT_CHAIN_INTEGRITY"
trigger_name_of rolling_5d_loss = "ROLLING_5D_LOSS"
trigger_name_of single_day_mtm_loss = "SINGLE_DAY_MTM_LOSS"
trigger_name_of reconciliation_mismatch = "RECONCILIATION_MISMATCH"
trigger_name_of broker_auth_failure = "BROKER_AUTH_FAILURE"
trigger_name_of disk_space_low = "DISK_SPACE_LOW"
trigger_name_of ntp_drift = "NTP_DRIFT"
trigger_name_of meta_monitor_unresponsive = "META_MONITOR_UNRESPONSIVE"
trigger_name_of crash_loop = "CRASH_LOOP"
trigger_name_of model_integrity = "MODEL_INTEGRITY"
trigger_name_of cycle_blocked_budget_daily = "CYCLE_BLOCKED_BUDGET_DAILY"
trigger_name_of cycle_blocked_budget_monthly = "CYCLE_BLOCKED_BUDGET_MONTHLY"
trigger_name_of manual = "MANUAL"
trigger_name_of catastrophe_cancel_failed = "CATASTROPHE_CANCEL_FAILED"

-- TRIGGER_IDS
abbrev pub trigger_ids : List TriggerId
trigger_ids =
    audit_chain_integrity ∷ rolling_5d_loss ∷ single_day_mtm_loss ∷ reconciliation_mismatch
    ∷ broker_auth_failure ∷ disk_space_low ∷ ntp_drift ∷ meta_monitor_unresponsive ∷ crash_loop
    ∷ model_integrity ∷ cycle_blocked_budget_daily ∷ cycle_blocked_budget_monthly ∷ manual
    ∷ catastrophe_cancel_failed ∷ []

pub record TriggerResult : Type 0 where
  pub trigger_id : TriggerId
  pub triggered : Bool

abbrev result : TriggerId → Bool → TriggerResult
result t b = record { trigger_id = t; triggered = b }

-- Microseconds of a day.
abbrev pub day_us : ℕ
day_us = 86400000000

-- Raised exceptions are caught: nothing is triggered.
abbrev pub or_quiet : Option Bool → Bool
or_quiet none = false
or_quiet (some b) = b

abbrev is_valid : Verdict → Bool
is_valid valid = true
is_valid _ = false

module _ (N : Num) where
  -- ORDER BY snapshot_at DESC; the order of equal times is open in SQL, here the newer row is first.
  unfoldable pub insert_by_time : Snapshot N → List (Snapshot N) → List (Snapshot N)
  insert_by_time s [] = s ∷ []
  insert_by_time s (t ∷ rows) =
      let rest = insert_by_time s rows in
      if leb t.snapshot_at s.snapshot_at then s ∷ t ∷ rows else t ∷ rest

  unfoldable pub by_time : List (Snapshot N) → List (Snapshot N)
  unfolding insert_by_time
  by_time [] = []
  by_time (s ∷ rows) = insert_by_time s (by_time rows)

  -- The first row in that order with `snapshot_at <= datetime('now', '-5 days')`. The texts compare as
  -- the days do: within one day the row's 'T' is above the blank of `datetime`.
  pub five_day_row : ℕ → List (Snapshot N) → Option (Snapshot N)
  five_day_row now [] = none
  five_day_row now (s ∷ rows) =
      let rest = five_day_row now rows in
      if ltb (s.snapshot_at / day_us) ((now - 5 * day_us) / day_us) then some s else rest

  -- Whether the value fell from `prior` by more than the given share of it.
  unfoldable pub fell_by_more : N.F → N.F → N.F → Bool
  fell_by_more share prior current = N.lt share (N.div (N.sub prior current) prior)

  -- prior_value is compared only if it is positive.
  rolling_loss : N.F → Option (Snapshot N) → Bool
  unfolding fell_by_more
  rolling_loss current none = false
  rolling_loss current (some prior) =
      if N.le prior.total_value_usd (zero_of N)
      then false
      else fell_by_more (N.lit 1 1) prior.total_value_usd current

  -- _check_rolling_loss, over the rows in time order.
  pub check_rolling_loss : ℕ → List (Snapshot N) → Bool
  unfolding rolling_loss five_day_row
  check_rolling_loss now [] = false
  check_rolling_loss now (s ∷ rows) = rolling_loss s.total_value_usd (five_day_row now (s ∷ rows))

  -- _check_daily_mtm_loss, over the rows in time order.
  unfoldable pub check_daily_mtm_loss : List (Snapshot N) → Bool
  unfolding fell_by_more
  check_daily_mtm_loss (latest ∷ previous ∷ rows) =
      if N.lt (zero_of N) previous.total_value_usd
      then fell_by_more (N.lit 5 2) previous.total_value_usd latest.total_value_usd
      else false
  check_daily_mtm_loss rows = false

  -- A cap that the operator set, if it is positive, and the money spent in the period.
  pub record Budget : Type 0 where
    pub configured_cap : N.F
    pub current : N.F

  -- _check_budget_daily and _check_budget_monthly, by their default caps.
  pub check_budget : N.F → Budget → Bool
  check_budget default_cap b =
      N.le (if N.lt (zero_of N) b.configured_cap then b.configured_cap else default_cap) b.current

  -- What the checks read.
  pub record Inputs : Type 0 where
    pub now : ℕ
    -- The directory of the audit log, if an audit path is given.
    pub audit : Option Disk
    pub paper_account : Option (List (Snapshot N))
    -- check_disk_space()
    pub disk_low : Option Bool
    -- check_ntp_drift()
    pub clock_drifts : Option Bool
    -- Whether the heartbeat of cortex-self-check is stale, if a heartbeat directory is given.
    pub heartbeat_stale : Option Bool
    pub restarts : Option Tables
    -- verify_gguf_hash(), if a model and its hash are configured.
    pub model_verified : Option (Option Bool)
    pub daily : Option Budget
    pub monthly : Option Budget

  -- A check of the table `paper_account`.
  abbrev over_rows : (List (Snapshot N) → Bool) → Option (List (Snapshot N)) → Bool
  over_rows check none = false
  over_rows check (some rows) = check (by_time rows)

  unfoldable pub check_audit : (Text → Text) → Option Disk → Bool
  check_audit digest none = false
  check_audit digest (some disk) = not (is_valid (verify_full digest disk))

  -- `if crashed_proc`: an empty name counts as none.
  pub check_crash_loops : ℕ → Option Tables → Bool
  check_crash_loops now none = false
  check_crash_loops now (some t) = elim (check_any_crash_loop 5 (60 * 1000000) now t) [
    | none ↦ false
    | some proc ↦ not (str_eq proc "")
  ]

  pub check_model : Option (Option Bool) → Bool
  check_model none = false
  check_model (some none) = false
  check_model (some (some verified)) = not verified

  pub check_spending : N.F → Option Budget → Bool
  unfolding check_budget
  check_spending default_cap none = false
  check_spending default_cap (some b) = check_budget default_cap b

  -- check_all_triggers(…)
  unfoldable pub check_all_triggers : (Text → Text) → Inputs → List TriggerResult
  unfolding check_audit check_rolling_loss check_daily_mtm_loss check_crash_loops check_model
      check_spending
  check_all_triggers digest i =
      result audit_chain_integrity (check_audit digest i.audit)
      ∷ result rolling_5d_loss (over_rows (check_rolling_loss i.now) i.paper_account)
      ∷ result single_day_mtm_loss (over_rows check_daily_mtm_loss i.paper_account)
      ∷ result reconciliation_mismatch false
      ∷ result broker_auth_failure false
      ∷ result disk_space_low (or_quiet i.disk_low)
      ∷ result ntp_drift (or_quiet i.clock_drifts)
      ∷ result meta_monitor_unresponsive (or_quiet i.heartbeat_stale)
      ∷ result crash_loop (check_crash_loops i.now i.restarts)
      ∷ result model_integrity (check_model i.model_verified)
      ∷ result cycle_blocked_budget_daily (check_spending (N.lit 200 2) i.daily)
      ∷ result cycle_blocked_budget_monthly (check_spending (N.lit 3000 2) i.monthly)
      ∷ result manual false
      ∷ result catastrophe_cancel_failed false
      ∷ []
