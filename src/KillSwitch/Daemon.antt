-- ===== src/KillSwitch/Daemon.antt =====
-- `_check_triggers_and_engage` of pmacs/cortex/daemon.py, the step of the Cortex daemon that runs the
-- checks and engages the switch. The text of a result's reason is an argument.
use automatic_trading.Prelude.{
  Bool, true, false, ◌||◌, ◌≡◌, ap, ◌∙◌, String, List, [], ◌∷◌, Option, none, some, if◌then◌else◌,
  Bool-cases, inl, inr,
}
use automatic_trading.Text.{Text}
use automatic_trading.Float.{Num}
use automatic_trading.KillSwitch.{World, Clock, engage, is_engaged, ensured, row_engaged}
use automatic_trading.KillSwitch.Triggers.{
  TriggerResult, TriggerId, trigger_name_of, check_all_triggers, Inputs,
}
use automatic_trading.KillSwitch.Safety.{ensured-state, engage-is_engaged}

-- The first of the results that are triggered.
unfoldable pub first_triggered : List TriggerResult → Option TriggerId
first_triggered [] = none
first_triggered (r ∷ rs) =
    let rest = first_triggered rs in if r.triggered then some r.trigger_id else rest

unfoldable pub any_triggered : List TriggerResult → Bool
any_triggered [] = false
any_triggered (r ∷ rs) = r.triggered || any_triggered rs

-- Opening the database makes the row.
unfoldable pub opened_db : Text → World → World
unfolding ensured
opened_db now w = record w { row = some (ensured now w.row) }

module _ (N : Num) (digest : Text → Text) where
  unfoldable pub engage_first : (TriggerId → String) → Clock → Option TriggerId → World → World
  engage_first reason_of clock none w = w
  engage_first reason_of clock (some t) w =
      engage digest (trigger_name_of t)
        (record {
          reason = reason_of t;
          cycle_id = "";
          audited = true;
          is_test = false;
          clock = clock;
        })
        w

  -- _check_triggers_and_engage(config). The checks read the audit log that the switch writes.
  unfoldable pub check_triggers_and_engage : (TriggerId → String) → Clock → Inputs N → World → World
  unfolding opened_db engage_first first_triggered is_engaged
  check_triggers_and_engage reason_of clock i w =
      let w' = opened_db clock.now w in
      if is_engaged w
      then w'
      else engage_first reason_of clock
          (first_triggered (check_all_triggers N digest (record i { audit = some w.disk }))) w'

  engage_first-is_engaged :
      (reason_of : TriggerId → String) (clock : Clock) (rs : List TriggerResult) (w : World)
      → is_engaged w ≡ false
      → is_engaged (engage_first reason_of clock (first_triggered rs) w) ≡ any_triggered rs
  unfolding engage_first first_triggered any_triggered
  engage_first-is_engaged reason_of clock [] w h = h
  engage_first-is_engaged reason_of clock (r ∷ rs) w h = elim (Bool-cases r.triggered) [
    | inl e ↦ rw e (engage-is_engaged digest (trigger_name_of r.trigger_id) _ w)
    | inr e ↦ rw e (engage_first-is_engaged reason_of clock rs w h)
  ]

  opened_db-is_engaged : (now : Text) (w : World) → is_engaged (opened_db now w) ≡ is_engaged w
  unfolding is_engaged opened_db
  opened_db-is_engaged now w = ap row_engaged (ensured-state now [] w.row)

  -- After the daemon's step the switch is engaged exactly if it was before, or one of the checks, over
  -- the audit log as it is, is triggered.
  pub check_triggers_and_engage-is_engaged :
      (reason_of : TriggerId → String) (clock : Clock) (i : Inputs N) (w : World)
      → is_engaged (check_triggers_and_engage reason_of clock i w) ≡ (
          is_engaged w
          || any_triggered (check_all_triggers N digest (record i { audit = some w.disk })))
  unfolding check_triggers_and_engage
  check_triggers_and_engage-is_engaged reason_of clock i w = elim (Bool-cases (is_engaged w)) [
    | inl e ↦ rw e (opened_db-is_engaged clock.now w ∙ e)
    | inr e ↦ rw e (
        engage_first-is_engaged reason_of clock
          (check_all_triggers N digest (record i { audit = some w.disk })) (opened_db clock.now w)
          (opened_db-is_engaged clock.now w ∙ e))
  ]
