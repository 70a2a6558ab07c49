-- ===== src/KillSwitch.antt =====
-- pmacs/cortex/kill_switch.py: the switch itself. Its row in the database, the audit log, the events
-- that are published and the entries of the debug log are the world that `engage` and `disengage`
-- change. `KillSwitch.Triggers` has the checks that say when to engage it. The database and the
-- publisher are assumed not to fail, but for a missing table of proposals.
pub mod Triggers
pub mod Safety
pub mod Trail
pub mod Losses
pub mod Daemon
mod Examples
use automatic_trading.Prelude.{
  ℕ, Bool, true, false, ◌&&◌, not, String, str_eq, List, [], ◌∷◌, take, Option, none, some, leb,
  if◌then◌else◌,
}
use automatic_trading.Text.{Text, codes}
use automatic_trading.Canonical.{boolean, text}
use automatic_trading.Audit.{Disk, Request, log_event}
use Triggers.{TriggerResult, trigger_name_of}

pub data SwitchState : Type 0 where
  armed engaged : SwitchState

-- The singleton row of the table `kill_switch`.
pub record Row : Type 0 where
  pub state : SwitchState
  pub reason : Option String
  pub trigger_name : Option String
  pub engaged_at : Option Text
  pub disengaged_at : Option Text
  pub updated_at : Text

-- A row of `mutation_proposals`.
pub record Proposal : Type 0 where
  pub id : String
  pub status : String
  pub proposed_at : ℕ

-- The payload of a system event for the dashboard.
pub data Event : Type 0 where
  switch_engaged : (trigger reason : String) → (at : Text) → (is_test : Bool) → Event
  switch_disengaged : (reason : String) → (at : Text) → (is_test : Bool) → Event

-- The entries of the debug log that tell the branches apart.
pub data Note : Type 0 where
  already_engaged : (trigger reason : String) → Note
  was_engaged : (trigger reason : String) → Note
  mutation_review : (flagged : List String) → Note
  review_failed : Note
  condition_unresolved : (trigger : String) → Note
  recheck_failed : Note
  was_disengaged : (reason : String) → Note

-- `row` is none where the table is not made yet, and `proposals` where theirs is missing. The newest
-- event and note come first.
pub record World : Type 0 where
  pub row : Option Row
  pub proposals : Option (List Proposal)
  pub disk : Disk
  pub published : List Event
  pub notes : List Note

-- The time that a call reads, and the time that the audit writer reads.
pub record Clock : Type 0 where
  pub now : Text
  pub audit_now : Text

-- `_ensure_table`: the row that is there, or a new one.
unfoldable pub ensured : Text → Option Row → Row
ensured now none = record {
  state = armed;
  reason = none;
  trigger_name = none;
  engaged_at = none;
  disengaged_at = none;
  updated_at = now;
}
ensured now (some row) = row

unfoldable pub row_engaged : SwitchState → Bool
row_engaged armed = false
row_engaged engaged = true

-- Newest first. The order of equal times is open in SQL.
insert_recent : Proposal → List Proposal → List Proposal
insert_recent p [] = p ∷ []
insert_recent p (q ∷ qs) =
    let rest = insert_recent p qs in
    if leb q.proposed_at p.proposed_at then p ∷ q ∷ qs else q ∷ rest

-- SELECT id … WHERE status = 'OPERATOR_PROMOTED' ORDER BY proposed_at DESC
promoted : List Proposal → List Proposal
unfolding insert_recent
promoted [] = []
promoted (p ∷ ps) =
    let rest = promoted ps in
    if str_eq p.status "OPERATOR_PROMOTED" then insert_recent p rest else rest

ids : List Proposal → List String
ids [] = []
ids (p ∷ ps) = p.id ∷ ids ps

-- flag_for_kill_switch_review(proposals, max_flag)
unfoldable pub flag_for_kill_switch_review : List String → ℕ → List String
flag_for_kill_switch_review recent_promotions max_flag = take max_flag recent_promotions

review_note : List String → List Note → List Note
review_note [] notes = notes
review_note (p ∷ ps) notes = mutation_review (p ∷ ps) ∷ notes

-- The block that flags the three last promoted mutations. What it raises is caught.
review : Option (List Proposal) → List Note → List Note
unfolding promoted ids flag_for_kill_switch_review review_note
review none notes = review_failed ∷ notes
review (some proposals) notes =
    review_note (flag_for_kill_switch_review (take 3 (ids (promoted proposals))) 3) notes

engage_request : Text → Text → String → String → String → Bool → Request
engage_request audit_now now trigger reason cycle_id is_test = record {
  iso_ts = audit_now;
  event_type = codes "KILL_SWITCH_ENGAGED";
  payload =
      (codes "trigger", text (codes trigger))
      ∷ (codes "reason", text (codes reason))
      ∷ (codes "engaged_at", text now)
      ∷ (codes "is_test", boolean is_test)
      ∷ [];
  cycle_id = codes cycle_id;
}

disengage_request : Text → Text → String → String → Bool → Request
disengage_request audit_now now reason cycle_id is_test = record {
  iso_ts = audit_now;
  event_type = codes "KILL_SWITCH_DISENGAGED";
  payload =
      (codes "reason", text (codes reason))
      ∷ (codes "disengaged_at", text now)
      ∷ (codes "is_test", boolean is_test)
      ∷ [];
  cycle_id = codes cycle_id;
}

-- The arguments that `engage` and `disengage` share. `audited` says that an audit path is given.
pub record Args : Type 0 where
  pub reason : String
  pub cycle_id : String
  pub audited : Bool
  pub is_test : Bool
  pub clock : Clock

module _ (digest : Text → Text) where
  -- engage(reason, trigger, …). A failing audit write would be noted and change nothing else;
  -- `log_event` leaves the log alone then.
  unfoldable pub engage : String → Args → World → World
  unfolding ensured row_engaged review engage_request
  engage trigger a w =
      let now = a.clock.now in
      let row = ensured now w.row in
      if row_engaged row.state
      then record w { row = some row; notes = already_engaged trigger a.reason ∷ w.notes }
      else record w {
        row = some (record row {
          state = engaged;
          reason = some a.reason;
          trigger_name = some trigger;
          engaged_at = some now;
          updated_at = now;
        });
        published = switch_engaged trigger a.reason now a.is_test ∷ w.published;
        disk =
            if a.audited
            then log_event digest
                (engage_request a.clock.audit_now now trigger a.reason a.cycle_id a.is_test) w.disk
            else w.disk;
        notes = review w.proposals (was_engaged trigger a.reason ∷ w.notes);
      }

  -- Whether a trigger of that name is still triggered.
  pub still_triggered : String → List TriggerResult → Bool
  still_triggered name [] = false
  still_triggered name (r ∷ rs) =
      let rest = still_triggered name rs in
      if r.triggered && str_eq (trigger_name_of r.trigger_id) name then true else rest

  -- The second look at the condition. `recheck` is what `check_all_triggers(db_path)` returns, none if
  -- it raises. An empty name counts as no name.
  recheck_notes : Option String → Option (List TriggerResult) → List Note → List Note
  unfolding still_triggered
  recheck_notes none recheck notes = notes
  recheck_notes (some name) recheck notes = if str_eq name "" then notes else elim recheck [
    | none ↦ recheck_failed ∷ notes
    | some results ↦
        if still_triggered name results then condition_unresolved name ∷ notes else notes
  ]

  -- disengage(reason, …): whether it returned True, for the ValueError otherwise, and the world.
  unfoldable pub disengage : Option (List TriggerResult) → Args → World → Bool × World
  unfolding ensured row_engaged recheck_notes disengage_request
  disengage recheck a w =
      let now = a.clock.now in
      let row = ensured now w.row in
      if row_engaged row.state
      then (
        true,
        record w {
          row = some (record row {
            state = armed;
            reason = some a.reason;
            trigger_name = none;
            disengaged_at = some now;
            updated_at = now;
          });
          published = switch_disengaged a.reason now a.is_test ∷ w.published;
          disk =
              if a.audited
              then log_event digest
                  (disengage_request a.clock.audit_now now a.reason a.cycle_id a.is_test) w.disk
              else w.disk;
          notes = was_disengaged a.reason ∷ recheck_notes row.trigger_name recheck w.notes;
        },
      )
      else (false, record w { row = some row })

-- is_engaged(): opening the database makes the row.
unfoldable pub is_engaged : World → Bool
unfolding ensured row_engaged
is_engaged w = row_engaged (ensured [] w.row).state

-- get_state()
unfoldable pub get_state : World → SwitchState
unfolding ensured
get_state w = (ensured [] w.row).state

-- get_engagement_info(): reason, trigger, time and last update while engaged.
unfoldable pub get_engagement_info :
    World → Option (Option String × Option String × Option Text × Text)
unfolding ensured row_engaged
get_engagement_info w =
    let row = ensured [] w.row in
    if row_engaged row.state
    then some (row.reason, row.trigger_name, row.engaged_at, row.updated_at)
    else none
