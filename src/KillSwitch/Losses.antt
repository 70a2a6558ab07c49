-- ===== src/KillSwitch/Losses.antt =====
-- What the checks of `check_all_triggers` trigger on.
use automatic_trading.Prelude.{
  ℕ, leb, Bool, false, ◌&&◌, Option, true, ◌≡◌, ◌≢◌, refl, List, [], ◌∷◌, none, some, if◌then◌else◌,
}
use automatic_trading.Text.{Text}
use automatic_trading.Canonical.{canonical_json}
use automatic_trading.Audit.{Disk, Request, genesis, open_writer, log_event, with_cycle}
use automatic_trading.Audit.Verified.{IsHexdigest, IsProper, IsSound}
use automatic_trading.Audit.Rotation.{IsLarge, log_event-breaks_chain}
use automatic_trading.Float.{Num}
use automatic_trading.Cash.{Snapshot}
use automatic_trading.KillSwitch.Triggers.{
  TriggerResult, TriggerId, trigger_ids, check_all_triggers, Inputs, check_audit,
}

abbrev pub triggered_ids : List TriggerResult → List TriggerId
triggered_ids [] = []
triggered_ids (r ∷ rs) =
    let rest = triggered_ids rs in if r.triggered then r.trigger_id ∷ rest else rest

abbrev pub ids_of : List TriggerResult → List TriggerId
ids_of [] = []
ids_of (r ∷ rs) = r.trigger_id ∷ ids_of rs

-- Each check's source raises.
abbrev pub all_failing : (N : Num) → ℕ → Inputs N
all_failing N now = record {
  now = now;
  audit = none;
  paper_account = none;
  disk_low = none;
  clock_drifts = none;
  heartbeat_stale = none;
  restarts = none;
  model_verified = some none;
  daily = none;
  monthly = none;
}

module _ (N : Num) (digest : Text → Text) where
  -- Whatever the checks read, the result lists the registered triggers, all of them and in their order.
  -- Without an audit path, if everything else that they read fails, none of them is triggered.
  pub check_all_triggers-trigger_ids :
      (i : Inputs N) (now : ℕ)
      → (ids_of (check_all_triggers N digest i) ≡ trigger_ids)
        × (triggered_ids (check_all_triggers N digest (all_failing N now)) ≡ [])
  unfolding check_all_triggers
  check_all_triggers-trigger_ids i now = (refl, refl)

  -- When a sound log has reached the size limit and its last hash is not the genesis hash, logging a
  -- proper request whose payload has canonical JSON leaves a log that sets off the trigger
  -- AUDIT_CHAIN_INTEGRITY.
  pub check_audit-log_event :
      (law : IsHexdigest digest) (r : Request) (canon : Text) (d : Disk)
      → IsProper r
      → IsSound digest d
      → canonical_json (with_cycle r.cycle_id r.payload) ≡ some canon
      → IsLarge d
      → (open_writer d).prev_sha ≢ genesis
      → check_audit N digest (some (log_event digest r d)) ≡ true
  unfolding check_audit
  check_audit-log_event law r canon d p s e large new =
      rw (log_event-breaks_chain digest law r canon d p s e large new) refl

module _ (N : Num) where
  abbrev pub Two : Type 0
  Two = Option (Snapshot N) × Option (Snapshot N)

  -- The newer of a row and one that may be there, the row where both are of one time.
  abbrev pub newer : Snapshot N → Option (Snapshot N) → Option (Snapshot N)
  newer s none = some s
  newer s (some t) = if leb t.snapshot_at s.snapshot_at then some s else some t

  abbrev pub overtaken : Snapshot N → Two → Two
  overtaken s (none, second) = (some s, none)
  overtaken s (some first, second) =
      if leb first.snapshot_at s.snapshot_at
      then (some s, some first)
      else (some first, newer s second)

  -- The newest row and the second newest, found in one pass from the back.
  abbrev pub newest_two : List (Snapshot N) → Two
  newest_two [] = (none, none)
  newest_two (s ∷ rows) = overtaken s (newest_two rows)

  -- The second newest total was positive, and more than 5% of it is gone.
  abbrev pub is_loss : Two → Bool
  is_loss (some latest, some previous) =
      let before = previous.total_value_usd in
      N.lt (N.lit 0 0) before
      && N.lt (N.lit 5 2) (N.div (N.sub before latest.total_value_usd) before)
  is_loss _ = false

  abbrev first_two : List (Snapshot N) → Two
  first_two [] = (none, none)
  first_two (s ∷ []) = (some s, none)
  first_two (s ∷ t ∷ rows) = (some s, some t)

module _ (N : Num) (clock : ℕ → ℕ) where
  -- The row as if it had been written at another time.
  abbrev pub retimed : Snapshot N → Snapshot N
  retimed s = record s { snapshot_at = clock s.snapshot_at }
