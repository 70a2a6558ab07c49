-- ===== src/DeadLetter.antt =====
-- pmacs/storage/dead_letter.py: the queue of failed writes, on the table `dead_letter` of
-- pmacs/storage/sqlite.py. Times are numbers of microseconds; the texts of one format sort as they do.
-- `exhausted` has the events that DEAD_LETTER_EXHAUSTED reports, the newest first.
pub mod Open
pub mod Next
pub mod Attempts
mod Examples
use automatic_trading.Prelude.{
  ℕ, suc, ◌+◌, ◌-◌, ◌*◌, ◌==◌, leb, ltb, Bool, true, false, not, String, List, [], ◌∷◌, ◌++◌,
  length, get_elem?, Option, none, some, if◌then◌else◌,
}
use automatic_trading.Text.{Text}
use automatic_trading.Canonical.{Payload, canonical_json}

pub data Status : Type 0 where
  pending retrying resolved failed : Status

-- MAX_ATTEMPTS
abbrev pub max_attempts : ℕ
max_attempts = 6

-- DEFAULT_BACKOFF_SCHEDULE, in microseconds.
abbrev pub default_backoff_schedule : List ℕ
default_backoff_schedule = 1000000 ∷ 5000000 ∷ 30000000 ∷ 300000000 ∷ 3600000000 ∷ 86400000000 ∷ []

pub record DeadLetterEntry : Type 0 where
  pub id : ℕ
  pub op_type : String
  pub target_db : String
  pub payload : Text
  pub queued_at : ℕ
  pub retry_count : ℕ
  pub last_attempt_at : Option ℕ
  pub last_error : Option String
  pub status : Status

-- The rows in the order of their keys, and AUTOINCREMENT's last key.
pub record DeadLetterStore : Type 0 where
  pub rows : List DeadLetterEntry
  pub last_id : ℕ
  pub backoff : List ℕ
  pub exhausted : List (ℕ × String)

-- DeadLetterStore(conn, backoff_schedule): an empty schedule counts as none.
unfoldable pub schedule : Option (List ℕ) → List ℕ
schedule none = default_backoff_schedule
schedule (some []) = default_backoff_schedule
schedule (some (d ∷ ds)) = d ∷ ds

unfoldable pub new_entry : ℕ → ℕ → String → String → Text → DeadLetterEntry
new_entry id now op_type target_db payload = record {
  id = id;
  op_type = op_type;
  target_db = target_db;
  payload = payload;
  queued_at = now;
  retry_count = 0;
  last_attempt_at = none;
  last_error = none;
  status = pending;
}

unfoldable pub enqueued :
    ℕ → String → String → Option Text → DeadLetterStore → Option (DeadLetterEntry × DeadLetterStore)
unfolding new_entry
enqueued now op_type target_db none s = none
enqueued now op_type target_db (some payload) s =
    let entry = new_entry (suc s.last_id) now op_type target_db payload in
    some (entry, record s { rows = s.rows ++ entry ∷ []; last_id = suc s.last_id })

-- enqueue(op_type, target_db, payload) at that time, none where `canonical_json` raises.
unfoldable pub enqueue :
    ℕ → String → String → Payload → DeadLetterStore → Option (DeadLetterEntry × DeadLetterStore)
unfolding enqueued
enqueue now op_type target_db payload s = enqueued now op_type target_db (canonical_json payload) s

-- status IN ('PENDING', 'RETRYING')
unfoldable pub is_open : Status → Bool
is_open pending = true
is_open retrying = true
is_open _ = false

unfoldable pub insert_by_queued_at : DeadLetterEntry → List DeadLetterEntry → List DeadLetterEntry
insert_by_queued_at e [] = e ∷ []
insert_by_queued_at e (f ∷ fs) =
    let rest = insert_by_queued_at e fs in
    if leb e.queued_at f.queued_at then e ∷ f ∷ fs else f ∷ rest

-- The query of `process_next`. Rows of equal times stay in the order of their keys, which SQL leaves
-- open.
unfoldable pub open_rows : List DeadLetterEntry → List DeadLetterEntry
unfolding is_open insert_by_queued_at
open_rows [] = []
open_rows (e ∷ es) =
    let rest = open_rows es in if is_open e.status then insert_by_queued_at e rest else rest

-- The delay after that many attempts. The schedule is not empty.
unfoldable pub delay_of : List ℕ → ℕ → ℕ
delay_of backoff retry_count =
    let last = length backoff - 1 in
    elim (get_elem? backoff (if ltb retry_count last then retry_count else last)) [
      | none ↦ 0
      | some delay ↦ delay
    ]

-- Whether the delay since the last attempt is over: now - last >= delay.
unfoldable pub is_due : ℕ → ℕ → Option ℕ → Bool
is_due now delay none = true
is_due now delay (some last) = leb (last + delay) now

-- The test of the loop in `process_next`.
unfoldable pub is_ready : ℕ → List ℕ → DeadLetterEntry → Bool
unfolding delay_of is_due
is_ready now backoff e =
    if leb max_attempts e.retry_count
    then false
    else is_due now (delay_of backoff e.retry_count) e.last_attempt_at

unfoldable pub first_ready : ℕ → List ℕ → List DeadLetterEntry → Option DeadLetterEntry
unfolding is_ready
first_ready now backoff [] = none
first_ready now backoff (e ∷ es) =
    let rest = first_ready now backoff es in if is_ready now backoff e then some e else rest

-- process_next() at that time.
unfoldable pub process_next : ℕ → DeadLetterStore → Option DeadLetterEntry
unfolding first_ready open_rows
process_next now s = first_ready now s.backoff (open_rows s.rows)

-- The row of the key, none if there is none.
unfoldable pub row_of : ℕ → List DeadLetterEntry → Option DeadLetterEntry
row_of id [] = none
row_of id (e ∷ es) = let rest = row_of id es in if e.id == id then some e else rest

-- UPDATE … WHERE id = ?
unfoldable pub update_row :
    (DeadLetterEntry → DeadLetterEntry) → ℕ → List DeadLetterEntry → List DeadLetterEntry
update_row f id [] = []
update_row f id (e ∷ es) =
    let rest = update_row f id es in if e.id == id then f e ∷ rest else e ∷ rest

-- The update after a failed attempt.
unfoldable pub attempted : ℕ → String → ℕ → DeadLetterEntry → DeadLetterEntry
attempted now error new_count e = record e {
  retry_count = new_count;
  last_attempt_at = some now;
  last_error = some error;
  status = if leb max_attempts new_count then failed else retrying;
}

unfoldable pub failed_at :
    ℕ → String → ℕ → Option DeadLetterEntry → DeadLetterStore → DeadLetterStore
unfolding update_row attempted
failed_at now error id none s = s
failed_at now error id (some e) s =
    let new_count = e.retry_count + 1 in
    record s {
      rows = update_row (attempted now error new_count) id s.rows;
      exhausted = if leb max_attempts new_count then (id, error) ∷ s.exhausted else s.exhausted;
    }

-- mark_failed(entry_id, error) at that time.
unfoldable pub mark_failed : ℕ → ℕ → String → DeadLetterStore → DeadLetterStore
unfolding failed_at row_of
mark_failed now id error s = failed_at now error id (row_of id s.rows) s

unfoldable pub resolve : DeadLetterEntry → DeadLetterEntry
resolve e = record e { status = resolved }

-- mark_resolved(entry_id)
unfoldable pub mark_resolved : ℕ → DeadLetterStore → DeadLetterStore
unfolding update_row resolve
mark_resolved id s = record s { rows = update_row resolve id s.rows }

unfoldable pub is_failed : Status → Bool
is_failed failed = true
is_failed _ = false

unfoldable pub count_rows : (Status → Bool) → List DeadLetterEntry → ℕ
count_rows p [] = 0
count_rows p (e ∷ es) = let rest = count_rows p es in if p e.status then suc rest else rest

-- pending_count, failed_count and total_count
unfoldable pub pending_count : DeadLetterStore → ℕ
unfolding count_rows is_open
pending_count s = count_rows is_open s.rows

unfoldable pub failed_count : DeadLetterStore → ℕ
unfolding count_rows is_failed
failed_count s = count_rows is_failed s.rows

unfoldable pub total_count : DeadLetterStore → ℕ
total_count s = length s.rows
