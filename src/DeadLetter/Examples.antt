-- ===== src/DeadLetter/Examples.antt =====
-- A queue of three entries: one that failed twice, one that is new, and one that used up its attempts.
use automatic_trading.Prelude.{
  ℕ, ◌≤◌, ◌*◌, ◌≡◌, refl, List, [], ◌∷◌, length, Option, none, some, arith,
}
use automatic_trading.Text.{codes}
use automatic_trading.DeadLetter.{
  max_attempts, default_backoff_schedule, DeadLetterEntry, DeadLetterStore, Status, pending,
  retrying, failed, is_open, is_failed, process_next, open_rows, insert_by_queued_at, first_ready,
  is_ready, is_due, delay_of,
}
use automatic_trading.DeadLetter.Open.{IsValid, run, marks_failed, marks_resolved, run-IsValid}
use automatic_trading.DeadLetter.Next.{IsNext, process_next-IsNext}
use automatic_trading.DeadLetter.Attempts.{Round, attempts, attempts-bounded}

abbrev entry : ℕ → ℕ → Option ℕ → Status → DeadLetterEntry
entry id retry_count last status = record {
  id = id;
  op_type = "qdrant_upsert";
  target_db = "qdrant";
  payload = codes "{}";
  queued_at = id;
  retry_count = retry_count;
  last_attempt_at = last;
  last_error = none;
  status = status;
}

abbrev store : DeadLetterStore
store = record {
  rows = entry 1 2 (some 100) retrying ∷ entry 2 0 none pending ∷ entry 3 6 (some 200) failed ∷ [];
  last_id = 3;
  backoff = default_backoff_schedule;
  exhausted = [];
}

store-IsValid : IsValid store
unfolding is_open is_failed
store-IsValid = record {
  counted = (
    ((λ _. omega arith), λ e. ground (arith, e)),
    (
      ((λ _. omega arith), λ e. ground (arith, e)),
      (((λ e. ground (arith, e)), λ _. omega arith), tt),
    ),
  );
  distinct = ((refl, (refl, tt)), ((refl, tt), (tt, tt)));
  bounded = (omega arith, (omega arith, (omega arith, tt)));
}

-- The older entry waits for 30 seconds after its second failure.
picked_before : process_next 200 store ≡ some (entry 2 0 none pending)
unfolding process_next open_rows insert_by_queued_at first_ready is_ready is_due delay_of is_open
picked_before = refl

run-IsValid_example :
    IsValid
      (run (marks_failed 300 1 "timeout" ∷ marks_resolved 2 ∷ marks_failed 400 3 "late" ∷ []) store)
run-IsValid_example =
    run-IsValid (marks_failed 300 1 "timeout" ∷ marks_resolved 2 ∷ marks_failed 400 3 "late" ∷ [])
      store store-IsValid

process_next-IsNext_example : IsNext 200 store (process_next 200 store)
process_next-IsNext_example = process_next-IsNext 200 store store-IsValid

abbrev rounds : List Round
rounds =
    record { now = 200; marked_at = 201; error = some "timeout" }
    ∷ record { now = 30000300; marked_at = 30000301; error = none }
    ∷ []

attempts-bounded_example : attempts rounds store ≤ max_attempts * length store.rows
attempts-bounded_example = attempts-bounded rounds store store-IsValid
