-- ===== src/Checkpoint.antt =====
-- pmacs/nervous/checkpoint.py: the completed operations of a cycle. The table `op_idempotency` of
-- pmacs/storage/sqlite.py, whose key is cycle, number and type, is a list of its rows.
pub mod Resume
mod Examples
use automatic_trading.Prelude.{
  ℕ, ◌==◌, leb, Bool, true, false, ◌&&◌, String, str_eq, List, [], ◌∷◌, Option, none, some,
  if◌then◌else◌,
}
use automatic_trading.Text.{Text}

-- A row, and what `load_checkpoint` returns.
pub record CheckpointState : Type 0 where
  pub cycle_id : String
  pub op_seq : ℕ
  pub op_type : String
  pub completed_at : Text
  pub result_hash : Option String

-- Whether a row has the key of the other.
unfoldable pub same_key : CheckpointState → CheckpointState → Bool
same_key c d = str_eq c.cycle_id d.cycle_id && (c.op_seq == d.op_seq) && str_eq c.op_type d.op_type

-- REPLACE deletes the row with the key.
unfoldable pub delete_key : CheckpointState → List CheckpointState → List CheckpointState
unfolding same_key
delete_key c [] = []
delete_key c (d ∷ rows) = let rest = delete_key c rows in if same_key c d then rest else d ∷ rest

-- save_checkpoint: INSERT OR REPLACE
unfoldable pub save_checkpoint : CheckpointState → List CheckpointState → List CheckpointState
unfolding delete_key
save_checkpoint c rows = c ∷ delete_key c rows

-- The row to keep, for the greatest number. The order of rows of equal numbers is open in SQL.
unfoldable pub greater_seq : CheckpointState → Option CheckpointState → Option CheckpointState
greater_seq c none = some c
greater_seq c (some d) = if leb d.op_seq c.op_seq then some c else some d

-- load_checkpoint: ORDER BY op_seq DESC LIMIT 1
unfoldable pub load_checkpoint : String → List CheckpointState → Option CheckpointState
unfolding greater_seq
load_checkpoint cycle_id [] = none
load_checkpoint cycle_id (c ∷ rows) =
    let rest = load_checkpoint cycle_id rows in
    if str_eq c.cycle_id cycle_id then greater_seq c rest else rest

-- is_completed(cycle_id, op_seq)
unfoldable pub is_completed : String → ℕ → List CheckpointState → Bool
is_completed cycle_id op_seq [] = false
is_completed cycle_id op_seq (c ∷ rows) =
    let rest = is_completed cycle_id op_seq rows in
    if str_eq c.cycle_id cycle_id && (c.op_seq == op_seq) then true else rest
