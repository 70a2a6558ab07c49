-- ===== src/Checkpoint/Examples.antt =====
-- A cycle with two operations, one of them saved twice, and another cycle.
use automatic_trading.Prelude.{◌≡◌, refl, List, [], ◌∷◌, none, some}
use automatic_trading.Text.{codes}
use automatic_trading.Checkpoint.{
  CheckpointState, save_checkpoint, delete_key, same_key, load_checkpoint, greater_seq,
}
use automatic_trading.Checkpoint.Resume.{IsLast, load_checkpoint-IsLast}

abbrev fetched : CheckpointState
fetched = record {
  cycle_id = "c1";
  op_seq = 1;
  op_type = "fetch_data";
  completed_at = codes "t1";
  result_hash = none;
}

abbrev asked : CheckpointState
asked = record {
  cycle_id = "c1";
  op_seq = 2;
  op_type = "run_persona";
  completed_at = codes "t2";
  result_hash = none;
}

abbrev other : CheckpointState
other = record asked { cycle_id = "c2"; op_seq = 9 }

abbrev table : List CheckpointState
table = fetched ∷ other ∷ asked ∷ []

last : load_checkpoint "c1" (save_checkpoint fetched table) ≡ some asked
unfolding load_checkpoint save_checkpoint delete_key same_key greater_seq
last = refl

load_checkpoint-IsLast_example : IsLast "c1" table (load_checkpoint "c1" table)
load_checkpoint-IsLast_example = load_checkpoint-IsLast "c1" table
