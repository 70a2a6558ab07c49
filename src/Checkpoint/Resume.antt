-- ===== src/Checkpoint/Resume.antt =====
-- What a resumed cycle learns from the table.
use automatic_trading.Prelude.{
  ℕ, ◌≤◌, ◌≡◌, refl, ◌==◌, leb, Bool, true, false, ◌&&◌, ◌||◌, String, str_eq, eq_iff, List, [],
  ◌∷◌, Option, none, some, arith, inl, inr, Bool-cases,
}
use automatic_trading.Checkpoint.{
  CheckpointState, same_key, delete_key, save_checkpoint, greater_seq, load_checkpoint,
  is_completed,
}

abbrev pub concerns : CheckpointState → String → ℕ → Bool
concerns c cycle_id op_seq = str_eq c.cycle_id cycle_id && (c.op_seq == op_seq)

-- A row with the key of another concerns the same operation.
same_key-concerns :
    (c d : CheckpointState) (cycle_id : String) (op_seq : ℕ)
    → same_key c d ≡ true
    → concerns d cycle_id op_seq ≡ concerns c cycle_id op_seq
unfolding same_key
same_key-concerns c d cycle_id op_seq h =
    ground
      (arith, eq_iff c.cycle_id d.cycle_id, eq_iff c.cycle_id cycle_id, eq_iff d.cycle_id cycle_id)

is_completed-delete_key :
    (c : CheckpointState) (rows : List CheckpointState) (cycle_id : String) (op_seq : ℕ)
    → (concerns c cycle_id op_seq || is_completed cycle_id op_seq (delete_key c rows))
      ≡ (concerns c cycle_id op_seq || is_completed cycle_id op_seq rows)
unfolding is_completed delete_key
is_completed-delete_key c [] cycle_id op_seq = refl
is_completed-delete_key c (d ∷ rows) cycle_id op_seq =
    let rest = is_completed-delete_key c rows cycle_id op_seq in
    elim (Bool-cases (same_key c d)) [
      | inl e ↦ rw e (ground (arith, rest, same_key-concerns c d cycle_id op_seq e))
      | inr e ↦ rw e (ground (arith, rest))
    ]

-- After a save, exactly the operation that was saved and those that were completed before are
-- completed, also where the row replaces one.
pub is_completed-save_checkpoint :
    (c : CheckpointState) (rows : List CheckpointState) (cycle_id : String) (op_seq : ℕ)
    → is_completed cycle_id op_seq (save_checkpoint c rows)
      ≡ (concerns c cycle_id op_seq || is_completed cycle_id op_seq rows)
unfolding is_completed save_checkpoint
is_completed-save_checkpoint c rows cycle_id op_seq =
    ground (arith, is_completed-delete_key c rows cycle_id op_seq)

-- What is known of a cycle when its last checkpoint is that one.
abbrev pub IsLast : String → List CheckpointState → Option CheckpointState → Type 0
IsLast cycle_id rows none = (op_seq : ℕ) → is_completed cycle_id op_seq rows ≡ false
IsLast cycle_id rows (some c) =
    (c.cycle_id ≡ cycle_id)
    × (is_completed cycle_id c.op_seq rows ≡ true)
    × ((op_seq : ℕ) → is_completed cycle_id op_seq rows ≡ true → op_seq ≤ c.op_seq)

IsLast-skip :
    (cycle_id : String) (c : CheckpointState) (rows : List CheckpointState)
    (o : Option CheckpointState)
    → str_eq c.cycle_id cycle_id ≡ false
    → IsLast cycle_id rows o
    → IsLast cycle_id (c ∷ rows) o
unfolding is_completed
IsLast-skip cycle_id c rows none e h = λ op_seq. rw e (h op_seq)
IsLast-skip cycle_id c rows (some d) e (h, k, l) =
    (h, rw e k, λ op_seq m. l op_seq (ground (arith, e, m)))

IsLast-greater_seq :
    (cycle_id : String) (c : CheckpointState) (rows : List CheckpointState)
    (o : Option CheckpointState)
    → str_eq c.cycle_id cycle_id ≡ true
    → IsLast cycle_id rows o
    → IsLast cycle_id (c ∷ rows) (greater_seq c o)
unfolding is_completed greater_seq
IsLast-greater_seq cycle_id c rows none e h =
    (ground (arith, eq_iff c.cycle_id cycle_id), ground arith, λ op_seq m. ground (arith, h op_seq))
IsLast-greater_seq cycle_id c rows (some d) e (h, k, l) =
    elim (Bool-cases (leb d.op_seq c.op_seq)) [
      | inl f ↦
          rw (f, IsLast)
            (
              ground (arith, eq_iff c.cycle_id cycle_id),
              ground arith,
              λ op_seq m. ground (arith, l op_seq),
            )
      | inr f ↦ rw (f, IsLast) (h, ground arith, λ op_seq m. ground (arith, l op_seq))
    ]

-- `load_checkpoint` finds the last completed operation of the cycle: nothing of the cycle is completed
-- if it finds none; else what it finds is of the cycle and completed, and no completed operation has
-- a greater number.
pub load_checkpoint-IsLast :
    (cycle_id : String) (rows : List CheckpointState)
    → IsLast cycle_id rows (load_checkpoint cycle_id rows)
unfolding load_checkpoint is_completed greater_seq
load_checkpoint-IsLast cycle_id [] = λ op_seq. refl
load_checkpoint-IsLast cycle_id (c ∷ rows) = elim (Bool-cases (str_eq c.cycle_id cycle_id)) [
  | inl e ↦
      rw (e, load_checkpoint)
        (IsLast-greater_seq cycle_id c rows _ e (load_checkpoint-IsLast cycle_id rows))
  | inr e ↦
      rw (e, load_checkpoint)
        (IsLast-skip cycle_id c rows _ e (load_checkpoint-IsLast cycle_id rows))
]
