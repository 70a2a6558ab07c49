-- ===== src/SleepWatch/Resume.antt =====
-- When a cycle is resumed.
use automatic_trading.Prelude.{
  ℕ, sym, Bool, true, false, ◌&&◌, ◌≡◌, refl, ◌∙◌, ◌⊎◌, inl, inr, String, eq_iff, List, [], ◌∷◌,
  Option, none, some, All, arith, Bool-cases, subst, select, any, map, if◌then◌else◌,
}
use automatic_trading.Float.{Num, NumLaws}
use automatic_trading.Checkpoint.{CheckpointState, is_completed}
use automatic_trading.Checkpoint.Resume.{IsLast, load_checkpoint-IsLast}
use automatic_trading.SleepWatch.{
  Database, is_open, open_cycles, find_incomplete_cycle, latest_heartbeat, sleep_since,
  sleep_gap_threshold, detect_sleep_via_heartbeat, check_sleep_wake, has_checkpoint,
  resume_cycle_if_needed,
}
use automatic_trading.SleepWatch.Newest.{Among, AtMost, IsNewest, latest_heartbeat-IsNewest}

-- One of the rows.
abbrev pub IsRow : String → List String → Type 0
IsRow id [] = ⊥
IsRow id (r ∷ rs) = (r ≡ id) ⊎ IsRow id rs

-- LIMIT 1: none exactly of no rows, else one of them.
abbrev pub IsLimit : List String → Option String → Type 0
IsLimit rows none = rows ≡ []
IsLimit rows (some id) = IsRow id rows

-- An operation of a cycle that is not closed.
abbrev pub any_open : Option Database → Bool
any_open none = false
any_open (some db) = any (is_open db.cycles) db.op_idempotency

-- What the rows of the query tell of the table.
abbrev pub Tells : (CheckpointState → Bool) → List CheckpointState → String → Type 0
Tells p rows id = (any p rows ≡ true) × ((op_seq : ℕ) × (is_completed id op_seq rows ≡ true))

Tells-first :
    (p : CheckpointState → Bool) (c : CheckpointState) (rows : List CheckpointState)
    → p c ≡ true
    → Tells p (c ∷ rows) c.cycle_id
unfolding is_completed
Tells-first p c rows h =
    (ground (arith, h), (c.op_seq, ground (arith, eq_iff c.cycle_id c.cycle_id)))

Tells-next :
    (p : CheckpointState → Bool) (id : String) (c : CheckpointState) (rows : List CheckpointState)
    → Tells p rows id
    → Tells p (c ∷ rows) id
unfolding is_completed
Tells-next p id c rows (a, (op_seq, e)) = (ground (arith, a), (op_seq, ground (arith, e)))

select-Tells :
    (p : CheckpointState → Bool) (id : String) (rows : List CheckpointState)
    → IsRow id (map (λ c. c.cycle_id) (select p rows))
    → Tells p rows id
select-Tells p id [] m = elim m [ ]
select-Tells p id (c ∷ rows) m =
    let family : Bool → Type 0 =
      λ b. IsRow id (map (λ c. c.cycle_id) (if b then c ∷ select p rows else select p rows)) in
    elim (Bool-cases (p c)) [
      | inl t ↦ elim (subst family t m) [
        | inl e ↦ subst (Tells p (c ∷ rows)) e (Tells-first p c rows t)
        | inr n ↦ Tells-next p id c rows (select-Tells p id rows n)
      ]
      | inr t ↦ Tells-next p id c rows (select-Tells p id rows (subst family t m))
    ]

no_rows :
    (p : CheckpointState → Bool) (rows : List CheckpointState)
    → map (λ c. c.cycle_id) (select p rows) ≡ []
    → any p rows ≡ false
no_rows p [] e = refl
no_rows p (c ∷ rows) e =
    let family : Bool → Type 0 =
      λ b. map (λ c. c.cycle_id) (if b then c ∷ select p rows else select p rows) ≡ [] in
    elim (Bool-cases (p c)) [
      | inl t ↦ ground (arith, subst family t e)
      | inr t ↦ ground (arith, no_rows p rows (subst family t e))
    ]

-- A cycle with a completed operation has a last one.
found :
    (id : String) (rows : List CheckpointState) (op_seq : ℕ) (o : Option CheckpointState)
    → is_completed id op_seq rows ≡ true
    → IsLast id rows o
    → (elim o as (λ x. Bool) [ none ↦ false | some c ↦ true ]) ≡ true
found id rows op_seq none e h = ground (arith, e, h op_seq)
found id rows op_seq (some c) e h = refl

limit-has_checkpoint :
    (db : Database) (o : Option String)
    → IsLimit (open_cycles db) o
    → has_checkpoint o (some db) ≡ any_open (some db)
unfolding has_checkpoint open_cycles
limit-has_checkpoint db none e = sym (no_rows (is_open db.cycles) db.op_idempotency e)
limit-has_checkpoint db (some id) m =
    let (a, (op_seq, e)) = select-Tells (is_open db.cycles) id db.op_idempotency m in
    found id db.op_idempotency op_seq _ e (load_checkpoint-IsLast id db.op_idempotency) ∙ sym a

module _ (first_row : List String → Option String)
    (limit : (rows : List String) → IsLimit rows (first_row rows)) where
  has_checkpoint-find_incomplete_cycle :
      (db : Option Database) → has_checkpoint (find_incomplete_cycle first_row db) db ≡ any_open db
  unfolding find_incomplete_cycle has_checkpoint
  has_checkpoint-find_incomplete_cycle none = refl
  has_checkpoint-find_incomplete_cycle (some db) =
      limit-has_checkpoint db _ (limit (open_cycles db))

  -- What is looked up only after a sleep.
  pub looked_up :
      (db : Option Database) (slept : Bool)
      → (if slept then any_open db else false) ≡ (
          if slept
          then has_checkpoint (if slept then find_incomplete_cycle first_row db else none) db
          else false)
  looked_up db true = sym (has_checkpoint-find_incomplete_cycle db)
  looked_up db false = refl

module _ (N : Num) where
  -- The newest of the files that can be read decides.
  abbrev pub IsResumed : N.F → List (Option N.F) → Bool → Bool → Type 0
  IsResumed now files unclosed resumed =
      (All (λ o. o ≡ none) files × (resumed ≡ false))
      ⊎ ((b : N.F) × Among N b files
          × All (AtMost N b) files
          × (resumed ≡ (N.lt (N.lit 300 0) (N.sub now b) && unclosed)))

  abbrev pub files_of : Option (List (Option N.F)) → List (Option N.F)
  files_of none = []
  files_of (some files) = files

  since-IsResumed :
      (now : N.F) (files : List (Option N.F)) (unclosed : Bool) (o : Option N.F)
      → IsNewest N none files o
      → IsResumed now files unclosed
          (if (sleep_since N now (sleep_gap_threshold N) o).0 then unclosed else false)
  unfolding sleep_since
  since-IsResumed now files unclosed none (e, es) = inl (es, refl)
  since-IsResumed now files unclosed (some b) (inl e, le, es) = ground (arith, e)
  since-IsResumed now files unclosed (some b) (inr m, le, es) = inr (b, m, es, ground arith)

  module _ (laws : NumLaws N) (first_row : List String → Option String)
      (limit : (rows : List String) → IsLimit rows (first_row rows)) where
    -- A cycle is resumed exactly if the newest heartbeat that can be read is more than 300 seconds old and
    -- an operation of a cycle that is not closed is in the table: the checkpoint that the code looks up is
    -- then always found. Without a readable heartbeat nothing is resumed.
    pub resume_cycle_if_needed-IsResumed :
        (now : N.F) (files : Option (List (Option N.F))) (db : Option Database)
        → IsResumed now
            (files_of files)
            (any_open db)
            (resume_cycle_if_needed N first_row now files db)
    unfolding resume_cycle_if_needed check_sleep_wake detect_sleep_via_heartbeat
    resume_cycle_if_needed-IsResumed now none db = inl (tt, refl)
    resume_cycle_if_needed-IsResumed now (some files) db =
        let newest = latest_heartbeat N none files in
        subst (IsResumed now files (any_open db))
          (looked_up first_row limit db (sleep_since N now (sleep_gap_threshold N) newest).0)
          (since-IsResumed now files (any_open db) newest
            (latest_heartbeat-IsNewest N laws none files))
