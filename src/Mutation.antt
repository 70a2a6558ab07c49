-- ===== src/Mutation.antt =====
-- pmacs/nervous/mutation.py, pmacs/mutation/promotion.py and pmacs/mutation/rollback.py, with the watch of
-- pmacs/mutation/daemon.py over promoted mutations. The file model_registry.json is its parsed content,
-- none where it is missing; `rest` has its other keys. Failing files and databases are left out.
pub mod Registry
pub mod Rollback
mod Examples
use automatic_trading.Prelude.{
  ℕ, ◌+◌, ltb, Bool, true, false, ◌&&◌, not, String, str_eq, List, [], ◌∷◌, Option, none, some,
  if◌then◌else◌,
}
use automatic_trading.Text.{Text, codes}
use automatic_trading.Canonical.{text, boolean}
use automatic_trading.Audit.{Disk, Request, log_event}
use automatic_trading.Float.{Num}

-- An entry of "candidates".
pub record Candidate : Type 0 where
  pub target : String
  pub dimension : String
  pub value : String
  pub applied_at : Text

-- `candidates` is none where the key is missing. No identifier occurs twice.
pub record ModelRegistry : Type 0 where
  pub candidates : Option (List (String × Candidate))
  pub rest : List (String × String)

-- A row of `mutation_proposals`.
pub record ProposalRow : Type 0 where
  pub id : String
  pub status : String
  pub completed_at : Option Text

pub data Event : Type 0 where
  promoted : (id target : String) → (at : Text) → (dimension : String) → Event
  rolled_back : (id reason : String) → (at : Text) → Event

-- The newest event comes first.
pub record World : Type 0 where
  pub registry : Option ModelRegistry
  pub proposals : List ProposalRow
  pub disk : Disk
  pub published : List Event

-- The time of a call, and the time that the audit writer reads.
pub record Clock : Type 0 where
  pub now : Text
  pub audit_now : Text

-- json.load, or {} for a missing file.
unfoldable pub loaded : Option ModelRegistry → ModelRegistry
loaded none = record { candidates = none; rest = [] }
loaded (some r) = r

-- d[id] = candidate: an entry of that key is replaced in place, a new one comes last.
unfoldable pub set_candidate :
    String → Candidate → List (String × Candidate) → List (String × Candidate)
set_candidate id c [] = (id, c) ∷ []
set_candidate id c ((k, b) ∷ d) =
    let rest = set_candidate id c d in if str_eq k id then (id, c) ∷ d else (k, b) ∷ rest

-- del d[id], where it is there.
unfoldable pub delete_candidate : String → List (String × Candidate) → List (String × Candidate)
delete_candidate id [] = []
delete_candidate id ((k, b) ∷ d) =
    let rest = delete_candidate id d in if str_eq k id then rest else (k, b) ∷ rest

unfoldable pub candidates_or_empty : Option (List (String × Candidate)) → List (String × Candidate)
candidates_or_empty none = []
candidates_or_empty (some d) = d

unfoldable pub with_candidate : String → Candidate → ModelRegistry → ModelRegistry
unfolding set_candidate candidates_or_empty
with_candidate id c r = record r {
  candidates = some (set_candidate id c (candidates_or_empty r.candidates));
}

unfoldable pub without_in :
    String → Option (List (String × Candidate)) → Option (List (String × Candidate))
unfolding delete_candidate
without_in id none = none
without_in id (some d) = some (delete_candidate id d)

unfoldable pub without_candidate : String → ModelRegistry → ModelRegistry
unfolding without_in
without_candidate id r = record r { candidates = without_in id r.candidates }

-- UPDATE mutation_proposals SET status = ?, completed_at = ? WHERE id = ?
unfoldable pub set_status : String → String → Text → List ProposalRow → List ProposalRow
set_status id status now [] = []
set_status id status now (p ∷ ps) =
    let rest = set_status id status now ps in
    if str_eq p.id id
    then record p { status = status; completed_at = some now } ∷ rest
    else p ∷ rest

unfoldable pub promoted_request : Clock → String → String → String → String → Request
promoted_request clock id dimension target cycle_id = record {
  iso_ts = clock.audit_now;
  event_type = codes "mutation_operator_promoted";
  payload =
      (codes "proposal_id", text (codes id))
      ∷ (codes "dimension", text (codes dimension))
      ∷ (codes "target", text (codes target))
      ∷ (codes "operator", boolean true)
      ∷ (codes "applied_at", text clock.now)
      ∷ [];
  cycle_id = codes cycle_id;
}

unfoldable pub rollback_request : Clock → String → String → String → Request
rollback_request clock id reason cycle_id = record {
  iso_ts = clock.audit_now;
  event_type = codes "mutation_rollback_executed";
  payload = (codes "proposal_id", text (codes id)) ∷ (codes "reason", text (codes reason)) ∷ [];
  cycle_id = codes cycle_id;
}

unfoldable pub published_if : Bool → Event → List Event → List Event
published_if sse e events = if sse then e ∷ events else events

-- The arguments of a promotion. `sse` says that a publisher is given, `paths` that the three paths are.
pub record Promotion : Type 0 where
  pub proposal_id : String
  pub candidate_value : String
  pub target : String
  pub dimension : String
  pub sse : Bool
  pub paths : Bool
  pub cycle_id : String
  pub clock : Clock

-- EXCLUDED_TARGETS
unfoldable pub is_excluded : String → Bool
is_excluded target =
    if str_eq target "arbitration.formula"
    then true
    else if str_eq target "arbitration.weights"
    then true
    else if str_eq target "state_machine.transitions"
    then true
    else if str_eq target "kill_switch.thresholds"
    then true
    else if str_eq target "conviction.floor"
    then true
    else str_eq target "conviction.thresholds"

module _ (digest : Text → Text) where
  -- apply_candidate_to_registry(…)
  unfoldable pub apply_candidate_to_registry : Promotion → World → World
  unfolding loaded with_candidate set_status promoted_request published_if
  apply_candidate_to_registry a w = record {
    registry = some (
        with_candidate a.proposal_id
          (record {
            target = a.target;
            dimension = a.dimension;
            value = a.candidate_value;
            applied_at = a.clock.now;
          })
          (loaded w.registry));
    proposals = set_status a.proposal_id "OPERATOR_PROMOTED" a.clock.now w.proposals;
    disk =
        log_event digest (promoted_request a.clock a.proposal_id a.dimension a.target a.cycle_id)
          w.disk;
    published =
        published_if a.sse (promoted a.proposal_id a.target a.clock.now a.dimension) w.published;
  }

  -- operator_promote(…), none for the ValueError.
  unfoldable pub operator_promote : Promotion → World → Option World
  unfolding is_excluded apply_candidate_to_registry
  operator_promote a w =
      if not (str_eq a.target "") && is_excluded a.target
      then none
      else if a.paths
      then some (apply_candidate_to_registry a w)
      else some w

  -- rollback_registry(…). `rollback_config` is not read.
  unfoldable pub rollback_registry :
      Clock
      → String
      → (rollback_config : String) → (reason : String) → (sse : Bool) → String
      → World
      → World
  unfolding loaded without_candidate set_status rollback_request published_if
  rollback_registry clock id rollback_config reason sse cycle_id w = record {
    registry = some (without_candidate id (loaded w.registry));
    proposals = set_status id "ROLLED_BACK" clock.now w.proposals;
    disk = log_event digest (rollback_request clock id reason cycle_id) w.disk;
    published = published_if sse (rolled_back id reason clock.now) w.published;
  }

  -- execute_rollback(…) with a database and an audit path. `registry_path` is not read.
  unfoldable pub execute_rollback :
      Clock → String → (reason : String) → (sse : Bool) → String → World → World
  unfolding set_status rollback_request published_if
  execute_rollback clock id reason sse cycle_id w = record w {
    proposals = set_status id "ROLLED_BACK" clock.now w.proposals;
    disk = log_event digest (rollback_request clock id reason cycle_id) w.disk;
    published = published_if sse (rolled_back id reason clock.now) w.published;
  }

module _ (N : Num) where
  -- regression_detected(…) with a given window.
  unfoldable pub regression_detected : ℕ → ℕ → N.F → N.F → Bool → ℕ → Bool
  regression_detected promoted_cycles_ago probation post_metric baseline_metric lower_is_better
        window =
      if ltb promoted_cycles_ago probation
      then false
      else if ltb (probation + window) promoted_cycles_ago
      then false
      else if lower_is_better
      then N.lt baseline_metric post_metric
      else N.lt post_metric baseline_metric

  -- What the daemon reads of a proposal: the closed cycles since it was proposed, and the two metrics.
  pub record Observed : Type 0 where
    pub cycles_since : ℕ
    pub post_metric : Option N.F
    pub baseline_metric : Option N.F

  unfoldable pub metrics_regressed : ℕ → ℕ → ℕ → Option N.F → Option N.F → Bool
  unfolding regression_detected
  metrics_regressed cycles probation window (some post) (some baseline) =
      regression_detected cycles probation post baseline true window
  metrics_regressed _ _ _ _ _ = false

  -- Whether the body of the loop in _monitor_rollbacks reaches execute_rollback.
  unfoldable pub regressed : ℕ → ℕ → Observed → Bool
  unfolding metrics_regressed
  regressed probation window o =
      if ltb 0 o.cycles_since
      then metrics_regressed o.cycles_since probation window o.post_metric o.baseline_metric
      else false

  module _ (digest : Text → Text) (observe : String → Observed) (probation window : ℕ)
      (sse : Bool) where
    unfoldable pub roll_back_regressed :
        (String → Clock) → String → List ProposalRow → World → World
    unfolding regressed execute_rollback
    roll_back_regressed clock cycle_id [] w = w
    roll_back_regressed clock cycle_id (p ∷ ps) w =
        let rest = roll_back_regressed clock cycle_id ps in
        if str_eq p.status "OPERATOR_PROMOTED" && regressed probation window (observe p.id)
        then rest (
            execute_rollback digest (clock p.id) p.id "auto_rollback: regression after probation"
              sse cycle_id w)
        else rest w

    -- _monitor_rollbacks(cycle_id): the rows are read once.
    unfoldable pub monitor_rollbacks : (String → Clock) → String → World → World
    unfolding roll_back_regressed
    monitor_rollbacks clock cycle_id w = roll_back_regressed clock cycle_id w.proposals w
