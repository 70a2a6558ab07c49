-- ===== src/Mutation/Examples.antt =====
-- A candidate that is promoted, regresses, and is rolled back.
use automatic_trading.Prelude.{true, false, ◌≡◌, refl, String, [], ◌∷◌, none, some, map}
use automatic_trading.Text.{codes}
use automatic_trading.Audit.Toy.{toy_digest, no_log}
use automatic_trading.Float.Fixed.{fixed, pos}
use automatic_trading.Mutation.{
  World, Clock, Promotion, Observed, apply_candidate_to_registry, rollback_registry,
  monitor_rollbacks, roll_back_regressed, regressed, metrics_regressed, regression_detected,
  set_status, execute_rollback,
}
use automatic_trading.Mutation.Registry.{candidate_of, rollback_registry-apply}
use automatic_trading.Mutation.Rollback.{monitor_rollbacks-registry}

abbrev clock : Clock
clock = record { now = codes "t1"; audit_now = codes "t2" }

abbrev promotion : Promotion
promotion = record {
  proposal_id = "m1";
  candidate_value = "{}";
  target = "prompt.moat";
  dimension = "prompt";
  sse = false;
  paths = true;
  cycle_id = "c1";
  clock = clock;
}

abbrev world : World
world = record {
  registry = none;
  proposals = record { id = "m1"; status = "READY_FOR_REVIEW"; completed_at = none } ∷ [];
  disk = no_log;
  published = [];
}

abbrev worse : String → Observed fixed
worse id = record {
  cycles_since = 40;
  post_metric = some (pos 6000);
  baseline_metric = some (pos 5000);
}

abbrev promoted : World
promoted = apply_candidate_to_registry toy_digest promotion world

rolled_back_status :
    map
      (λ r. r.status)
      (monitor_rollbacks fixed toy_digest worse 30 50 false (λ id. clock) "c2" promoted).proposals
    ≡ "ROLLED_BACK" ∷ []
unfolding apply_candidate_to_registry set_status monitor_rollbacks roll_back_regressed regressed
    metrics_regressed regression_detected execute_rollback
rolled_back_status = refl

rollback_registry-apply_example :
    candidate_of "m1"
      (rollback_registry toy_digest clock "m1" "{}" "operator" false "c2" promoted).registry
    ≡ none
rollback_registry-apply_example =
    (rollback_registry-apply toy_digest "m1" promotion clock "{}" "operator" false "c2" world).0

monitor_rollbacks-registry_example :
    (monitor_rollbacks fixed toy_digest worse 30 50 false (λ id. clock) "c2" promoted).registry
    ≡ promoted.registry
monitor_rollbacks-registry_example =
    (monitor_rollbacks-registry fixed toy_digest worse 30 50 false (λ id. clock) "c2" promoted).1
