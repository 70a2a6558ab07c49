-- ===== src/Mutation/Registry.antt =====
-- The candidates in the registry, by identifier.
use automatic_trading.Prelude.{
  Bool, ◌≡◌, refl, ◌∙◌, String, str_eq, eq_iff, List, [], ◌∷◌, Option, none, some, arith,
  if◌then◌else◌,
}
use automatic_trading.Text.{Text}
use automatic_trading.Mutation.{
  Candidate, ModelRegistry, World, Clock, Promotion, loaded, set_candidate, delete_candidate,
  candidates_or_empty, with_candidate, without_in, without_candidate, apply_candidate_to_registry,
  rollback_registry,
}

abbrev pub find : String → List (String × Candidate) → Option Candidate
find id [] = none
find id ((k, c) ∷ d) = let rest = find id d in if str_eq k id then some c else rest

-- registry["candidates"][id], none where a key or the file is missing.
abbrev pub candidate_of : String → Option ModelRegistry → Option Candidate
candidate_of id r = find id (candidates_or_empty (loaded r).candidates)

find-set_candidate :
    (q id : String) (c : Candidate) (d : List (String × Candidate))
    → find q (set_candidate id c d) ≡ (if str_eq id q then some c else find q d)
unfolding set_candidate
find-set_candidate q id c [] = refl
find-set_candidate q id c ((k, b) ∷ d) =
    ground (arith, eq_iff k id, eq_iff k q, eq_iff id q, find-set_candidate q id c d)

find-delete_candidate :
    (q id : String) (d : List (String × Candidate))
    → find q (delete_candidate id d) ≡ (if str_eq id q then none else find q d)
unfolding delete_candidate
find-delete_candidate q id [] = ground arith
find-delete_candidate q id ((k, b) ∷ d) =
    ground (arith, eq_iff k id, eq_iff k q, eq_iff id q, find-delete_candidate q id d)

find-without_in :
    (q id : String) (d : Option (List (String × Candidate)))
    → find q (candidates_or_empty (without_in id d))
      ≡ (if str_eq id q then none else find q (candidates_or_empty d))
unfolding without_in candidates_or_empty
find-without_in q id none = ground arith
find-without_in q id (some d) = find-delete_candidate q id d

-- The candidate that a promotion enters.
abbrev pub entered : Promotion → Candidate
entered a = record {
  target = a.target;
  dimension = a.dimension;
  value = a.candidate_value;
  applied_at = a.clock.now;
}

module _ (digest : Text → Text) where
  -- A promotion enters its candidate under its identifier and leaves the other candidates.
  pub candidate_of-apply :
      (q : String) (a : Promotion) (w : World)
      → candidate_of q (apply_candidate_to_registry digest a w).registry
        ≡ (if str_eq a.proposal_id q then some (entered a) else candidate_of q w.registry)
  unfolding apply_candidate_to_registry with_candidate loaded candidates_or_empty
  candidate_of-apply q a w = find-set_candidate q a.proposal_id (entered a) _

  -- The rollback of the registry takes back a promotion: under its identifier there is no candidate any
  -- more, every other candidate is as it was before both, and so are the other keys of the registry.
  pub rollback_registry-apply :
      (q : String) (a : Promotion) (clock : Clock) (config reason : String) (sse : Bool)
      (cycle_id : String) (w : World)
      → let w' =
          rollback_registry digest clock a.proposal_id config reason sse cycle_id
            (apply_candidate_to_registry digest a w) in
        (candidate_of q w'.registry
          ≡ (if str_eq a.proposal_id q then none else candidate_of q w.registry))
        × ((loaded w'.registry).rest ≡ (loaded w.registry).rest)
  unfolding rollback_registry without_candidate apply_candidate_to_registry with_candidate loaded
  rollback_registry-apply q a clock config reason sse cycle_id w = (
    find-without_in q a.proposal_id
          (loaded (apply_candidate_to_registry digest a w).registry).candidates
        ∙ ground (arith, candidate_of-apply q a w),
    refl,
  )
