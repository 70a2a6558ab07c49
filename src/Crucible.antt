-- ===== src/Crucible.antt =====
-- pmacs/engines/crucible_loop.py: the loop of at most two adversarial cycles. What a cycle answers is an
-- argument, none for None, with its severity where it has one; so are the seconds that have gone by at
-- the two looks at the clock.
pub mod Routing
mod Examples
use automatic_trading.Prelude.{
  ℕ, Bool, true, false, ◌||◌, List, [], ◌∷◌, Option, none, some, if◌then◌else◌,
}
use automatic_trading.Float.{Num, zero_of}

-- CrucibleLoopState
pub data CrucibleLoopState : Type 0 where
  initial cycle_1 rewrite cycle_2 done abort : CrucibleLoopState

-- The texts of `reason`, without the severities that they print.
pub data Reason : Type 0 where
  budget_exceeded_in_cycle_1 low_severity high_severity budget_exhausted_before_cycle_2
        budget_exceeded_in_cycle_2 severity_reduced severity_still_high :
      Reason

module _ (N : Num) where
  pub record Output : Type 0 where
    pub severity : Option N.F

  pub record CrucibleLoopResult : Type 0 where
    pub final_state : CrucibleLoopState
    pub final_severity : N.F
    pub cycles_used : ℕ
    pub reason : Reason
    pub outputs : List Output

  -- SEVERITY_THRESHOLD_SKIP and SEVERITY_THRESHOLD_REWRITE
  abbrev pub severity_threshold_skip : N.F
  severity_threshold_skip = N.lit 6 1

  abbrev pub severity_threshold_rewrite : N.F
  severity_threshold_rewrite = N.lit 3 1

  unfoldable pub severity_or_one : Option N.F → N.F
  severity_or_one none = N.lit 1 0
  severity_or_one (some severity) = severity

  -- _extract_severity(output)
  unfoldable pub extract_severity : Output → N.F
  unfolding severity_or_one
  extract_severity o = severity_or_one o.severity

  -- After cycle 2.
  unfoldable pub after_cycle_2 : Output → Option Output → CrucibleLoopResult
  unfolding extract_severity
  after_cycle_2 output_1 none = record {
    final_state = abort;
    final_severity = extract_severity output_1;
    cycles_used = 2;
    reason = budget_exceeded_in_cycle_2;
    outputs = output_1 ∷ [];
  }
  after_cycle_2 output_1 (some output_2) =
      let severity_2 = extract_severity output_2 in
      if N.lt severity_2 severity_threshold_skip
      then record {
        final_state = done;
        final_severity = severity_2;
        cycles_used = 2;
        reason = severity_reduced;
        outputs = output_1 ∷ output_2 ∷ [];
      }
      else record {
        final_state = abort;
        final_severity = severity_2;
        cycles_used = 2;
        reason = severity_still_high;
        outputs = output_1 ∷ output_2 ∷ [];
      }

  -- After cycle 1, for the seconds at the look at the clock before cycle 2.
  unfoldable pub after_cycle_1 :
      (ℕ → Option Output) → (budget_total_s elapsed_2 : N.F) → Output → CrucibleLoopResult
  unfolding extract_severity after_cycle_2
  after_cycle_1 run_crucible_fn budget_total_s elapsed_2 output_1 =
      let severity_1 = extract_severity output_1 in
      if N.lt severity_1 severity_threshold_rewrite
      then record {
        final_state = done;
        final_severity = severity_1;
        cycles_used = 1;
        reason = low_severity;
        outputs = output_1 ∷ [];
      }
      else if N.le severity_threshold_skip severity_1
      then record {
        final_state = abort;
        final_severity = severity_1;
        cycles_used = 1;
        reason = high_severity;
        outputs = output_1 ∷ [];
      }
      else if N.le (N.sub budget_total_s elapsed_2) (zero_of N)
      then record {
        final_state = abort;
        final_severity = severity_1;
        cycles_used = 1;
        reason = budget_exhausted_before_cycle_2;
        outputs = output_1 ∷ [];
      }
      else after_cycle_2 output_1 (run_crucible_fn 2)

  unfoldable pub out_of_budget : CrucibleLoopResult
  out_of_budget = record {
    final_state = abort;
    final_severity = N.lit 1 0;
    cycles_used = 1;
    reason = budget_exceeded_in_cycle_1;
    outputs = [];
  }

  unfoldable pub with_output :
      (ℕ → Option Output)
      → (budget_total_s elapsed_1 elapsed_2 : N.F) → Option Output
      → CrucibleLoopResult
  unfolding after_cycle_1 out_of_budget
  with_output run_crucible_fn budget_total_s elapsed_1 elapsed_2 none = out_of_budget
  with_output run_crucible_fn budget_total_s elapsed_1 elapsed_2 (some output_1) =
      if N.lt budget_total_s elapsed_1
      then out_of_budget
      else after_cycle_1 run_crucible_fn budget_total_s elapsed_2 output_1

  -- run_crucible_loop(run_crucible_fn, evidence, budget_total_s). The evidence is that of every call.
  unfoldable pub run_crucible_loop :
      (ℕ → Option Output) → (budget_total_s elapsed_1 elapsed_2 : N.F) → CrucibleLoopResult
  unfolding with_output
  run_crucible_loop run_crucible_fn budget_total_s elapsed_1 elapsed_2 =
      with_output run_crucible_fn budget_total_s elapsed_1 elapsed_2 (run_crucible_fn 1)
