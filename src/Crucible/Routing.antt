-- ===== src/Crucible/Routing.antt =====
-- Which theses survive the loop.
use automatic_trading.Prelude.{
  ℕ, ◌≤◌, ◌≡◌, refl, Bool, true, false, ◌&&◌, ◌||◌, not, Option, none, some, arith, Bool-cases, inl,
  inr,
}
use automatic_trading.Float.{Num, NumLaws, zero_of}
use automatic_trading.Crucible.{
  CrucibleLoopState, done, abort, Output, CrucibleLoopResult, run_crucible_loop, with_output,
  after_cycle_1, after_cycle_2, out_of_budget, extract_severity, severity_threshold_skip,
  severity_threshold_rewrite,
}

abbrev pub is_done : CrucibleLoopState → Bool
is_done done = true
is_done _ = false

module _ (N : Num) where
  -- The answer came and its severity is below the threshold.
  abbrev pub below : N.F → Option (Output N) → Bool
  below threshold none = false
  below threshold (some o) = N.lt (extract_severity N o) threshold

  -- What the loop promises of its result.
  pub record IsRouted (o1 o2 : Option (Output N)) (budget elapsed_1 elapsed_2 : N.F)
      (r : CrucibleLoopResult N) : Type 0 where
    pub survives : is_done r.final_state ≡ (
        not (N.lt budget elapsed_1)
        && (below (severity_threshold_rewrite N) o1
            || (below (severity_threshold_skip N) o1
                && (not (N.le (N.sub budget elapsed_2) (zero_of N))
                    && below (severity_threshold_skip N) o2))))
    pub weak :
        is_done r.final_state ≡ true → N.lt r.final_severity (severity_threshold_skip N) ≡ true
    pub bounded : r.cycles_used ≤ 2
    pub ended : (is_done r.final_state ≡ false) → r.final_state ≡ abort

  module _ (laws : NumLaws N)
      (ordered : N.le (severity_threshold_rewrite N) (severity_threshold_skip N) ≡ true) where
    lower :
        (a : N.F)
        → N.lt a (severity_threshold_rewrite N) ≡ true
        → N.lt a (severity_threshold_skip N) ≡ true
    lower a h =
        let low = severity_threshold_rewrite N in
        let high = severity_threshold_skip N in
        ground
          (arith, h, ordered, laws.lt_not_le a low, laws.lt_not_le a high, laws.le_trans low high a)

    after_cycle_2-IsRouted :
        (o : Output N) (o2 : Option (Output N))
        → let r = after_cycle_2 N o o2 in
          (is_done r.final_state ≡ below (severity_threshold_skip N) o2)
          × (is_done r.final_state ≡ true
              → N.lt r.final_severity (severity_threshold_skip N) ≡ true)
          × (r.cycles_used ≤ 2)
          × ((is_done r.final_state ≡ false) → r.final_state ≡ abort)
    unfolding after_cycle_2
    after_cycle_2-IsRouted o none = (refl, (λ e. ground (arith, e)), omega arith, λ e. refl)
    after_cycle_2-IsRouted o (some o2) =
        elim (Bool-cases (N.lt (extract_severity N o2) (severity_threshold_skip N))) [
          | inl e ↦ rw e (refl, (λ _. e), omega arith, λ f. ground (arith, f))
          | inr e ↦ rw e (refl, (λ f. ground (arith, f)), omega arith, λ _. refl)
        ]

    after_cycle_1-IsRouted :
        (run : ℕ → Option (Output N)) (budget elapsed_2 : N.F) (o : Output N)
        → let r = after_cycle_1 N run budget elapsed_2 o in
          (is_done r.final_state ≡ (
            below (severity_threshold_rewrite N) (some o)
            || (below (severity_threshold_skip N) (some o)
                && (not (N.le (N.sub budget elapsed_2) (zero_of N))
                    && below (severity_threshold_skip N) (run 2)))))
          × (is_done r.final_state ≡ true
              → N.lt r.final_severity (severity_threshold_skip N) ≡ true)
          × (r.cycles_used ≤ 2)
          × ((is_done r.final_state ≡ false) → r.final_state ≡ abort)
    unfolding after_cycle_1
    after_cycle_1-IsRouted run budget elapsed_2 o =
        let a = extract_severity N o in
        let (p, q, b, f) = after_cycle_2-IsRouted o (run 2) in
        elim (Bool-cases (N.lt a (severity_threshold_rewrite N))) [
          | inl e ↦ rw e (refl, (λ _. lower a e), omega arith, λ g. ground (arith, g))
          | inr e ↦ elim (Bool-cases (N.le (severity_threshold_skip N) a)) [
            | inl g ↦ rw e (
                rw g (
                  ground (arith, g, laws.lt_not_le a (severity_threshold_skip N)),
                  (λ h. ground (arith, h)),
                  omega arith,
                  λ _. refl,
                ))
            | inr g ↦ elim (Bool-cases (N.le (N.sub budget elapsed_2) (zero_of N))) [
              | inl h ↦
                  rw e
                    (rw g (rw h (ground arith, (λ i. ground (arith, i)), omega arith, λ _. refl)))
              | inr h ↦ rw e (
                  rw g (
                    rw h (
                      ground (arith, p, g, laws.lt_not_le a (severity_threshold_skip N)),
                      q,
                      b,
                      f,
                    )))
            ]
          ]
        ]

    with_output-IsRouted :
        (run : ℕ → Option (Output N)) (budget elapsed_1 elapsed_2 : N.F) (o1 : Option (Output N))
        → IsRouted o1
            (run 2)
            budget
            elapsed_1
            elapsed_2
            (with_output N run budget elapsed_1 elapsed_2 o1)
    unfolding out_of_budget with_output
    with_output-IsRouted run budget elapsed_1 elapsed_2 none = record {
      survives = ground arith;
      weak = λ e. ground (arith, e);
      bounded = omega arith;
      ended = λ _. refl;
    }
    with_output-IsRouted run budget elapsed_1 elapsed_2 (some o) =
        let (p, q, b, f) = after_cycle_1-IsRouted run budget elapsed_2 o in
        elim (Bool-cases (N.lt budget elapsed_1)) [
          | inl e ↦ rw e (record {
            survives = ground (arith, e);
            weak = λ g. ground (arith, g);
            bounded = omega arith;
            ended = λ _. refl;
          })
          | inr e ↦
              rw e (record { survives = ground (arith, e, p); weak = q; bounded = b; ended = f })
        ]

    -- If the literal 0.3 is at most 0.6: a thesis survives exactly if cycle 1 answers in time with a
    -- severity below 0.3, or below 0.6 where budget is left and cycle 2 answers with one below 0.6. It
    -- then has a final severity below 0.6. Otherwise the loop aborts. At most two cycles are used.
    pub run_crucible_loop-IsRouted :
        (run : ℕ → Option (Output N)) (budget elapsed_1 elapsed_2 : N.F)
        → IsRouted
            (run 1)
            (run 2)
            budget
            elapsed_1
            elapsed_2
            (run_crucible_loop N run budget elapsed_1 elapsed_2)
    unfolding run_crucible_loop
    run_crucible_loop-IsRouted run budget elapsed_1 elapsed_2 =
        with_output-IsRouted run budget elapsed_1 elapsed_2 (run 1)
