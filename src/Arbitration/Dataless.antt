-- ===== src/Arbitration/Dataless.antt =====
-- Signals of personas that report that they have no data.
use automatic_trading.Prelude.{
  ℕ, leb, Bool, ◌&&◌, not, ◌≡◌, refl, ap, ◌∙◌, String, List, [], ◌∷◌, length, select, arith,
  Bool-cases, inl, inr,
}
use automatic_trading.Float.{Num}
use automatic_trading.Arbitration.{
  ArbitrationSignal, ArbitrationDecision, is_mature, is_dataless, mature_disagree,
  majority_direction, Arbitrated,
}
use automatic_trading.Arbitration.Main.{decided, chosen, bootstrap, combined, aborted}

-- Two tests in either order, with the one repeated.
select-select :
    {A : Type 0} (p q : A → Bool) (xs : List A)
    → select p (select q (select p xs)) ≡ select p (select q xs)
select-select p q [] = refl
select-select p q (x ∷ xs) = ground (arith, select-select p q xs)

module _ (N : Num) where
  -- The signal is used.
  abbrev pub informed : ArbitrationSignal N → Bool
  informed s = not (is_dataless N s)

  -- What a trade is decided on.
  pub record Verdict : Type 0 where
    pub p_up : N.F
    pub p_flat : N.F
    pub p_down : N.F
    pub decision : ArbitrationDecision
    pub agreement_score : N.F
    pub matured_sources_used : ℕ

  abbrev pub verdict : Arbitrated N → Verdict
  verdict a = record {
    p_up = a.p_up;
    p_flat = a.p_flat;
    p_down = a.p_down;
    decision = a.decision;
    agreement_score = a.agreement_score;
    matured_sources_used = a.matured_sources_used;
  }

  bootstrap-verdict :
      (ticker : String) (immature immature' usable : List (ArbitrationSignal N))
      → verdict (bootstrap N ticker immature' usable) ≡ verdict (bootstrap N ticker immature usable)
  unfolding bootstrap aborted
  bootstrap-verdict ticker immature immature' usable =
      elim (Bool-cases (leb 1 (length usable) && (majority_direction N usable).has_majority)) [
        | inl e ↦ rw e refl
        | inr e ↦ rw e refl
      ]

  combined-verdict :
      (ticker : String) (mature mature' usable : List (ArbitrationSignal N))
      → verdict (combined N ticker mature' usable) ≡ verdict (combined N ticker mature usable)
  unfolding combined
  combined-verdict ticker mature mature' usable = refl

  chosen-verdict :
      (ticker : String) (m m' i i' usable_m usable_i : List (ArbitrationSignal N))
      → verdict (chosen N ticker m' i' usable_m usable_i)
        ≡ verdict (chosen N ticker m i usable_m usable_i)
  unfolding chosen aborted
  chosen-verdict ticker m m' i i' usable_m usable_i = elim (Bool-cases (leb (length usable_m) 0)) [
    | inl e ↦ rw e (bootstrap-verdict ticker i i' usable_i)
    | inr e ↦ elim (Bool-cases (mature_disagree N usable_m)) [
      | inl f ↦ rw e (rw f refl)
      | inr f ↦ rw e (rw f (combined-verdict ticker m m' usable_m))
    ]
  ]

  -- Signals without data have no influence: the probabilities, the decision, the agreement and the
  -- number of mature sources are those of the other signals alone.
  pub decided-select :
      (ticker : String) (signals : List (ArbitrationSignal N))
      → verdict (decided N ticker (select informed signals)) ≡ verdict (decided N ticker signals)
  unfolding decided
  decided-select ticker signals =
      let mature = select (is_mature N) signals in
      let immature = select (λ s. not (is_mature N s)) signals in
      let mature' = select (is_mature N) (select informed signals) in
      let immature' = select (λ s. not (is_mature N s)) (select informed signals) in
      let m = select-select informed (is_mature N) signals in
      let i = select-select informed (λ s. not (is_mature N s)) signals in
      ap (λ x. verdict (chosen N ticker mature' immature' x (select informed immature'))) m
      ∙ ap (λ y. verdict (chosen N ticker mature' immature' (select informed mature) y)) i
      ∙ chosen-verdict ticker mature mature' immature immature' (select informed mature)
          (select informed immature)
