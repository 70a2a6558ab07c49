-- ===== src/Sizing/Bounds.antt =====
-- How large a position can become, and how the verdict follows the conviction.
use automatic_trading.Prelude.{
  ℕ, zero, suc, ◌≤◌, ◌≡◌, Bool, true, false, List, [], ◌∷◌, Option, arith, Bool-cases, inl, inr,
}
use automatic_trading.Float.{Num, NumLaws, zero_of}
use automatic_trading.Sizing.{
  VerdictTier, strong_buy, buy, hold, skip, pass, min_of, max_of, bootstrap_haircut, SizingInputs,
  compute_kelly, correlation_factor, limited_factor, bootstrap_position, target_pct, kelly_position,
  size_position, verdict_tier,
}

-- PASS and SKIP buy nothing.
abbrev pub tier_rank : VerdictTier → ℕ
tier_rank pass = 0
tier_rank skip = 0
tier_rank hold = 1
tier_rank buy = 2
tier_rank strong_buy = 3

module _ (N : Num) (laws : NumLaws N) where
  abbrev IsNonneg : N.F → Type 0
  IsNonneg a = N.le (zero_of N) a ≡ true

  min_of-le : (a b : N.F) → N.le (min_of N a b) b ≡ true
  min_of-le a b = ground (arith, laws.lt_not_le b a, laws.le_refl b, laws.le_total a b)

  min_of-IsNonneg : (a b : N.F) → IsNonneg a → IsNonneg b → IsNonneg (min_of N a b)
  min_of-IsNonneg a b h k = ground (arith, h, k)

  bootstrap_haircut-IsNonneg : (n : ℕ) → IsNonneg (bootstrap_haircut N n)
  unfolding bootstrap_haircut
  bootstrap_haircut-IsNonneg zero = laws.lit_nonneg 50 2
  bootstrap_haircut-IsNonneg (suc zero) = laws.lit_nonneg 65 2
  bootstrap_haircut-IsNonneg (suc (suc zero)) = laws.lit_nonneg 80 2
  bootstrap_haircut-IsNonneg (suc (suc (suc zero))) = laws.lit_nonneg 90 2
  bootstrap_haircut-IsNonneg (suc (suc (suc (suc n)))) = laws.lit_nonneg 1 0

  limited_factor-IsNonneg : (b : Bool) → IsNonneg (limited_factor N b)
  unfolding limited_factor
  limited_factor-IsNonneg true = laws.lit_nonneg 50 2
  limited_factor-IsNonneg false = laws.lit_nonneg 1 0

  max_of-IsNonneg : (a b : N.F) → IsNonneg a → IsNonneg (max_of N a b)
  max_of-IsNonneg a b h =
      ground (arith, laws.lt_not_le a b, laws.le_total a b, laws.le_trans (zero_of N) a b h)

  correlation_factor-IsNonneg : (cs : List N.F) → IsNonneg (correlation_factor N cs)
  unfolding correlation_factor
  correlation_factor-IsNonneg [] = laws.lit_nonneg 1 0
  correlation_factor-IsNonneg (c ∷ cs) = max_of-IsNonneg (N.lit 30 2) _ (laws.lit_nonneg 30 2)

  target_pct-IsNonneg :
      (max_usd : N.F) (x : SizingInputs N) (kelly : N.F)
      → IsNonneg kelly
      → IsNonneg x.max_position_pct
      → IsNonneg (target_pct N max_usd x kelly)
  unfolding target_pct
  target_pct-IsNonneg max_usd x kelly h k =
      min_of-IsNonneg _ x.max_position_pct
        (laws.mul_nonneg _ _
          (laws.mul_nonneg _ _
            (laws.mul_nonneg _ _ (laws.mul_nonneg kelly (N.lit 5 1) h (laws.lit_nonneg 5 1))
              (correlation_factor-IsNonneg x.portfolio_correlations))
            (bootstrap_haircut-IsNonneg x.matured_sources_used))
          (limited_factor-IsNonneg x.is_limited_history))
        k

  -- Every position lies between zero and the configured limit in dollars, if the portfolio's value, the
  -- limit in dollars and the limit in percent are not negative: with an edge or without, during the
  -- bootstrap or after it.
  pub size_position-bounds :
      (max_usd : N.F) (x : SizingInputs N)
      → N.le (zero_of N) max_usd ≡ true
      → N.le (zero_of N) x.portfolio_value_usd ≡ true
      → N.le (zero_of N) x.max_position_pct ≡ true
      → let usd = (size_position N max_usd x).target_usd in
        (N.le (zero_of N) usd ≡ true) × (N.le usd max_usd ≡ true)
  unfolding size_position bootstrap_position kelly_position
  size_position-bounds max_usd x h k l =
      let kelly = compute_kelly N x.p_up x.p_down x.target_gain_pct x.stop_loss_pct in
      elim (Bool-cases (N.le kelly (zero_of N))) [
        | inl e ↦ elim (Bool-cases x.is_bootstrap) [
          | inl f ↦
              rw (e, f)
                (
                  min_of-IsNonneg _ max_usd
                      (laws.mul_nonneg (N.lit 5 2) x.portfolio_value_usd (laws.lit_nonneg 5 2) k) h,
                  min_of-le _ max_usd,
                )
          | inr f ↦ rw (e, f) (laws.le_refl (zero_of N), h)
        ]
        | inr e ↦
            let up : IsNonneg kelly = ground (arith, e, laws.le_total kelly (zero_of N)) in
            rw e (
              min_of-IsNonneg _ max_usd
                  (laws.mul_nonneg _ x.portfolio_value_usd
                    (target_pct-IsNonneg max_usd x kelly up l) k)
                  h,
              min_of-le _ max_usd,
            )
      ]

  -- A higher conviction never lowers the verdict.
  pub tier_rank-verdict_tier :
      (c d : N.F) (active valid bootstrap : Bool) (rr : Option N.F) (no_comps : Bool)
      (growth : Option N.F)
      → N.le c d ≡ true
      → tier_rank (verdict_tier N c active valid bootstrap rr no_comps growth)
        ≤ tier_rank (verdict_tier N d active valid bootstrap rr no_comps growth)
  unfolding verdict_tier
  tier_rank-verdict_tier c d active valid bootstrap rr no_comps growth h =
      let up : (a : N.F) → N.le a c ≡ true → N.le a d ≡ true = λ a k. laws.le_trans a c d k h in
      ground
        (arith, up (N.lit 40 2), up (N.lit 15 2), up (N.lit 5 2), up (N.lit 6 1), up (N.lit 3 1))
