-- ===== src/Sizing/Conviction.antt =====
-- compute_conviction of pmacs/engines/conviction.py, and what it says of a bearish signal. The power
-- `** 0.7` of Python's floats is an argument.
use automatic_trading.Prelude.{
  ℕ, Bool, true, false, ◌≡◌, ◌≢◌, [], ◌∷◌, Option, All, arith, if◌then◌else◌,
}
use automatic_trading.Float.{Num, NumLaws, zero_of}
use automatic_trading.Sizing.{min_of, max_of, strong_buy, buy, verdict_tier}

module _ (N : Num) (pow_07 : N.F → N.F) where
  unfoldable pub maturity_factor : Bool → ℕ → N.F
  maturity_factor is_bootstrap matured_sources_used =
      if is_bootstrap
      then N.lit 1 0
      else max_of N (N.lit 25 2)
          (min_of N (N.div (N.lit matured_sources_used 0) (N.lit 4 0)) (N.lit 1 0))

  unfoldable pub crucible_factor : N.F → N.F
  crucible_factor crucible_severity =
      let effective_severity =
        if N.le crucible_severity (N.lit 50 2)
        then crucible_severity
        else pow_07 crucible_severity in
      max_of N (zero_of N) (N.sub (N.lit 1 0) effective_severity)

  unfoldable pub ev_factor : N.F → N.F
  ev_factor ev_multiple =
      max_of N (zero_of N) (min_of N (N.div ev_multiple (N.lit 15 1)) (N.lit 1 0))

  -- compute_conviction(arb, crucible_severity, ev_multiple, is_bootstrap), for the fields of `arb`.
  unfoldable pub compute_conviction : (p_up p_down : N.F) → ℕ → N.F → N.F → Bool → N.F
  unfolding maturity_factor crucible_factor ev_factor
  compute_conviction p_up p_down matured_sources_used crucible_severity ev_multiple is_bootstrap =
      let conviction =
        N.mul
          (N.mul (N.mul (N.sub p_up p_down) (maturity_factor is_bootstrap matured_sources_used))
            (crucible_factor crucible_severity))
          (ev_factor ev_multiple) in
      max_of N (N.sub (zero_of N) (N.lit 1 0)) (min_of N conviction (N.lit 1 0))

  module _ (laws : NumLaws N) where
    max_of-AtLeast :
        (a b : N.F) → N.le (zero_of N) a ≡ true → N.le (zero_of N) (max_of N a b) ≡ true
    max_of-AtLeast a b h =
        ground (arith, h, laws.lt_not_le a b, laws.le_total a b, laws.le_trans (zero_of N) a b)

    maturity_factor-AtLeast : (b : Bool) (n : ℕ) → N.le (zero_of N) (maturity_factor b n) ≡ true
    unfolding maturity_factor
    maturity_factor-AtLeast true n = laws.lit_nonneg 1 0
    maturity_factor-AtLeast false n = max_of-AtLeast (N.lit 25 2) _ (laws.lit_nonneg 25 2)

    -- A value that is not positive stays so between -1 and 1.
    clamped :
        (c : N.F)
        → N.le c (zero_of N) ≡ true
        → N.le (max_of N (N.sub (zero_of N) (N.lit 1 0)) (min_of N c (N.lit 1 0))) (zero_of N)
          ≡ true
    clamped c h =
        let one = N.lit 1 0 in
        ground (
          arith,
          h,
          laws.lt_not_le one c,
          laws.le_trans c (zero_of N) one h (laws.lit_nonneg 1 0),
          laws.sub_nonpos (zero_of N) one (laws.lit_nonneg 1 0),
        )

    compute_conviction-bearish :
        (p_up p_down : N.F) (n : ℕ) (severity ev : N.F) (b : Bool)
        → N.le p_up p_down ≡ true
        → N.le (compute_conviction p_up p_down n severity ev b) (zero_of N) ≡ true
    unfolding compute_conviction crucible_factor ev_factor
    compute_conviction-bearish p_up p_down n severity ev b h = clamped _ (
        laws.mul_nonpos _ _
          (laws.mul_nonpos _ _
            (laws.mul_nonpos _ _ (laws.sub_nonpos p_up p_down h) (maturity_factor-AtLeast b n))
            (max_of-AtLeast (zero_of N) _ (laws.le_refl (zero_of N))))
          (max_of-AtLeast (zero_of N) _ (laws.le_refl (zero_of N))))

    below : (t c : N.F) → N.le t (zero_of N) ≡ false → N.le c (zero_of N) ≡ true → N.le t c ≡ false
    below t c h low = ground (arith, h, low, laws.le_trans t c (zero_of N))

    verdict_tier-low :
        (c : N.F) (is_active thesis_valid is_bootstrap : Bool) (rr_ratio : Option N.F)
        (no_comps : Bool) (growth_pct : Option N.F)
        → N.le (N.lit 15 2) c ≡ false
        → N.le (N.lit 40 2) c ≡ false
        → N.le (N.lit 3 1) c ≡ false
        → N.le (N.lit 6 1) c ≡ false
        → let tier =
            verdict_tier N c is_active thesis_valid is_bootstrap rr_ratio no_comps growth_pct in
          (tier ≢ buy) × (tier ≢ strong_buy)
    unfolding verdict_tier
    verdict_tier-low c is_active thesis_valid is_bootstrap rr_ratio no_comps growth_pct h1 h2 h3
          h4 =
        ((λ e. ground (arith, e, h1, h2, h3, h4)), λ e. ground (arith, e, h1, h2, h3, h4))

    -- A price that is not more likely to rise than to fall never gets the verdict to buy, whatever the
    -- severity, the expected value and the sources: the verdict is neither BUY nor STRONG_BUY. The
    -- literals of the thresholds are assumed to be above zero.
    pub verdict_tier-compute_conviction :
        (p_up p_down : N.F) (n : ℕ) (severity ev : N.F) (is_active thesis_valid is_bootstrap : Bool)
        (rr_ratio : Option N.F) (no_comps : Bool) (growth_pct : Option N.F)
        → All
            (λ t. N.le t (zero_of N) ≡ false)
            (N.lit 15 2 ∷ N.lit 40 2 ∷ N.lit 3 1 ∷ N.lit 6 1 ∷ [])
        → N.le p_up p_down ≡ true
        → let tier =
            verdict_tier N
              (compute_conviction p_up p_down n severity ev is_bootstrap)
              is_active
              thesis_valid
              is_bootstrap
              rr_ratio
              no_comps
              growth_pct in
          (tier ≢ buy) × (tier ≢ strong_buy)
    verdict_tier-compute_conviction p_up p_down n severity ev is_active thesis_valid is_bootstrap
          rr_ratio no_comps growth_pct (t15, (t40, (t30, (t60, _)))) h =
        let c = compute_conviction p_up p_down n severity ev is_bootstrap in
        let low = compute_conviction-bearish p_up p_down n severity ev is_bootstrap h in
        verdict_tier-low c is_active thesis_valid is_bootstrap rr_ratio no_comps growth_pct
          (below (N.lit 15 2) c t15 low) (below (N.lit 40 2) c t40 low)
          (below (N.lit 3 1) c t30 low) (below (N.lit 6 1) c t60 low)
