-- ===== src/Float.antt =====
-- Python's floats, which the program computes with and does not implement: a record of the operations
-- that it calls, and a record of what IEEE 754 promises of them. Values are finite: NaN and infinity
-- are outside the model. `Float.Fixed` is an instance with four decimals.
pub mod Fixed
use automatic_trading.Prelude.{ℕ, ◌≡◌, ◌⊎◌, Bool, true, not, List, [], ◌∷◌}

pub record Num : Type 1 where
  pub F : Type 0
  -- The literal m / 10^d.
  pub lit : ℕ → ℕ → F
  pub add : F → F → F
  pub sub : F → F → F
  pub mul : F → F → F
  pub div : F → F → F
  pub abs : F → F
  -- round(x, 2)
  pub round2 : F → F
  -- round(x, 6)
  pub round6 : F → F
  pub le : F → F → Bool
  pub lt : F → F → Bool

abbrev pub zero_of : (N : Num) → N.F
zero_of N = N.lit 0 0

-- sum(xs), from the left. CPython 3.12 and later also compensate the rounding, which is not modelled.
abbrev pub sum_from : (N : Num) → N.F → List N.F → N.F
sum_from N acc [] = acc
sum_from N acc (x ∷ xs) = sum_from N (N.add acc x) xs

pub record NumLaws (N : Num) : Type 0 where
  pub le_refl : (a : N.F) → N.le a a ≡ true
  pub le_trans : (a b c : N.F) → N.le a b ≡ true → N.le b c ≡ true → N.le a c ≡ true
  pub le_total : (a b : N.F) → (N.le a b ≡ true) ⊎ (N.le b a ≡ true)
  pub lt_not_le : (a b : N.F) → N.lt a b ≡ not (N.le b a)
  pub lit_nonneg : (m d : ℕ) → N.le (N.lit 0 0) (N.lit m d) ≡ true
  pub sub_nonneg : (a b : N.F) → N.le b a ≡ true → N.le (N.lit 0 0) (N.sub a b) ≡ true
  pub sub_self : (a : N.F) → N.sub a a ≡ N.lit 0 0
  pub abs_zero : N.abs (N.lit 0 0) ≡ N.lit 0 0
  pub add_nonneg :
      (a b : N.F)
      → N.le (N.lit 0 0) a ≡ true
      → N.le (N.lit 0 0) b ≡ true
      → N.le (N.lit 0 0) (N.add a b) ≡ true
  pub mul_nonneg :
      (a b : N.F)
      → N.le (N.lit 0 0) a ≡ true
      → N.le (N.lit 0 0) b ≡ true
      → N.le (N.lit 0 0) (N.mul a b) ≡ true
  pub sub_nonpos : (a b : N.F) → N.le a b ≡ true → N.le (N.sub a b) (N.lit 0 0) ≡ true
  pub mul_nonpos :
      (a b : N.F)
      → N.le a (N.lit 0 0) ≡ true
      → N.le (N.lit 0 0) b ≡ true
      → N.le (N.mul a b) (N.lit 0 0) ≡ true
