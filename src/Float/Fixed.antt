-- ===== src/Float/Fixed.antt =====
-- An instance of the float interface: integers in units of 0.0001, rounded towards zero. It shows that
-- the assumed laws can hold together, and it runs.
use automatic_trading.Prelude.{
  ℕ, suc, ◌+◌, ◌-◌, ◌*◌, ◌/◌, ◌^◌, ◌≡◌, refl, Bool, true, not, arith, leb, if◌then◌else◌,
}
use automatic_trading.Float.{Num, NumLaws}

-- `negsuc n` is -(n + 1).
pub data ℤ : Type 0 where
  pos : ℕ → ℤ
  negsuc : ℕ → ℤ

abbrev pub pos_part : ℤ → ℕ
pos_part (pos n) = n
pos_part (negsuc n) = 0

abbrev pub neg_part : ℤ → ℕ
neg_part (pos n) = 0
neg_part (negsuc n) = suc n

-- a - b, as an integer.
abbrev pub sub_ℕ : ℕ → ℕ → ℤ
sub_ℕ a b = if leb b a then pos (a - b) else negsuc (b - a - 1)

infixl 65 ◌+ℤ◌ ◌-ℤ◌
unfoldable pub ◌+ℤ◌ : ℤ → ℤ → ℤ
a +ℤ b = sub_ℕ (pos_part a + pos_part b) (neg_part a + neg_part b)

unfoldable pub ◌-ℤ◌ : ℤ → ℤ → ℤ
a -ℤ b = sub_ℕ (pos_part a + neg_part b) (neg_part a + pos_part b)

-- Multiplication and division act on the two parts of each factor, of which one is 0.
unfoldable pub times : ℤ → ℤ → ℤ
times a b =
    sub_ℕ ((pos_part a * pos_part b + neg_part a * neg_part b) / 10000)
      ((pos_part a * neg_part b + neg_part a * pos_part b) / 10000)

unfoldable pub over : ℤ → ℤ → ℤ
over a (pos b) = sub_ℕ (pos_part a * 10000 / b) (neg_part a * 10000 / b)
over a (negsuc b) = sub_ℕ (neg_part a * 10000 / suc b) (pos_part a * 10000 / suc b)

unfoldable pub absolute : ℤ → ℤ
absolute a = pos (pos_part a + neg_part a)

unfoldable pub to_cents : ℤ → ℤ
to_cents a = sub_ℕ ((pos_part a + 50) / 100 * 100) ((neg_part a + 50) / 100 * 100)

abbrev pub leb_ℤ : ℤ → ℤ → Bool
leb_ℤ a b = leb (pos_part a + neg_part b) (pos_part b + neg_part a)

abbrev pub fixed : Num
fixed = record {
  F = ℤ;
  lit = λ m d. pos (m * 10000 / 10 ^ d);
  add = ◌+ℤ◌;
  sub = ◌-ℤ◌;
  mul = times;
  div = over;
  abs = absolute;
  round2 = to_cents;
  round6 = λ a. a;
  le = leb_ℤ;
  lt = λ a b. not (leb_ℤ b a);
}

times_nonneg :
    (a b : ℤ) → leb_ℤ (pos 0) a ≡ true → leb_ℤ (pos 0) b ≡ true → leb_ℤ (pos 0) (times a b) ≡ true
unfolding times
times_nonneg (pos a) (pos b) h k = ground arith
times_nonneg (pos a) (negsuc b) h k = ground arith
times_nonneg (negsuc a) b h k = ground arith

times_nonpos :
    (a b : ℤ) → leb_ℤ a (pos 0) ≡ true → leb_ℤ (pos 0) b ≡ true → leb_ℤ (times a b) (pos 0) ≡ true
unfolding times
times_nonpos (pos a) (pos b) h k = ground arith
times_nonpos (pos a) (negsuc b) h k = ground arith
times_nonpos (negsuc a) b h k = ground arith

pub fixed_laws : NumLaws fixed
unfolding ◌+ℤ◌ ◌-ℤ◌ absolute
fixed_laws = record {
  le_refl = λ a. ground arith;
  le_trans = λ a b c h k. ground arith;
  le_total = λ a b. ground arith;
  lt_not_le = λ a b. refl;
  lit_nonneg = λ m d. ground arith;
  sub_nonneg = λ a b h. ground arith;
  sub_self = λ a. ground arith;
  abs_zero = refl;
  add_nonneg = λ a b h k. ground arith;
  mul_nonneg = times_nonneg;
  sub_nonpos = λ a b h. ground arith;
  mul_nonpos = times_nonpos;
}
