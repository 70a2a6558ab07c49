-- ===== src/Canonical/Decimal.antt =====
-- The decimal digits of a number.
use automatic_trading.Prelude.{
  ℕ, zero, suc, ◌+◌, ◌-◌, ◌*◌, ◌/◌, ◌%◌, ◌<◌, ◌≡◌, refl, [], ◌∷◌, ◌++◌, arith, ltb, All, All-append,
  if◌then◌else◌,
}
use automatic_trading.Text.{Text, Printable}

-- The fuel bounds the number of digits.
decimal_from : ℕ → ℕ → Text
decimal_from zero n = []
decimal_from (suc fuel) n =
    let rest = decimal_from fuel (n / 10) in
    if ltb n 10 then (48 + n) ∷ [] else rest ++ (48 + n % 10) ∷ []

unfoldable pub decimal : ℕ → Text
unfolding decimal_from
decimal n = decimal_from (suc n) n

-- The number that digits stand for, with the number read so far.
value_from : ℕ → Text → ℕ
value_from acc [] = acc
value_from acc (c ∷ s) = value_from (acc * 10 + (c - 48)) s

unfoldable pub value : Text → ℕ
unfolding value_from
value = value_from 0

value_from-snoc :
    (acc : ℕ) (s : Text) (c : ℕ) → value_from acc (s ++ c ∷ []) ≡ value_from acc s * 10 + (c - 48)
unfolding value_from
value_from-snoc acc [] c = refl
value_from-snoc acc (x ∷ s) c = value_from-snoc (acc * 10 + (x - 48)) s c

value-decimal_from : (fuel n : ℕ) → n < fuel → value_from 0 (decimal_from fuel n) ≡ n
unfolding value_from decimal_from
value-decimal_from zero n h = elim h [ ]
value-decimal_from (suc fuel) n h = ground (
  arith,
  value_from-snoc 0 (decimal_from fuel (n / 10)) (48 + n % 10),
  value-decimal_from fuel (n / 10),
)

-- Reading the digits back gives the number, so the fuel of `decimal` is enough.
pub decimal-value : (n : ℕ) → value (decimal n) ≡ n
unfolding value decimal
decimal-value n = value-decimal_from (suc n) n (omega arith)

decimal_from-Printable : (fuel n : ℕ) → All Printable (decimal_from fuel n)
unfolding decimal_from
decimal_from-Printable zero n = tt
decimal_from-Printable (suc fuel) n =
    let rest : All Printable (decimal_from fuel (n / 10) ++ (48 + n % 10) ∷ []) =
      All-append Printable (decimal_from fuel (n / 10)) _ (decimal_from-Printable fuel (n / 10))
        (omega arith) in
    ground arith

pub decimal-Printable : (n : ℕ) → All Printable (decimal n)
unfolding decimal
decimal-Printable n = decimal_from-Printable (suc n) n
