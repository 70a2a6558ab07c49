-- ===== src/Audit/Toy.antt =====
-- A toy hash of 64 equal digits, for running the definitions and applying the theorems.
use automatic_trading.Prelude.{
  ℕ, zero, suc, ◌+◌, ◌%◌, ◌≡◌, refl, inl, [], ◌∷◌, All, length, none, arith,
}
use automatic_trading.Text.{Text}
use automatic_trading.Audit.{Disk}
use automatic_trading.Audit.Verified.{IsHexDigit, IsHexdigest}

unfoldable pub repeat : ℕ → ℕ → Text
repeat zero c = []
repeat (suc n) c = c ∷ repeat n c

unfoldable pub total : Text → ℕ
total [] = 0
total (c ∷ s) = c + total s

abbrev pub toy_digest : Text → Text
unfolding repeat total
toy_digest s = repeat 64 (49 + total s % 9)

length-repeat : (n c : ℕ) → length (repeat n c) ≡ n
unfolding repeat
length-repeat zero c = refl
length-repeat (suc n) c = omega (arith, length-repeat n c)

repeat-hex : (n c : ℕ) → IsHexDigit c → All IsHexDigit (repeat n c)
unfolding repeat
repeat-hex zero c h = tt
repeat-hex (suc n) c h = (h, repeat-hex n c h)

pub toy_law : IsHexdigest toy_digest
unfolding toy_digest
toy_law = record {
  long = λ s. length-repeat 64 (49 + total s % 9);
  hex = λ s. repeat-hex 64 (49 + total s % 9) (inl (omega arith));
}

abbrev pub no_log : Disk
no_log = record { log = none; rotated = λ i. none }
