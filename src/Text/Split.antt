-- ===== src/Text/Split.antt =====
-- `str.split` by one character, equality of texts, and the code points of a literal.
use Prim.Native.Char.{code}
use Prim.Native.String.{String}
use automatic_trading.Prelude.{
  ℕ, ◌≡◌, refl, ◌↔◌, ◌≢◌, Bool, true, false, ◌&&◌, List, [], ◌∷◌, ◌++◌, All, arith, ◌==◌,
  if◌then◌else◌,
}

abbrev pub Text : Type 0
Text = List ℕ

abbrev pub codes : String → Text
codes String.[] = []
codes (String.◌∷◌ c s) = code c ∷ codes s

-- The first piece grows at its front.
abbrev pub onto_first : ℕ → List Text → List Text
onto_first x [] = (x ∷ []) ∷ []
onto_first x (w ∷ ws) = (x ∷ w) ∷ ws

-- s.split(c)
unfoldable pub split : ℕ → Text → List Text
split c [] = [] ∷ []
split c (x ∷ xs) = let rest = split c xs in if x == c then [] ∷ rest else onto_first x rest

-- The character occurs nowhere in the text.
abbrev pub Lacks : ℕ → Text → Type 0
Lacks c = All λ x. x ≢ c

pub split-append : (c : ℕ) (w rest : Text) → Lacks c w → split c (w ++ c ∷ rest) ≡ w ∷ split c rest
unfolding split
split-append c [] rest h = ground arith
split-append c (x ∷ w) rest h = ground (arith, split-append c w rest h.1)

pub split-Lacks : (c : ℕ) (w : Text) → Lacks c w → split c w ≡ w ∷ []
unfolding split
split-Lacks c [] h = refl
split-Lacks c (x ∷ w) h = ground (arith, split-Lacks c w h.1)

unfoldable pub text_eq : Text → Text → Bool
text_eq [] [] = true
text_eq [] (y ∷ ys) = false
text_eq (x ∷ xs) [] = false
text_eq (x ∷ xs) (y ∷ ys) = x == y && text_eq xs ys

pub text_eq_iff : (s t : Text) → (text_eq s t ≡ true) ↔ (s ≡ t)
unfolding text_eq
text_eq_iff [] [] = ground arith
text_eq_iff [] (y ∷ ys) = ground arith
text_eq_iff (x ∷ xs) [] = ground arith
text_eq_iff (x ∷ xs) (y ∷ ys) = ground (arith, text_eq_iff xs ys)

pub text_eq_refl : (s : Text) → text_eq s s ≡ true
text_eq_refl s = (text_eq_iff s s).1 refl
