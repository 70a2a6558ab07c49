-- ===== src/Text/Strip.antt =====
-- `str.strip`, and the lines of a text file.
use automatic_trading.Text.Split.{Text, split, Lacks, split-append}
use automatic_trading.Prelude.{
  ℕ, ◌≡◌, ◌≢◌, refl, ap, ◌≤◌, Bool, true, false, ◌&&◌, ◌||◌, List, [], ◌∷◌, ◌++◌, All, arith, ◌==◌,
  leb, if◌then◌else◌, append_assoc,
}

-- The characters for which `str.isspace` holds.
unfoldable pub is_space : ℕ → Bool
is_space c =
    (leb 9 c && leb c 13)
    || (leb 28 c && leb c 32)
    || c == 133
    || c == 160
    || c == 5760
    || (leb 8192 c && leb c 8202)
    || c == 8232
    || c == 8233
    || c == 8239
    || c == 8287
    || c == 12288

unfoldable pub lstrip : Text → Text
unfolding is_space
lstrip [] = []
lstrip (x ∷ xs) = let rest = lstrip xs in if is_space x then rest else x ∷ xs

abbrev is_empty : Text → Bool
is_empty [] = true
is_empty (x ∷ xs) = false

unfoldable pub rstrip : Text → Text
unfolding is_space
rstrip [] = []
rstrip (x ∷ xs) = let rest = rstrip xs in if is_empty rest && is_space x then [] else x ∷ rest

-- s.strip()
unfoldable pub strip : Text → Text
unfolding lstrip rstrip
strip s = lstrip (rstrip s)

-- Characters that show: no spaces, no control characters.
abbrev pub Graphic : ℕ → Type 0
Graphic c = (33 ≤ c) × (c ≤ 126)

-- Those and the space.
abbrev pub Printable : ℕ → Type 0
Printable c = (32 ≤ c) × (c ≤ 126)

pub Graphic-Printable : (w : Text) → All Graphic w → All Printable w
Graphic-Printable [] h = tt
Graphic-Printable (x ∷ w) h = (omega arith, Graphic-Printable w h.1)

pub Printable-Lacks : (c : ℕ) (w : Text) → c ≤ 31 → All Printable w → Lacks c w
Printable-Lacks c [] k h = tt
Printable-Lacks c (x ∷ w) k h = (omega arith, Printable-Lacks c w k h.1)

rstrip-Graphic : (x : ℕ) (w : Text) → All Graphic (x ∷ w) → rstrip (x ∷ w) ≡ x ∷ w
unfolding rstrip
rstrip-Graphic x [] h = ground arith
rstrip-Graphic x (y ∷ w) h = rw (rstrip-Graphic y w h.1)

rstrip-append :
    (v : Text) (x : ℕ) (w : Text) → All Graphic (x ∷ w) → rstrip (v ++ x ∷ w) ≡ v ++ x ∷ w
unfolding rstrip
rstrip-append [] x w h = rstrip-Graphic x w h
rstrip-append (y ∷ []) x w h = rw (rstrip-Graphic x w h)
rstrip-append (y ∷ z ∷ v) x w h = rw (rstrip-append (z ∷ v) x w h)

-- A text that begins and ends with characters that show is left as it is.
pub strip-between :
    (a : ℕ) (v : Text) (x : ℕ) (w : Text)
    → Graphic a
    → All Graphic (x ∷ w)
    → strip (a ∷ v ++ x ∷ w) ≡ a ∷ v ++ x ∷ w
unfolding strip
strip-between a v x w g h = rw (rstrip-append (a ∷ v) x w h) (ground arith)

-- Universal newlines: "\r\n" and "\r" are read as "\n". The flag says that "\r" has just been read.
unfoldable pub newlines : Bool → Text → Text
newlines cr [] = []
newlines cr (x ∷ xs) =
    let rest = newlines (x == 13) xs in
    if x == 13 then 10 ∷ rest else if x == 10 && cr then rest else x ∷ rest

-- The pieces between line ends. The loops over a file skip blank lines, among them the empty piece
-- behind the last line end.
unfoldable pub lines : Text → List Text
unfolding newlines split
lines file = split 10 (newlines false file)

-- A file of whole lines.
unfoldable pub render : List Text → Text
render [] = []
render (w ∷ ws) = w ++ 10 ∷ render ws

pub render-append : (vs ws : List Text) → render (vs ++ ws) ≡ render vs ++ render ws
unfolding render
render-append [] ws = refl
render-append (v ∷ vs) ws = rw (render-append vs ws, append_assoc v (10 ∷ render vs) (render ws))

-- No line end.
abbrev pub InLine : ℕ → Type 0
InLine c = (c ≢ 10) × (c ≢ 13)

pub Printable-InLine : (w : Text) → All Printable w → All InLine w
Printable-InLine [] h = tt
Printable-InLine (x ∷ w) h = (omega arith, Printable-InLine w h.1)

InLine-Lacks : (w : Text) → All InLine w → Lacks 10 w
InLine-Lacks [] h = tt
InLine-Lacks (x ∷ w) h = (h.0.0, InLine-Lacks w h.1)

newlines-InLine :
    (w : Text) (rest : Text)
    → All InLine w
    → newlines false (w ++ 10 ∷ rest) ≡ w ++ 10 ∷ newlines false rest
unfolding newlines
newlines-InLine [] rest h = refl
newlines-InLine (x ∷ w) rest h = ground (arith, newlines-InLine w rest h.1)

-- Reading back whole lines.
pub lines-render : (ws : List Text) → All (All InLine) ws → lines (render ws) ≡ ws ++ [] ∷ []
unfolding lines render newlines split
lines-render [] h = refl
lines-render (w ∷ ws) h = rw (newlines-InLine w (render ws) h.0) (
    rw (split-append 10 w (newlines false (render ws)) (InLine-Lacks w h.0))
      (ap (λ r. w ∷ r) (lines-render ws h.1)))
