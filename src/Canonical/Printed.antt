-- ===== src/Canonical/Printed.antt =====
-- The characters of canonical JSON.
use automatic_trading.Prelude.{
  ℕ, ◌/◌, ◌%◌, ◌<◌, ◌≡◌, ◌-◌, ◌+◌, subst, true, false, [], ◌∷◌, ◌++◌, All, All-append, Option, none,
  some, arith,
}
use automatic_trading.Text.{Text, Printable}
use automatic_trading.Canonical.{
  Value, null, boolean, integer, text, moment, member, unsupported, Payload, hex_digit, hex_escape,
  escape_wide, escape, escapes, quote, encode, encode_fields, both, sort_keys, canonical_json,
  decimal-Printable,
}

hex_digit-Printable : (d : ℕ) → d < 16 → Printable (hex_digit d)
unfolding hex_digit
hex_digit-Printable d h = ground arith

hex_escape-Printable : (n : ℕ) → All Printable (hex_escape n)
unfolding hex_escape
hex_escape-Printable n = ground (
  arith,
  hex_digit-Printable (n / 4096 % 16),
  hex_digit-Printable (n / 256 % 16),
  hex_digit-Printable (n / 16 % 16),
  hex_digit-Printable (n % 16),
)

escape_wide-Printable : (c : ℕ) → All Printable (escape_wide c)
unfolding escape_wide
escape_wide-Printable c =
    let low = 56320 + (c - 65536) % 1024 in
    let high = 55296 + (c - 65536) / 1024 % 1024 in
    ground (
      arith,
      hex_escape-Printable c,
      All-append Printable (hex_escape high) (hex_escape low) (hex_escape-Printable high)
          (hex_escape-Printable low),
    )

escape-Printable : (c : ℕ) → All Printable (escape c)
unfolding escape
escape-Printable c = ground (arith, escape_wide-Printable c)

escapes-Printable : (s : Text) → All Printable (escapes s)
unfolding escapes
escapes-Printable [] = tt
escapes-Printable (c ∷ s) =
    All-append Printable (escape c) (escapes s) (escape-Printable c) (escapes-Printable s)

quote-Printable : (s : Text) → All Printable (quote s)
unfolding quote
quote-Printable s =
    (omega arith, All-append Printable (escapes s) (34 ∷ []) (escapes-Printable s) (omega arith))

-- The text is printable, if there is one.
abbrev pub Shows : Option Text → Type 0
Shows none = Unit {0}
Shows (some s) = All Printable s

both-Shows : (a b : Option Text) → Shows a → Shows b → Shows (both a b)
both-Shows none b h k = tt
both-Shows (some s) none h k = tt
both-Shows (some s) (some t) h k = All-append Printable s t h k

encode-Shows : (v : Value) → Shows (encode v)
unfolding encode
encode-Shows null = omega arith
encode-Shows (boolean true) = omega arith
encode-Shows (boolean false) = omega arith
encode-Shows (integer n) = decimal-Printable n
encode-Shows (text s) = quote-Printable s
encode-Shows (moment s) = quote-Printable s
encode-Shows (member s) = quote-Printable s
encode-Shows unsupported = tt

key-Printable : (k : Text) → All Printable (quote k ++ 58 ∷ [])
key-Printable k = All-append Printable (quote k) (58 ∷ []) (quote-Printable k) (omega arith)

encode_fields-Shows : (fields : Payload) → Shows (encode_fields fields)
unfolding encode_fields
encode_fields-Shows [] = omega arith
encode_fields-Shows ((k, v) ∷ []) =
    both-Shows (some (quote k ++ 58 ∷ [])) (both (encode v) (some (125 ∷ []))) (key-Printable k)
      (both-Shows (encode v) (some (125 ∷ [])) (encode-Shows v) (omega arith))
encode_fields-Shows ((k, v) ∷ f ∷ fields) =
    both-Shows (some (quote k ++ 58 ∷ []))
      (both (both (encode v) (some (44 ∷ []))) (encode_fields (f ∷ fields))) (key-Printable k)
      (both-Shows (both (encode v) (some (44 ∷ []))) (encode_fields (f ∷ fields))
        (both-Shows (encode v) (some (44 ∷ [])) (encode-Shows v) (omega arith))
        (encode_fields-Shows (f ∷ fields)))

-- Canonical JSON is printable ASCII, whatever the payload's texts hold: no tab, line end or other
-- control character of a payload reaches the log.
pub canonical_json-Printable :
    (payload : Payload) (s : Text) → canonical_json payload ≡ some s → All Printable s
unfolding canonical_json
canonical_json-Printable payload s h = subst Shows h (
    both-Shows (some (123 ∷ [])) (encode_fields (sort_keys payload)) (omega arith)
      (encode_fields-Shows (sort_keys payload)))
