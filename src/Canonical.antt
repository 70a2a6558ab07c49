-- ===== src/Canonical.antt =====
-- pmacs/data/canonical.py: the canonical JSON that the audit chain hashes. `json.dumps` is called
-- with sorted keys, compact separators and its default ASCII escapes; payloads are flat dicts.
-- Floats are left out: none of the payloads modelled here holds one.
mod Decimal
pub mod Printed
unfoldable pub use Decimal.{decimal, value}
pub use Decimal.{decimal-value, decimal-Printable}
use automatic_trading.Prelude.{
  ℕ, ◌+◌, ◌-◌, ◌≡◌, refl, ◌/◌, ◌%◌, ◌≤◌, ◌<◌, Bool, true, false, ◌&&◌, List, [], ◌∷◌, ◌++◌, Option,
  none, some, ◌==◌, leb, ltb, if◌then◌else◌, String, map,
}
use automatic_trading.Text.{Text, codes}

-- What a payload's field may hold. A date or datetime is given by its `isoformat()`, an enum member
-- by its `value`; `unsupported` is any other object.
pub data Value : Type 0 where
  null : Value
  boolean : Bool → Value
  integer : ℕ → Value
  text : Text → Value
  moment : Text → Value
  member : Text → Value
  unsupported : Value

-- A dict with string keys, in insertion order.
abbrev pub Payload : Type 0
Payload = List (Text × Value)

hex_digit : ℕ → ℕ
hex_digit d = if ltb d 10 then 48 + d else 87 + d

-- '\\u{0:04x}'
hex_escape : ℕ → Text
hex_escape n =
    92
    ∷ 117
    ∷ hex_digit (n / 4096 % 16)
    ∷ hex_digit (n / 256 % 16)
    ∷ hex_digit (n / 16 % 16)
    ∷ hex_digit (n % 16)
    ∷ []

-- Surrogate pairs above the basic plane.
escape_wide : ℕ → Text
escape_wide c =
    if ltb c 65536
    then hex_escape c
    else hex_escape (55296 + (c - 65536) / 1024 % 1024) ++ hex_escape (56320 + (c - 65536) % 1024)

-- The encoder's escape of one character.
escape : ℕ → Text
escape c =
    if c == 34
    then 92 ∷ 34 ∷ []
    else if c == 92
    then 92 ∷ 92 ∷ []
    else if c == 10
    then 92 ∷ 110 ∷ []
    else if c == 13
    then 92 ∷ 114 ∷ []
    else if c == 9
    then 92 ∷ 116 ∷ []
    else if c == 12
    then 92 ∷ 102 ∷ []
    else if c == 8
    then 92 ∷ 98 ∷ []
    else if leb 32 c && leb c 126
    then c ∷ []
    else escape_wide c

escapes : Text → Text
unfolding escape escape_wide hex_escape hex_digit
escapes [] = []
escapes (c ∷ s) = escape c ++ escapes s

quote : Text → Text
unfolding escapes
quote s = 34 ∷ escapes s ++ 34 ∷ []

-- A value's text, `none` for the TypeError of `_default`.
unfoldable pub encode : Value → Option Text
unfolding quote decimal
encode null = some (codes "null")
encode (boolean true) = some (codes "true")
encode (boolean false) = some (codes "false")
encode (integer n) = some (decimal n)
encode (text s) = some (quote s)
encode (moment s) = some (quote s)
encode (member s) = some (quote s)
encode unsupported = none

-- s <= t for Python strings.
text_le : Text → Text → Bool
text_le [] t = true
text_le (x ∷ s) [] = false
text_le (x ∷ s) (y ∷ t) = let rest = text_le s t in if x == y then rest else ltb x y

insert_field : Text × Value → Payload → Payload
unfolding text_le
insert_field f [] = f ∷ []
insert_field (k, v) ((j, w) ∷ fields) =
    let rest = insert_field (k, v) fields in
    if text_le k j then (k, v) ∷ (j, w) ∷ fields else (j, w) ∷ rest

unfoldable pub sort_keys : Payload → Payload
unfolding insert_field
sort_keys [] = []
sort_keys (f ∷ fields) = insert_field f (sort_keys fields)

abbrev both : Option Text → Option Text → Option Text
both (some s) (some t) = some (s ++ t)
both _ _ = none

-- `"key":value`, and the separator before what follows.
encode_fields : Payload → Option Text
unfolding encode quote
encode_fields [] = some (codes "}")
encode_fields ((k, v) ∷ []) =
    both (some (quote k ++ codes ":")) (both (encode v) (some (codes "}")))
encode_fields ((k, v) ∷ f ∷ fields) =
    both (some (quote k ++ codes ":"))
      (both (both (encode v) (some (codes ","))) (encode_fields (f ∷ fields)))

-- canonical_json(payload)
unfoldable pub canonical_json : Payload → Option Text
unfolding encode_fields sort_keys
canonical_json payload = both (some (codes "{")) (encode_fields (sort_keys payload))

sorted_and_compact :
    ◌≡◌
      (canonical_json
        ((codes "b", text (codes "x\"y")) ∷ (codes "a", integer 120) ∷ (codes "c", null) ∷ []))
      (some (codes "{\"a\":120,\"b\":\"x\\\"y\",\"c\":null}"))
unfolding canonical_json
sorted_and_compact = refl
