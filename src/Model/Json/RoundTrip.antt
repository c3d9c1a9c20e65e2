-- ===== src/Model/Json/RoundTrip.antt =====
-- A reader of JSON string literals, and what it makes of the output of `jsonEscape`.
use mathlib.Core.List.{flat_map}
use mathlib.Core.Option
use camera_platform.Prelude.{
  ℕ, ◌+◌, ◌-◌, ◌*◌, Bytes, Option, none, some, [], ◌∷◌, ◌++◌, append_assoc, append-nil, zero, suc,
  ltb, leb, ◌==◌, ◌&&◌, ◌||◌, if◌then◌else◌, ◌≡◌, refl, sym, arith,
}
use camera_platform.Model.Json.{
  quote, backslash, hex_digit, json_escape_byte, json_escape_onto, json_escape,
}

-- Inside a string literal: at a plain place, behind a backslash, or with digits of `\uXXXX` left
-- to read and the value so far.
data Mode : Type 0 where
  plain escaped : Mode
  unicode : ℕ → ℕ → Mode

data Next : Type 0 where
  closed refused : Next
  reads : Mode → Bytes → Next

hex_value : ℕ → Option ℕ
hex_value c =
    if leb b'0' c && leb c b'9'
    then some (c - b'0')
    else if leb b'a' c && leb c b'f'
    then some (c - 87)
    else if leb b'A' c && leb c b'F'
    then some (c - 55)
    else none

step_plain : ℕ → Next
step_plain c =
    if c == quote
    then closed
    else if c == backslash
    then reads escaped []
    else if ltb c 0x20
    then refused
    else reads plain (c ∷ [])

step_escaped : ℕ → Next
step_escaped c =
    if c == quote || c == backslash || c == b'/'
    then reads plain (c ∷ [])
    else if c == b'b'
    then reads plain (8 ∷ [])
    else if c == b'f'
    then reads plain (12 ∷ [])
    else if c == b'n'
    then reads plain (b'\n' ∷ [])
    else if c == b'r'
    then reads plain (b'\r' ∷ [])
    else if c == b't'
    then reads plain (b'\t' ∷ [])
    else if c == b'u'
    then reads (unicode 3 0) []
    else refused

-- Only code points below 0x80, which are one byte of UTF-8, are read back.
step_unicode : ℕ → ℕ → Option ℕ → Next
step_unicode left v none = refused
step_unicode (suc left) v (some d) = reads (unicode left (v * 16 + d)) []
step_unicode zero v (some d) =
    if ltb (v * 16 + d) 0x80 then reads plain ((v * 16 + d) ∷ []) else refused

step : Mode → ℕ → Next
unfolding step_plain step_escaped step_unicode hex_value
step plain c = step_plain c
step escaped c = step_escaped c
step (unicode left v) c = step_unicode left v (hex_value c)

-- The contents of the literal whose opening quote is read, and what follows its closing quote.
read : Mode → Bytes → Option (Bytes × Bytes)
read m [] = none
read m (c ∷ s) = elim (step m c) [
  | closed ↦ some ([], s)
  | refused ↦ none
  | reads m' out ↦ Option.map (λ r. (out ++ r.0, r.1)) (read m' s)
]

pub read_literal : Bytes → Option (Bytes × Bytes)
read_literal = read plain

json_escape_onto-flat_map :
    (s out : Bytes) → json_escape_onto out s ≡ out ++ flat_map json_escape_byte s
unfolding json_escape_onto flat_map
json_escape_onto-flat_map [] out = sym (append-nil out)
json_escape_onto-flat_map (c ∷ s) out = simp (json_escape_onto-flat_map s, append_assoc)

pub json_escape-flat_map : (s : Bytes) → json_escape s ≡ flat_map json_escape_byte s
unfolding json_escape
json_escape-flat_map s = json_escape_onto-flat_map s []

read-json_escape_byte :
    (c : ℕ) (s : Bytes)
    → read plain (json_escape_byte c ++ s)
      ≡ Option.map (λ (r : Bytes × Bytes). (c ∷ r.0, r.1)) (read plain s)
unfolding read step json_escape_byte hex_digit
read-json_escape_byte c s = ground arith

-- what `read` makes of a whole escaped text
read-flat_map :
    (s rest : Bytes) → read plain (flat_map json_escape_byte s ++ quote ∷ rest) ≡ some (s, rest)
unfolding flat_map
read-flat_map [] rest = unfold read step in refl
read-flat_map (c ∷ s) rest = simp (append_assoc, read-json_escape_byte, read-flat_map s rest)

-- Behind an opening quote, an escaped text and a closing quote are read back by a JSON reader as the
-- text, and whatever follows is left over: no text can end its literal early.
pub read_literal-json_escape :
    (s rest : Bytes) → read_literal (json_escape s ++ quote ∷ rest) ≡ some (s, rest)
unfolding read_literal
read_literal-json_escape s rest = rw json_escape-flat_map (read-flat_map s rest)
