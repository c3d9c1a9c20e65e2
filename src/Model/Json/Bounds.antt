-- ===== src/Model/Json/Bounds.antt =====
-- What `jsonEscape` writes, byte by byte.
use mathlib.Core.List.{flat_map}
use camera_platform.Prelude.{
  ℕ, ◌*◌, ◌≤◌, Bytes, [], ◌∷◌, length, length-append, All, All-append, arith,
}
use camera_platform.Model.Json.{json_escape_byte, json_escape, hex_digit}
use camera_platform.Model.Json.RoundTrip.{json_escape-flat_map}

-- No control characters, and between one byte and six for each.
abbrev pub Escaped : Bytes → Bytes → Type 0
Escaped s out = All (λ c. 0x20 ≤ c) out × (length s ≤ length out) × (length out ≤ 6 * length s)

json_escape_byte-Escaped : (c : ℕ) → Escaped (c ∷ []) (json_escape_byte c)
unfolding json_escape_byte hex_digit
json_escape_byte-Escaped c = ground arith

flat_map-Escaped : (s : Bytes) → Escaped s (flat_map json_escape_byte s)
unfolding flat_map
flat_map-Escaped [] = (tt, omega arith, omega arith)
flat_map-Escaped (c ∷ s) =
    let first = json_escape_byte-Escaped c in
    let rest = flat_map-Escaped s in
    let sum = length-append (json_escape_byte c) (flat_map json_escape_byte s) in
    (
      All-append (λ c. 0x20 ≤ c) (json_escape_byte c) (flat_map json_escape_byte s) first.0 rest.0,
      omega (arith, sum, first.1, rest.1),
      omega (arith, sum, first.2, rest.2),
    )

-- What `jsonEscape` writes has no control character, and is no shorter than the text and at most six
-- times as long, whatever the bytes of the text are.
pub json_escape-Escaped : (s : Bytes) → Escaped s (json_escape s)
json_escape-Escaped s = rw json_escape-flat_map (flat_map-Escaped s)
