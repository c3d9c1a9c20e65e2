-- ===== src/Model/Json.antt =====
-- model/JsonUtil.hpp: `jsonEscape`, over the bytes of a `std::string`.
pub mod Bounds
pub mod RoundTrip
pub mod Object
use camera_platform.Prelude.{ℕ, ◌+◌, ◌/◌, ◌%◌, Bytes, [], ◌∷◌, ◌++◌, ltb, ◌==◌, if◌then◌else◌}

abbrev pub quote : ℕ
quote = b'"'

abbrev pub backslash : ℕ
backslash = b'\\'

-- `hexDigits[n]`, for `n < 16`.
hex_digit : ℕ → ℕ
hex_digit n = if ltb n 10 then b'0' + n else 87 + n

-- What one round of the loop appends to `out`.
pub json_escape_byte : ℕ → Bytes
unfolding hex_digit
json_escape_byte c =
    if c == quote
    then backslash ∷ quote ∷ []
    else if c == backslash
    then backslash ∷ backslash ∷ []
    else if c == 8
    then backslash ∷ b'b' ∷ []
    else if c == 12
    then backslash ∷ b'f' ∷ []
    else if c == b'\n'
    then backslash ∷ b'n' ∷ []
    else if c == b'\r'
    then backslash ∷ b'r' ∷ []
    else if c == b'\t'
    then backslash ∷ b't' ∷ []
    else if ltb c 0x20
    then backslash ∷ b'u' ∷ b'0' ∷ b'0' ∷ hex_digit (c / 16 % 16) ∷ hex_digit (c % 16) ∷ []
    else c ∷ []

json_escape_onto : Bytes → Bytes → Bytes
json_escape_onto out [] = out
json_escape_onto out (c ∷ s) = json_escape_onto (out ++ json_escape_byte c) s

unfoldable pub json_escape : Bytes → Bytes
unfolding json_escape_onto json_escape_byte
json_escape = json_escape_onto []
