-- ===== src/Http/Query.antt =====
-- web/HttpMessage.hpp: `parseQuery`. A `char` is its byte; a position in the text is held as the
-- text from there on.
pub mod Decode
pub mod Pairs
pub mod Split
use camera_platform.Prelude.{
  ℕ, zero, suc, ◌+◌, ◌-◌, ◌*◌, ◌%◌, Bool, true, false, ◌&&◌, ◌||◌, Bytes, length, is_empty, drop,
  Option, none, some, [], ◌∷◌, ltb, leb, ◌==◌, if◌then◌else◌,
}
use camera_platform.Prelude.Map.{StringMap, insert}
use camera_platform.Prelude.Search.{find_byte, before}
use camera_platform.Http.Text.{is_space}

-- `std::strtol(text, nullptr, 16)`, converted to a `char`: white space, a sign, `0x`, digits.
hex_value : ℕ → Option ℕ
hex_value c =
    if leb b'0' c && leb c b'9'
    then some (c - b'0')
    else if leb b'a' c && leb c b'f'
    then some (c - 87)
    else if leb b'A' c && leb c b'F'
    then some (c - 55)
    else none

hex_digits : ℕ → Bytes → ℕ
hex_digits n [] = n
hex_digits n (c ∷ s) = elim (hex_value c) [ none ↦ n | some d ↦ hex_digits (n * 16 + d) s ]

hex_number : Bytes → ℕ
unfolding hex_digits
hex_number (z ∷ x ∷ d ∷ s) =
    if z == b'0' && (x == b'x' || x == b'X')
    then elim (hex_value d) [ none ↦ 0 | some _ ↦ hex_digits 0 (d ∷ s) ]
    else hex_digits 0 (z ∷ x ∷ d ∷ s)
hex_number s = hex_digits 0 s

-- -n, as a byte
unfoldable negated : ℕ → ℕ
negated n = (256 - n % 256) % 256

signed : Bytes → ℕ
signed [] = 0
signed (c ∷ s) =
    if c == b'-'
    then negated (hex_number s)
    else if c == b'+'
    then hex_number s % 256
    else hex_number (c ∷ s) % 256

strtol_char : Bytes → ℕ
strtol_char [] = 0
strtol_char (c ∷ s) = if is_space c then strtol_char s else signed (c ∷ s)

-- The local `decode`.
pub decode : Bytes → Bytes
decode [] = []
decode (c ∷ []) = if c == b'+' then b' ' ∷ [] else c ∷ []
decode (c ∷ h ∷ []) = let rest = decode (h ∷ []) in if c == b'+' then b' ' ∷ rest else c ∷ rest
decode (c ∷ h ∷ l ∷ s) =
    let escaped = strtol_char (h ∷ l ∷ []) ∷ decode s in
    let rest = decode (h ∷ l ∷ s) in
    if c == b'+' then b' ' ∷ rest else if c == b'%' then escaped else c ∷ rest

-- The text behind the byte found, or `otherwise`.
abbrev behind : Option ℕ → Bytes → Bytes → Bytes
behind none s otherwise = otherwise
behind (some n) s otherwise = drop (n + 1) s

-- The body of the loop for one `pair`.
pub add_pair : Bytes → StringMap Bytes → StringMap Bytes
add_pair pair result =
    if is_empty pair then result else insert (decode raw_key) (decode raw_value) result
  where
    raw_key : Bytes
    raw_key = before (find_byte b'=' pair) pair

    raw_value : Bytes
    raw_value = behind (find_byte b'=' pair) pair []

-- The loop over the pairs, on fuel; `none` means that the fuel ran out.
pub query_loop : ℕ → Bytes → StringMap Bytes → Option (StringMap Bytes)
query_loop zero query result = none
query_loop (suc fuel) query result = elim (find_byte b'&' query) [
  | none ↦ some (add_pair query result)
  | some a ↦ query_loop fuel (drop (a + 1) query) (add_pair (before (some a) query) result)
]

-- The text behind the first `?`, or all of it.
pub query_of : Bytes → Bytes
query_of target = behind (find_byte b'?' target) target target

pub parse_query : Bytes → Option (StringMap Bytes)
parse_query target =
    if is_empty (query_of target)
    then some []
    else query_loop (suc (length (query_of target))) (query_of target) []
