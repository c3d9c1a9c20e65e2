-- ===== src/Http/Query/Decode.antt =====
-- What `decode` makes of percent-encoded text.
use camera_platform.Prelude.{
  ℕ, ◌+◌, ◌*◌, ◌≤◌, ◌<◌, Bytes, false, some, [], ◌∷◌, ◌≡◌, ◌≢◌, ◌⊎◌, refl, ◌∙◌, arith,
}
use camera_platform.Http.Text.{is_space}
use camera_platform.Http.Query.{hex_value, hex_number, signed, strtol_char, decode}

-- The byte `h` is a hexadecimal digit, in either case, and `a` is its value.
abbrev pub IsHex : ℕ → ℕ → Type 0
IsHex h a =
    ((a < 10) × (h ≡ 48 + a))
    ⊎ ((10 ≤ a) × (a < 16) × (h ≡ 87 + a))
    ⊎ ((10 ≤ a) × (a < 16) × (h ≡ 55 + a))

-- The text `e` encodes the bytes `s` as a form does: a space is `+`, and every byte but `+` and `%`
-- may stand for itself and every byte may be `%` and two hexadecimal digits.
pub data Encodes : Bytes → Bytes → Type 0 where
  nil : Encodes [] []
  plain : {c : ℕ} {e s : Bytes} → c ≢ b'+' → c ≢ b'%' → Encodes e s → Encodes (c ∷ e) (c ∷ s)
  space : {p c : ℕ} {e s : Bytes} → p ≡ b'+' → c ≡ b' ' → Encodes e s → Encodes (p ∷ e) (c ∷ s)
  percent :
      {p h l c : ℕ} {e s : Bytes} (a b : ℕ)
      → p ≡ b'%'
      → IsHex h a
      → IsHex l b
      → c ≡ 16 * a + b
      → Encodes e s
      → Encodes (p ∷ h ∷ l ∷ e) (c ∷ s)

decode_plain : (c : ℕ) (e : Bytes) → c ≢ b'+' → c ≢ b'%' → decode (c ∷ e) ≡ c ∷ decode e
unfolding decode
decode_plain c [] h k = ground arith
decode_plain c (x ∷ []) h k = ground arith
decode_plain c (x ∷ y ∷ e) h k = ground arith

decode_space : (c : ℕ) (e : Bytes) → c ≡ b'+' → decode (c ∷ e) ≡ b' ' ∷ decode e
unfolding decode
decode_space c [] h = ground arith
decode_space c (x ∷ []) h = ground arith
decode_space c (x ∷ y ∷ e) h = ground arith

hex_value-IsHex : (h a : ℕ) → IsHex h a → hex_value h ≡ some a
unfolding hex_value
hex_value-IsHex h a p = ground arith

IsHex-ne : (h a : ℕ) → IsHex h a → (is_space h ≡ false) × (h ≢ b'-') × (h ≢ b'+')
unfolding is_space
IsHex-ne h a p = ground arith

-- with `hex_value` shut
hex_number-IsHex :
    (h l a b : ℕ)
    → hex_value h ≡ some a
    → hex_value l ≡ some b
    → hex_number (h ∷ l ∷ []) ≡ a * 16 + b
unfolding hex_number
hex_number-IsHex h l a b p q = ground arith

IsHex-lt : (h a : ℕ) → IsHex h a → a < 16
IsHex-lt h a p = omega arith

strtol_char-IsHex : (h l a b : ℕ) → IsHex h a → IsHex l b → strtol_char (h ∷ l ∷ []) ≡ 16 * a + b
unfolding strtol_char signed
strtol_char-IsHex h l a b p q = ground (
  arith,
  IsHex-ne h a p,
  IsHex-lt h a p,
  IsHex-lt l b q,
  hex_number-IsHex h l a b (hex_value-IsHex h a p) (hex_value-IsHex l b q),
)

decode_percent :
    (c h l : ℕ) (e : Bytes)
    → c ≡ b'%'
    → decode (c ∷ h ∷ l ∷ e) ≡ strtol_char (h ∷ l ∷ []) ∷ decode e
decode_percent c h l e p = unfold decode in ground arith

-- Every form encoding of a byte string, whichever bytes it escapes and in whichever case, is decoded
-- to that string.
pub decode-Encodes : {e s : Bytes} → Encodes e s → decode e ≡ s
decode-Encodes nil = unfold decode in refl
decode-Encodes (plain h k t) = decode_plain _ _ h k ∙ rw (decode-Encodes t)
decode-Encodes (space p c t) = decode_space _ _ p ∙ rw (c, decode-Encodes t)
decode-Encodes (percent {h = h} {l = l} a b p x y c t) =
    decode_percent _ h l _ p ∙ rw (strtol_char-IsHex h l a b x y, c, decode-Encodes t)
