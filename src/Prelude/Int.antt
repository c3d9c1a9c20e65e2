-- ===== src/Prelude/Int.antt =====
-- Signed integers, as `std::int64_t` and `gint64` values are.
use Prim.Native.Nat.{ℕ, suc}
use mathlib.Core.List.{◌∷◌}
use camera_platform.Prelude.Lists.{Bytes}
use camera_platform.Prelude.Decimal.{to_string}

-- `negsuc n` is -(n + 1).
pub data ℤ : Type 0 where
  pos : ℕ → ℤ
  negsuc : ℕ → ℤ

-- An output stream prints a signed integer so.
abbrev pub int_to_string : ℤ → Bytes
int_to_string (pos n) = to_string n
int_to_string (negsuc n) = b'-' ∷ to_string (suc n)
