-- ===== src/Prelude/Decimal.antt =====
-- Numbers in decimal, as `std::to_string` and an output stream print an unsigned integer.
use Prim.Native.Nat.{ℕ, zero, suc, ◌+◌, ◌-◌, ◌*◌, ◌/◌, ◌%◌, ◌≤◌, ◌<◌}
use mathlib.Core.Path.{◌≡◌, ◌∙◌}
use mathlib.Core.Bool.{false}
use mathlib.Core.List.{[], ◌∷◌}
use mathlib.Core.Logic.{◌≢◌, inl, inr}
use native.Mathlib.Omega.{arith}
use camera_platform.Prelude.Tests.{◌==◌, if◌then◌else◌, Bool-cases, ==_iff}
use camera_platform.Prelude.Lists.{Bytes, All, is_empty}

-- The digits of `n` in front of `out`; fuel above `n` is enough.
digits_onto : ℕ → ℕ → Bytes → Bytes
digits_onto zero n out = out
digits_onto (suc f) n out =
    let rest = digits_onto f (n / 10) ((b'0' + n % 10) ∷ out) in
    if n / 10 == 0 then (b'0' + n) ∷ out else rest

unfoldable pub to_string : ℕ → Bytes
unfolding digits_onto
to_string n = digits_onto (suc n) n []

abbrev pub IsDigit : ℕ → Type 0
IsDigit c = (b'0' ≤ c) × (c ≤ b'9')

-- The number that digits spell behind `n`.
abbrev pub value : ℕ → Bytes → ℕ
value n [] = n
value n (c ∷ s) = value (n * 10 + (c - b'0')) s

value_eq : {a b : ℕ} (out : Bytes) → a ≡ b → value a out ≡ value b out
value_eq out e = rw e

value-digits_onto : (f n : ℕ) (out : Bytes) → n < f → value 0 (digits_onto f n out) ≡ value n out
unfolding digits_onto
value-digits_onto zero n out h = elim h [ ]
value-digits_onto (suc f) n out h = elim (Bool-cases (n / 10 == 0)) [
  | inl e ↦ rw e (value_eq out (omega (arith, (==_iff (n / 10) 0).0 e)))
  | inr e ↦ rw e (value-digits_onto f (n / 10) _ (ground arith) ∙ value_eq out (omega arith))
]

-- The printed digits spell the number.
pub value-to_string : (n : ℕ) → value 0 (to_string n) ≡ n
unfolding to_string
value-to_string n = value-digits_onto (suc n) n [] (omega arith)

digits_onto-IsDigit :
    (f n : ℕ) (out : Bytes) → n < f → All IsDigit out → All IsDigit (digits_onto f n out)
unfolding digits_onto
digits_onto-IsDigit zero n out h a = a
digits_onto-IsDigit (suc f) n out h a =
    ground (arith, digits_onto-IsDigit f (n / 10) ((b'0' + n % 10) ∷ out))

pub to_string-IsDigit : (n : ℕ) → All IsDigit (to_string n)
unfolding to_string
to_string-IsDigit n = digits_onto-IsDigit (suc n) n [] (omega arith) tt

pub to_string-Lacks : (c n : ℕ) → c < b'0' → All (λ d. d ≢ c) (to_string n)
to_string-Lacks c n h = digits-Lacks (to_string n) (to_string-IsDigit n)
  where
    digits-Lacks : (s : Bytes) → All IsDigit s → All (λ d. d ≢ c) s
    digits-Lacks [] a = tt
    digits-Lacks (d ∷ s) (hd, a) = ((λ e. omega arith), digits-Lacks s a)

digits_onto-ne-nil : (f n : ℕ) (out : Bytes) → n < f → is_empty (digits_onto f n out) ≡ false
unfolding digits_onto
digits_onto-ne-nil zero n out h = elim h [ ]
digits_onto-ne-nil (suc f) n out h =
    ground (arith, digits_onto-ne-nil f (n / 10) ((b'0' + n % 10) ∷ out))

pub to_string-ne-nil : (n : ℕ) → is_empty (to_string n) ≡ false
unfolding to_string
to_string-ne-nil n = digits_onto-ne-nil (suc n) n [] (omega arith)
