-- ===== src/Prelude/Search.antt =====
-- `std::string::find` for a byte and for a literal, and `substr` up to or behind what it finds.
use Prim.Native.Nat.{ℕ, suc, ◌+◌, ◌<◌}
use mathlib.Core.Path.{◌≡◌, refl, ap}
use mathlib.Core.Bool.{Bool, true, false, ◌&&◌}
use mathlib.Core.Logic.{◌≢◌, inl, inr}
use mathlib.Core.Option
use mathlib.Core.Option.{Option, none, some}
use mathlib.Core.List.{[], ◌∷◌, ◌++◌}
use native.Mathlib.Omega.{arith}
use native.Mathlib.Nat.{add-zero}
use native.Mathlib.Numerals.{add-one, add-two}
use camera_platform.Prelude.Tests.{◌==◌, if◌then◌else◌, Option-cases, Bool-cases}
use camera_platform.Prelude.Lists.{Bytes, length, take, drop, Lacks}

abbrev pub starts_with : Bytes → Bytes → Bool
starts_with [] s = true
starts_with (p ∷ ps) [] = false
starts_with (p ∷ ps) (c ∷ s) = p == c && starts_with ps s

-- `s.find(c)`; `none` is `npos`.
abbrev pub find_byte : ℕ → Bytes → Option ℕ
find_byte c [] = none
find_byte c (x ∷ s) = if x == c then some 0 else Option.map suc (find_byte c s)

-- `s.find(literal)`, for a literal that is not empty.
abbrev pub find : Bytes → Bytes → Option ℕ
find p [] = none
find p (x ∷ s) = if starts_with p (x ∷ s) then some 0 else Option.map suc (find p s)

-- `s.substr(0, at)`, where `npos` takes the whole text.
abbrev pub before : Option ℕ → Bytes → Bytes
before none s = s
before (some n) s = take n s

pub find_byte-append :
    (c : ℕ) (s r : Bytes) → Lacks c s → find_byte c (s ++ c ∷ r) ≡ some (length s)
find_byte-append c [] r h = ground arith
find_byte-append c (x ∷ s) r (hx, h) = ground (arith, find_byte-append c s r h)

pub find_byte-eq-none : (c : ℕ) (s : Bytes) → Lacks c s → find_byte c s ≡ none
find_byte-eq-none c [] h = refl
find_byte-eq-none c (x ∷ s) (hx, h) = ground (arith, find_byte-eq-none c s h)

pub find_byte-lt : (c : ℕ) (s : Bytes) {n : ℕ} → find_byte c s ≡ some n → n < length s
find_byte-lt c [] h = cc
find_byte-lt c (x ∷ s) {n} h = elim (Option-cases (find_byte c s)) [
  | inl e ↦ ground (arith, e)
  | inr (m, e) ↦ ground (arith, e, find_byte-lt c s e)
]

find-lt : (p s : Bytes) {n : ℕ} → find p s ≡ some n → n < length s
find-lt p [] h = cc
find-lt p (x ∷ s) {n} h = elim (Option-cases (find p s)) [
  | inl e ↦ ground (arith, e)
  | inr (m, e) ↦ ground (arith, e, find-lt p s e)
]

drop-suc : (s : Bytes) (c : ℕ) (r : Bytes) → drop (suc (length s)) (s ++ c ∷ r) ≡ r
drop-suc [] c r = refl
drop-suc (x ∷ s) c r = drop-suc s c r

pub drop_behind : (s : Bytes) (c : ℕ) (r : Bytes) → drop (length s + 1) (s ++ c ∷ r) ≡ r
drop_behind s c r = rw add-one (drop-suc s c r)

map_zero_add : (o : Option ℕ) → o ≡ Option.map (λ n. 0 + n) o
map_zero_add none = refl
map_zero_add (some n) = ap some (omega arith)

drop-suc-suc : (s : Bytes) (c d : ℕ) (r : Bytes) → drop (suc (suc (length s))) (s ++ c ∷ d ∷ r) ≡ r
drop-suc-suc [] c d r = refl
drop-suc-suc (x ∷ s) c d r = drop-suc-suc s c d r

pub drop_behind_two : (s : Bytes) (c d : ℕ) (r : Bytes) → drop (length s + 2) (s ++ c ∷ d ∷ r) ≡ r
drop_behind_two s c d r = rw add-two (drop-suc-suc s c d r)

-- A literal is not found inside a text that lacks its first byte.
pub find-append :
    (p : ℕ) (ps s r : Bytes)
    → Lacks p s
    → find (p ∷ ps) (s ++ r) ≡ Option.map (λ n. length s + n) (find (p ∷ ps) r)
find-append p ps [] r h = map_zero_add _
find-append p ps (x ∷ s) r (hx, h) = ground (arith, find-append p ps s r h)

pub find_at :
    (p : ℕ) (ps s : Bytes) (c : ℕ) (r : Bytes)
    → Lacks p s
    → starts_with (p ∷ ps) (c ∷ r) ≡ true
    → find (p ∷ ps) (s ++ c ∷ r) ≡ some (length s)
find_at p ps s c r h e = rw (find-append p ps s (c ∷ r) h, e) (ap some (add-zero (length s)))

before_suc-Lacks :
    (c x : ℕ) (o : Option ℕ) (s : Bytes)
    → x ≢ c
    → Lacks c (before o s)
    → Lacks c (before (Option.map suc o) (x ∷ s))
before_suc-Lacks c x none s h l = (h, l)
before_suc-Lacks c x (some n) s h l = (h, l)

-- The text up to the first `c`, or all of it, has no `c`.
pub before-find_byte-Lacks : (c : ℕ) (s : Bytes) → Lacks c (before (find_byte c s) s)
before-find_byte-Lacks c [] = tt
before-find_byte-Lacks c (x ∷ s) = elim (Bool-cases (x == c)) [
  | inl e ↦ rw e tt
  | inr e ↦
      rw e (before_suc-Lacks c x (find_byte c s) s (ground arith) (before-find_byte-Lacks c s))
]
