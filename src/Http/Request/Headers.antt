-- ===== src/Http/Request/Headers.antt =====
-- The loop of `parseRequest` over the header lines: it ends, and it keeps the headers well named.

use camera_platform.Prelude.{
  ℕ, zero, suc, ◌+◌, ◌<◌, Bool, true, false, Bytes, length, length-drop, is_empty, take, drop,
  Option, none, some, [], ◌∷◌, ◌≡◌, refl, inl, inr, Option-cases, Bool-cases, All, arith,
}
use camera_platform.Prelude.Map.{StringMap, insert}
use camera_platform.Prelude.Search.{find_byte, find, before}
use camera_platform.Http.Text.{to_lower_helper, to_lower_helper_idem, trim_helper}
use camera_platform.Http.Request.{
  crlf, LineResult, blank, malformed, field, add_header, read_line, next_pos, after_line,
  header_loop,
}

-- Every key of the map is a header name as `HttpRequest::header` looks it up.
abbrev pub IsHeaderName : Bytes × Bytes → Type 0
IsHeaderName (k, v) = (is_empty k ≡ false) × (to_lower_helper k ≡ k)

insert-IsHeaderName :
    (k v : Bytes) (m : StringMap Bytes)
    → is_empty k ≡ false
    → to_lower_helper k ≡ k
    → All IsHeaderName m
    → All IsHeaderName (insert k v m)
unfolding insert
insert-IsHeaderName k v [] h e a = ((h, e), tt)
insert-IsHeaderName k v ((j, w) ∷ m) h e a = ground (arith, insert-IsHeaderName k v m h e a.1)

abbrev KeepsNames : LineResult → Type 0
KeepsNames blank = Unit
KeepsNames malformed = Unit
KeepsNames (field m) = All IsHeaderName m

add_header-KeepsNames :
    (colon : Option ℕ) (line : Bytes) (m : StringMap Bytes)
    → All IsHeaderName m
    → KeepsNames (add_header colon line m)
unfolding add_header
add_header-KeepsNames none line m a = tt
add_header-KeepsNames (some k) line m a =
    elim (Bool-cases (is_empty (to_lower_helper (trim_helper (take k line))))) [
      | inl e ↦ rw e tt
      | inr e ↦ rw e (
          insert-IsHeaderName _ (trim_helper (drop (k + 1) line)) m e
            (to_lower_helper_idem (trim_helper (take k line))) a)
    ]

read_line-KeepsNames :
    (line : Bytes) (m : StringMap Bytes) → All IsHeaderName m → KeepsNames (read_line line m)
unfolding read_line
read_line-KeepsNames line m a = elim (Bool-cases (is_empty line)) [
  | inl e ↦ rw e tt
  | inr e ↦ rw e (add_header-KeepsNames (find_byte b':' line) line m a)
]

-- The rest of the head, in bytes.
abbrev pub left_of : Option Bytes → ℕ
left_of none = 0
left_of (some s) = length s

next_pos-lt : (c : ℕ) (s : Bytes) → left_of (next_pos (find crlf (c ∷ s)) (c ∷ s)) < length (c ∷ s)
next_pos-lt c s = elim (Option-cases (find crlf (c ∷ s))) [
  | inl e ↦ rw e (omega arith)
  | inr (n, e) ↦ rw e (omega (arith, length-drop (n + 2) (c ∷ s)))
]

-- the loop ends within its fuel, and the headers stay well named
pub header_loop_total :
    (fuel : ℕ) (pos : Option Bytes) (m : StringMap Bytes)
    → left_of pos < fuel
    → All IsHeaderName m
    → (r : Bool × StringMap Bytes) × (header_loop fuel pos m ≡ some r) × All IsHeaderName r.1
unfolding header_loop
header_loop_total zero pos m h a = elim h [ ]
header_loop_total (suc fuel) none m h a = ((true, m), refl, a)
header_loop_total (suc fuel) (some []) m h a = ((true, m), refl, a)
header_loop_total (suc fuel) (some (c ∷ s)) m h a =
    go (read_line (before (find crlf (c ∷ s)) (c ∷ s)) m) (read_line-KeepsNames _ m a) (λ m' a'.
      header_loop_total fuel (next_pos (find crlf (c ∷ s)) (c ∷ s)) m'
        (omega (arith, next_pos-lt c s)) a')
  where
    next : StringMap Bytes → Option (Bool × StringMap Bytes)
    next = header_loop fuel (next_pos (find crlf (c ∷ s)) (c ∷ s))

    go :
        (l : LineResult)
        → KeepsNames l
        → ((m' : StringMap Bytes)
            → All IsHeaderName m'
            → (r : Bool × StringMap Bytes) × (next m' ≡ some r) × All IsHeaderName r.1)
        → (r : Bool × StringMap Bytes) × (after_line l m next ≡ some r) × All IsHeaderName r.1
    go blank k ih = ((true, m), unfold after_line in refl, a)
    go malformed k ih = ((false, m), unfold after_line in refl, a)
    go (field m') k ih = unfold after_line in ih m' k

pub next_pos-lt_suc : (head : Bytes) → left_of (next_pos (find crlf head) head) < suc (length head)
next_pos-lt_suc [] = omega arith
next_pos-lt_suc (c ∷ s) = omega (arith, next_pos-lt c s)
