-- ===== src/Model/Json/Object.antt =====
-- A reader of flat JSON objects, and the objects that it reads back.
use camera_platform.Prelude.{
  ℕ, zero, suc, ◌<◌, Bool, true, false, ◌||◌, Bytes, List, length, length-append, is_empty, Option,
  none, some, [], ◌∷◌, ◌++◌, append_assoc, ◌≡◌, ◌≢◌, refl, All, arith, ◌>>=◌, ◌==◌, if◌then◌else◌,
}
use camera_platform.Prelude.Decimal.{to_string, to_string-IsDigit, to_string-ne-nil, IsDigit}
use camera_platform.Prelude.Int.{ℤ, pos, negsuc, int_to_string}
use camera_platform.Model.Json.{quote, json_escape}
use camera_platform.Model.Json.RoundTrip.{read_literal, read_literal-json_escape}

-- A member's value: a string, or the text of a number, `true` or `false`.
pub data Value : Type 0 where
  text : Bytes → Value
  raw : Bytes → Value

ends_raw : ℕ → Bool
ends_raw c = c == b',' || c == b'}'

read_raw : Bytes → Bytes × Bytes
read_raw [] = ([], [])
read_raw (c ∷ s) = if ends_raw c then ([], c ∷ s) else (c ∷ (read_raw s).0, (read_raw s).1)

read_value : Bytes → Option (Value × Bytes)
read_value [] = none
read_value (c ∷ s) =
    if c == quote
    then (do (v, rest) ← read_literal s; some (text v, rest))
    else some (raw (read_raw (c ∷ s)).0, (read_raw (c ∷ s)).1)

expect : ℕ → Bytes → Option Bytes
expect c [] = none
expect c (d ∷ s) = if d == c then some s else none

read_member : Bytes → Option ((Bytes × Value) × Bytes)
read_member s = do
  s ← expect quote s
  (key, s) ← read_literal s
  s ← expect b':' s
  (value, s) ← read_value s
  some ((key, value), s)

-- The members from here on, on fuel for each of them.
read_members : ℕ → Bytes → Option (List (Bytes × Value) × Bytes)
read_members zero s = none
read_members (suc fuel) s = do (m, s) ← read_member s; go m s (λ r. read_members fuel r)
  where
    go :
        Bytes × Value
        → Bytes
        → (Bytes → Option (List (Bytes × Value) × Bytes))
        → Option (List (Bytes × Value) × Bytes)
    go m [] next = none
    go m (c ∷ s) next =
        if c == b'}'
        then some (m ∷ [], s)
        else if c == b','
        then (do (ms, rest) ← next s; some (m ∷ ms, rest))
        else none

-- An object with at least one member, and what follows it.
pub read_object : Bytes → Option (List (Bytes × Value) × Bytes)
read_object s = do s ← expect b'{' s; read_members (length s) s

abbrev pub value_text : Value → Bytes
value_text (text s) = quote ∷ (json_escape s ++ quote ∷ [])
value_text (raw s) = s

-- `"key":value`
abbrev pub member_text : Bytes × Value → Bytes
member_text (key, value) = quote ∷ (json_escape key ++ quote ∷ b':' ∷ value_text value)

abbrev pub members_text : Bytes × Value → List (Bytes × Value) → Bytes
members_text m [] = member_text m ++ b'}' ∷ []
members_text m (n ∷ ms) = member_text m ++ b',' ∷ members_text n ms

abbrev pub object_text : Bytes × Value → List (Bytes × Value) → Bytes
object_text m ms = b'{' ∷ members_text m ms

abbrev pub IsRaw : Bytes → Type 0
IsRaw [] = ⊥
IsRaw (c ∷ s) = (c ≢ quote) × All (λ d. (d ≢ b',') × (d ≢ b'}')) (c ∷ s)

abbrev pub IsValue : Value → Type 0
IsValue (text s) = Unit
IsValue (raw s) = IsRaw s

read_raw-append :
    (s : Bytes) (c : ℕ) (r : Bytes)
    → All (λ d. (d ≢ b',') × (d ≢ b'}')) s
    → ends_raw c ≡ true
    → read_raw (s ++ c ∷ r) ≡ (s, c ∷ r)
unfolding read_raw
read_raw-append [] c r a e = rw e
read_raw-append (d ∷ s) c r ((h, k), a) e = rw (not_end d h k, read_raw-append s c r a e)
  where
    not_end : (d : ℕ) → d ≢ b',' → d ≢ b'}' → ends_raw d ≡ false
    not_end d h k = unfold ends_raw in ground arith

read_value-value_text :
    (v : Value) (c : ℕ) (r : Bytes)
    → IsValue v
    → ends_raw c ≡ true
    → read_value (value_text v ++ c ∷ r) ≡ some (v, c ∷ r)
unfolding read_value
read_value-value_text (text s) c r h e = rw (append_assoc, read_literal-json_escape s (c ∷ r))
read_value-value_text (raw []) c r h e = absurd h
read_value-value_text (raw (d ∷ s)) c r (h, a) e =
    rw (not_quote d h, read_raw-append (d ∷ s) c r a e)
  where
    not_quote : (d : ℕ) → d ≢ quote → (d == quote) ≡ false
    not_quote d h = ground arith

read_member-member_text :
    (m : Bytes × Value) (c : ℕ) (r : Bytes)
    → IsValue m.1
    → ends_raw c ≡ true
    → read_member (member_text m ++ c ∷ r) ≡ some (m, c ∷ r)
unfolding read_member expect
read_member-member_text (key, value) c r h e = rw (
  append_assoc,
  read_literal-json_escape key (b':' ∷ (value_text value ++ c ∷ r)),
  read_value-value_text value c r h e,
)

read_members-members_text :
    (fuel : ℕ) (m : Bytes × Value) (ms : List (Bytes × Value)) (r : Bytes)
    → length ms < fuel
    → IsValue m.1
    → All (λ n. IsValue n.1) ms
    → read_members fuel (members_text m ms ++ r) ≡ some (m ∷ ms, r)
unfolding read_members
read_members-members_text zero m ms r h v a = elim h [ ]
read_members-members_text (suc fuel) m [] r h v a =
    rw (append_assoc, read_member-member_text m b'}' r v (unfold ends_raw in refl))
read_members-members_text (suc fuel) m (n ∷ ms) r h v (w, a) = rw (
  append_assoc,
  read_member-member_text m b',' (members_text n ms ++ r) v (unfold ends_raw in refl),
  read_members-members_text fuel n ms r (omega arith) w a,
)

length-members_text :
    (m : Bytes × Value) (ms : List (Bytes × Value)) → length ms < length (members_text m ms)
length-members_text m [] = omega (arith, length-append (member_text m) (b'}' ∷ []))
length-members_text m (n ∷ ms) =
    omega
      (arith, length-append (member_text m) (b',' ∷ members_text n ms), length-members_text n ms)

pub read_object-object_text :
    (m : Bytes × Value) (ms : List (Bytes × Value)) (r : Bytes)
    → IsValue m.1
    → All (λ n. IsValue n.1) ms
    → read_object (object_text m ms ++ r) ≡ some (m ∷ ms, r)
unfolding read_object expect
read_object-object_text m ms r v a =
    read_members-members_text _ m ms r
      (omega (arith, length-members_text m ms, length-append (members_text m ms) r)) v a

digits-IsRaw : (s : Bytes) → is_empty s ≡ false → All IsDigit s → IsRaw s
digits-IsRaw [] e a = cc
digits-IsRaw (c ∷ s) e (h, a) = (omega arith, digits (c ∷ s) (h, a))
  where
    digits : (s : Bytes) → All IsDigit s → All (λ d. (d ≢ b',') × (d ≢ b'}')) s
    digits [] a = tt
    digits (c ∷ s) (h, a) = ((omega arith, omega arith), digits s a)

-- A printed number is read back as it stands.
pub to_string-IsRaw : (n : ℕ) → IsRaw (to_string n)
to_string-IsRaw n = digits-IsRaw (to_string n) (to_string-ne-nil n) (to_string-IsDigit n)

pub int_to_string-IsRaw : (z : ℤ) → IsRaw (int_to_string z)
int_to_string-IsRaw (pos n) = to_string-IsRaw n
int_to_string-IsRaw (negsuc n) = (
  (λ e. absurd (omega arith)),
  (
    ((λ e. absurd (omega arith)), (λ e. absurd (omega arith))),
    tail (to_string (suc n)) (to_string-IsRaw (suc n)),
  ),
)
  where
    tail : (s : Bytes) → IsRaw s → All (λ d. (d ≢ b',') × (d ≢ b'}')) s
    tail [] h = absurd h
    tail (c ∷ s) h = h.1
