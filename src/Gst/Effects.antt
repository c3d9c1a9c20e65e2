-- ===== src/Gst/Effects.antt =====
-- Code that changes an object and calls the libraries, as explicit state passing.
use camera_platform.Prelude.{ℕ, Bool, true, false, Option, List, [], ◌∷◌, none, some, ◌≡◌, refl}
use camera_platform.Prelude.Int.{ℤ}
use camera_platform.Gst.{Gst, Call, Trace, GstState}

-- From the object and the calls made so far to a result, the new object and the calls made then.
abbrev pub M : Type 0 → Type 0 → Type 0
M S A = S → Trace → A × S × Trace

infixl 5 ◌>>=◌ ◌>>◌
abbrev pub ◌>>=◌ : {S A B : Type 0} → M S A → (A → M S B) → M S B
◌>>=◌ m f s t = let r = m s t in f r.0 r.1 r.2

abbrev pub ◌>>◌ : {S B : Type 0} → M S (Unit {0}) → M S B → M S B
◌>>◌ m k s t = let r = m s t in k r.1 r.2

abbrev pub pure : {S A : Type 0} → A → M S A
pure a s t = (a, s, t)

abbrev pub get : {S : Type 0} → M S S
get s t = (s, s, t)

abbrev pub modify : {S : Type 0} → (S → S) → M S (Unit {0})
modify f s t = (tt, f s, t)

-- A call whose answer is not used.
abbrev pub call : {S : Type 0} → Call → M S (Unit {0})
call c s t = (tt, s, c ∷ t)

abbrev pub ask_pointer : {S : Type 0} → Gst → Call → M S (Option ℕ)
ask_pointer g c s t = (g.pointer t c, s, c ∷ t)

abbrev pub ask : {S : Type 0} → Gst → Call → M S Bool
ask g c s t = (g.succeeds t c, s, c ∷ t)

abbrev pub ask_state : {S : Type 0} → Gst → Call → M S (Option GstState)
ask_state g c s t = (g.state t c, s, c ∷ t)

abbrev pub ask_position : {S : Type 0} → Gst → Call → M S (Option ℤ)
ask_position g c s t = (g.position t c, s, c ∷ t)

-- A call on an object, or nothing where the pointer is null.
abbrev pub call_some : {S : Type 0} → (ℕ → Call) → Option ℕ → M S (Unit {0})
call_some c p s t = (tt, s, elim p [ none ↦ t | some o ↦ c o ∷ t ])

-- A pointer asked of an object; of a null pointer the libraries answer null.
abbrev pub ask_some : {S : Type 0} → Gst → (ℕ → Call) → Option ℕ → M S (Option ℕ)
ask_some g c p s t =
    (elim p [ none ↦ none | some o ↦ g.pointer t (c o) ], s, elim p [ none ↦ t | some o ↦ c o ∷ t ])

-- A call on two objects, or nothing where a pointer is null.
abbrev pub call_both : {S : Type 0} → (ℕ → ℕ → Call) → (p q : Option ℕ) → M S (Unit {0})
call_both c p q s t =
    (tt, s, elim p [ none ↦ t | some o ↦ elim q [ none ↦ t | some x ↦ c o x ∷ t ] ])

-- The arguments of a call that takes pointers up to a null one
abbrev pub until_null : List (Option ℕ) → List ℕ
until_null [] = []
until_null (none ∷ ps) = []
until_null (some p ∷ ps) = p ∷ until_null ps

-- `g_get_monotonic_time`
abbrev pub now : {S : Type 0} → Gst → M S ℕ
now g s t = (g.clock t, s, t)

-- `if (b) m; else k;`
unfoldable pub branch : {S A : Type 0} → Bool → M S A → M S A → M S A
branch true m k s t = m s t
branch false m k s t = k s t

-- A property of the object after a branch.
pub branch-state :
    {S A : Type 0} (P : S → Type 0) (b : Bool) (m k : M S A) (s : S) (t : Trace)
    → (b ≡ true → P (m s t).1)
    → (b ≡ false → P (k s t).1)
    → P (branch b m k s t).1
unfolding branch
branch-state P true m k s t h h' = h refl
branch-state P false m k s t h h' = h' refl

-- The same of all that a branch comes to.
pub branch-outcome :
    {S A : Type 0} (P : A × S × Trace → Type 0) (b : Bool) (m k : M S A) (s : S) (t : Trace)
    → (b ≡ true → P (m s t))
    → (b ≡ false → P (k s t))
    → P (branch b m k s t)
unfolding branch
branch-outcome P true m k s t h h' = h refl
branch-outcome P false m k s t h h' = h' refl
