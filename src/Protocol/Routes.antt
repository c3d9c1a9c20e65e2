-- ===== src/Protocol/Routes.antt =====
-- The paths of the profile actions do not collide.
use mathlib.Core.List.{append_cancel_right}
use camera_platform.Prelude.{
  ℕ, drop, Bytes, Bool, true, false, if◌then◌else◌, [], ◌∷◌, ◌++◌, ◌≡◌, refl, ap, ◌∙◌, sym, arith,
}
use camera_platform.Protocol.{action_on, action_off, profile_action_path}

abbrev action : Bool → Bytes
action enabled = if enabled then action_on else action_off

path_tail : (n m a b : Bytes) → profile_action_path n a ≡ profile_action_path m b → n ++ a ≡ m ++ b
unfolding profile_action_path
path_tail n m a b e = ap (drop 14) e

last : Bytes → ℕ
last [] = 0
last (c ∷ []) = c
last (c ∷ d ∷ s) = last (d ∷ s)

last-append : (n : Bytes) (c : ℕ) (s : Bytes) → last (n ++ c ∷ s) ≡ last (c ∷ s)
unfolding last
last-append [] c s = refl
last-append (x ∷ []) c s = refl
last-append (x ∷ y ∷ n) c s = last-append (y ∷ n) c s

on_ne_off : (n m : Bytes) → n ++ action_on ≡ m ++ action_off → ⊥
on_ne_off n m e = absurd (omega (arith, sym (on_last n) ∙ ap last e ∙ off_last m))
  where
    on_last : (n : Bytes) → last (n ++ action_on) ≡ b'n'
    on_last n = last-append n _ _ ∙ unfold last in refl

    off_last : (n : Bytes) → last (n ++ action_off) ≡ b'f'
    off_last n = last-append n _ _ ∙ unfold last in refl

-- The path of a profile's action determines both the profile and the action, whatever bytes the
-- names have.
profile_action_path_injective :
    (n m : Bytes) (a b : Bool)
    → profile_action_path n (action a) ≡ profile_action_path m (action b)
    → (n ≡ m) × (a ≡ b)
profile_action_path_injective n m true true e =
    (append_cancel_right n m action_on (path_tail n m action_on action_on e), refl)
profile_action_path_injective n m true false e =
    absurd (on_ne_off n m (path_tail n m action_on action_off e))
profile_action_path_injective n m false true e =
    absurd (on_ne_off m n (sym (path_tail n m action_off action_on e)))
profile_action_path_injective n m false false e =
    (append_cancel_right n m action_off (path_tail n m action_off action_off e), refl)
