-- ===== src/Server/Host/Control/Catalog.antt =====
-- What `setProfileEnabled` does to the catalog.
use camera_platform.Prelude.{
  Bool, true, false, Bytes, codes, equal, List, Option, none, some, [], ◌∷◌, map, if◌then◌else◌,
  ◌≡◌, refl, ap, arith, Bool-cases, inl, inr, ◌⊎◌,
}
use camera_platform.Protocol.{state_off, state_ready}
use camera_platform.Model.Profile.{ProfileInfo}
use camera_platform.Gst.{Trace}
use camera_platform.Gst.Effects.{M, branch}
use camera_platform.Video.Values.{failure}
use camera_platform.Server.Bin.{ProfileBin, set_drop}
use camera_platform.Server.Bin
use camera_platform.Server.Host.{ProfileHost}
use camera_platform.Server.Host.Control.{on_named, put_back, enable, set_profile_enabled, profiles}

-- Some profile of the catalog has the name.
abbrev pub known : Bytes → List ProfileInfo → Bool
known name [] = false
known name (p ∷ ps) = if equal p.name name then true else known name ps

-- The state that a catalog reports for a name
abbrev pub state_of : Bytes → List ProfileInfo → Bytes
state_of name [] = []
state_of name (p ∷ ps) = if equal p.name name then p.state else state_of name ps

-- The catalog with the state of the first profile of that name replaced and its error cleared.
abbrev pub with_state : Bytes → Bytes → List ProfileInfo → List ProfileInfo
with_state name state [] = []
with_state name state (p ∷ ps) =
    if equal p.name name
    then record p { state = state; last_error = [] } ∷ ps
    else p ∷ with_state name state ps

abbrev pub state_for : Bool → Bytes
state_for enabled = if enabled then state_ready else state_off

enable-profile :
    (enabled : Bool) (b : ProfileBin) (t : Trace)
    → (enable enabled b t).1.profile
      ≡ record b.profile { state = state_for enabled; last_error = [] }
unfolding enable set_drop Bin.set_state branch
enable-profile true b t = ground arith
enable-profile false b t = ground arith

abbrev infos : List ProfileBin → List ProfileInfo
infos = map (λ b. b.profile)

-- What a search for the name among branches with these profiles comes to.
abbrev Found : Bytes → Bool → List ProfileInfo → Option (Bool × List ProfileBin × Trace) → Type 0
Found name enabled ps r =
    ((known name ps ≡ false) × (r ≡ none))
    ⊎ ((known name ps ≡ true)
        × ((bs : List ProfileBin) × (t : Trace) × (a : Bool) × (r ≡ some (a, bs, t))
            × (infos bs ≡ with_state name (state_for enabled) ps)))

put_back-Found :
    (name : Bytes) (enabled : Bool) (b : ProfileBin) (ps : List ProfileInfo)
    (r : Option (Bool × List ProfileBin × Trace))
    → equal b.profile.name name ≡ false
    → Found name enabled ps r
    → Found name enabled (b.profile ∷ ps) (put_back b r)
unfolding put_back
put_back-Found name enabled b ps r e (inl (k, f)) = rw e (inl (k, rw f))
put_back-Found name enabled b ps r e (inr (k, (bs, t, a, f, h))) =
    rw e (inr (k, (b ∷ bs, t, a, rw f, ap (λ qs. b.profile ∷ qs) h)))

module _ {A : Type 0} (name : Bytes) (m : M ProfileBin A) (b : ProfileBin)
    (bs : List ProfileBin) where
  on_named-here :
      (t : Trace)
      → equal b.profile.name name ≡ true
      → on_named name m (b ∷ bs) t ≡ some ((m b t).0, (m b t).1 ∷ bs, (m b t).2)
  unfolding on_named
  on_named-here t e = rw e

  on_named-there :
      (t : Trace)
      → equal b.profile.name name ≡ false
      → on_named name m (b ∷ bs) t ≡ put_back b (on_named name m bs t)
  unfolding on_named
  on_named-there t e = rw e

on_named-Found :
    (name : Bytes) (enabled : Bool) (bs : List ProfileBin) (t : Trace)
    → Found name enabled (infos bs) (on_named name (enable enabled) bs t)
on_named-Found name enabled [] t = inl (refl, unfold on_named in refl)
on_named-Found name enabled (b ∷ bs) t = elim (Bool-cases (equal b.profile.name name)) [
  | inl e ↦
      rw (on_named-here name (enable enabled) b bs t e, e)
        (inr (
          refl,
          (
            (enable enabled b t).1 ∷ bs,
            (enable enabled b t).2,
            (enable enabled b t).0,
            refl,
            ap (λ p. p ∷ infos bs) (enable-profile enabled b t),
          ),
        ))
  | inr e ↦
      rw (on_named-there name (enable enabled) b bs t e)
        (put_back-Found name enabled b (infos bs) _ e (on_named-Found name enabled bs t))
]

-- What a switch comes to, as the catalog shows it.
abbrev pub Outcome : Bytes → Bool → ProfileHost → Trace → Type 0
Outcome name enabled h t =
    ((set_profile_enabled name enabled h t).0.ok ≡ known name (profiles h))
    × (profiles (set_profile_enabled name enabled h t).1 ≡ (
        if known name (profiles h)
        then with_state name (state_for enabled) (profiles h)
        else profiles h))

-- `setProfileEnabled` succeeds just for the names of the catalog. Then the catalog is as before but
-- for the first profile of that name, which is `ready` or `off` as asked and has no error; for any
-- other name it is as before.
pub set_profile_enabled_lem :
    (name : Bytes) (enabled : Bool) (h : ProfileHost) (t : Trace) → Outcome name enabled h t
unfolding set_profile_enabled profiles
set_profile_enabled_lem name enabled h t = elim (on_named-Found name enabled h.bins t) [
  | inl (k, f) ↦ rw (f, k) (refl, refl)
  | inr (k, (bs, t', a, f, e)) ↦ rw (f, k) (refl, e)
]

-- For a name that is not in the catalog, `setProfileEnabled` fails with its message, leaves the whole
-- host as it was and calls nothing.
pub set_profile_enabled_unknown :
    (name : Bytes) (enabled : Bool) (h : ProfileHost) (t : Trace)
    → known name (profiles h) ≡ false
    → set_profile_enabled name enabled h t ≡ (failure (codes "Profile not found"), h, t)
unfolding set_profile_enabled profiles
set_profile_enabled_unknown name enabled h t unknown = elim (on_named-Found name enabled h.bins t) [
  | inl (_, f) ↦ rw f
  | inr (k, _) ↦ cc
]

pub known-with_state :
    (other name state : Bytes) (ps : List ProfileInfo)
    → known other (with_state name state ps) ≡ known other ps
known-with_state other name state [] = refl
known-with_state other name state (p ∷ ps) = elim (Bool-cases (equal p.name name)) [
  | inl e ↦ rw e
  | inr e ↦
      rw e (ap (λ k. if equal p.name other then true else k) (known-with_state other name state ps))
]

with_state-with_state :
    (name state state' : Bytes) (ps : List ProfileInfo)
    → with_state name state' (with_state name state ps) ≡ with_state name state' ps
with_state-with_state name state state' [] = refl
with_state-with_state name state state' (p ∷ ps) = elim (Bool-cases (equal p.name name)) [
  | inl e ↦ rw (e, e)
  | inr e ↦ rw (e, e) (ap (λ qs. p ∷ qs) (with_state-with_state name state state' ps))
]

-- Only the last switch of a profile counts: two calls for one name, whatever each asks, leave the
-- catalog that the second alone leaves, and succeed just if it does. So a switch is idempotent.
pub set_profile_enabled_last :
    (name : Bytes) (before enabled : Bool) (h : ProfileHost) (t t' : Trace)
    → let once = set_profile_enabled name enabled h t' in
      let first = set_profile_enabled name before h t in
      let twice = set_profile_enabled name enabled first.1 first.2 in
      (profiles twice.1 ≡ profiles once.1) × (twice.0.ok ≡ once.0.ok)
set_profile_enabled_last name before enabled h t t' = elim (Bool-cases (known name (profiles h))) [
  | inl k ↦
      rw (twice.0, twice.1, once.0, once.1, first.1, k, known-with_state, k)
        (with_state-with_state name _ _ (profiles h), refl)
  | inr k ↦ rw (twice.0, twice.1, once.0, once.1, first.1, k, k) (refl, refl)
]
  where
    first : Outcome name before h t
    first = set_profile_enabled_lem name before h t

    once : Outcome name enabled h t'
    once = set_profile_enabled_lem name enabled h t'

    after : ProfileHost × Trace
    after = ((set_profile_enabled name before h t).1, (set_profile_enabled name before h t).2)

    twice : Outcome name enabled after.0 after.1
    twice = set_profile_enabled_lem name enabled after.0 after.1
