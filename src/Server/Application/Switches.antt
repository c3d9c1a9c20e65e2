-- ===== src/Server/Application/Switches.antt =====
-- The control plane against its specification: a map from names to what was last asked for.
use camera_platform.Prelude.{
  Bool, true, false, Bytes, codes, ◌||◌, equal, equal_iff, List, [], ◌∷◌, map, if◌then◌else◌, ◌≡◌,
  refl, sym, ap, ◌∙◌, arith, Bool-cases, inl, inr,
}
use camera_platform.Model.Profile.{ProfileInfo}
use camera_platform.Gst.{Trace}
use camera_platform.Server.Host.{new_host}
use camera_platform.Server.Host.Control
use camera_platform.Server.Host.Control.Catalog.{
  known, state_of, with_state, state_for, Outcome, set_profile_enabled_lem,
}
use camera_platform.Server.Application.{
  Application, default_catalog, set_profile_enabled, profiles, new_application, disable_all, bare,
  entry,
}

-- A call of `setProfileEnabled`.
abbrev pub Switch : Type 0
Switch = Bytes × Bool

-- The calls in order, and what they answer.
unfoldable pub switch_all : List Switch → Application → Trace → List Bool × Application × Trace
switch_all [] a t = ([], a, t)
switch_all ((name, enabled) ∷ s) a t =
    let r = set_profile_enabled name enabled a t in
    let rest = switch_all s r.1 r.2 in (r.0 ∷ rest.0, rest.1, rest.2)

-- What was last asked for a name; `before` if nothing was.
abbrev pub wanted : Bool → Bytes → List Switch → Bool
wanted before name [] = before
wanted before name ((n, enabled) ∷ s) = wanted (if equal name n then enabled else before) name s

-- A profile that nobody has asked for is off.
abbrev pub reported : List Switch → ProfileInfo → ProfileInfo
reported s p = record p { state = state_for (wanted false p.name s); last_error = [] }

-- The catalog with the state that `f` gives each name.
abbrev view : (Bytes → Bool) → List ProfileInfo → List ProfileInfo
view f = map (λ (p : ProfileInfo). record p { state = state_for (f p.name); last_error = [] })

abbrev Distinct : List ProfileInfo → Type 0
Distinct [] = Unit
Distinct (p ∷ ps) = (known p.name ps ≡ false) × Distinct ps

known-view :
    (name : Bytes) (f : Bytes → Bool) (ps : List ProfileInfo)
    → known name (view f ps) ≡ known name ps
known-view name f [] = refl
known-view name f (p ∷ ps) = rw (known-view name f ps)

abbrev update : Bytes → Bool → (Bytes → Bool) → Bytes → Bool
update name enabled f n = if equal n name then enabled else f n

view-update_unknown :
    (name : Bytes) (enabled : Bool) (f : Bytes → Bool) (ps : List ProfileInfo)
    → known name ps ≡ false
    → view (update name enabled f) ps ≡ view f ps
view-update_unknown name enabled f [] h = refl
view-update_unknown name enabled f (p ∷ ps) h = elim (Bool-cases (equal p.name name)) [
  | inl e ↦ let h' : true ≡ false = rw e at h in cc
  | inr e ↦
      let h' : known name ps ≡ false = rw e at h in
      rw e (
        ap (λ r. record p { state = state_for (f p.name); last_error = [] } ∷ r)
          (view-update_unknown name enabled f ps h'))
]

with_state-view :
    (name : Bytes) (enabled : Bool) (f : Bytes → Bool) (ps : List ProfileInfo)
    → Distinct ps
    → with_state name (state_for enabled) (view f ps) ≡ view (update name enabled f) ps
with_state-view name enabled f [] d = refl
with_state-view name enabled f (p ∷ ps) (h, d) = elim (Bool-cases (equal p.name name)) [
  | inl e ↦
      let same : p.name ≡ name = (equal_iff p.name name).0 e in
      rw (e, view-update_unknown name enabled f ps (rw same at h))
  | inr e ↦ rw (e, with_state-view name enabled f ps d)
]

-- one call
switch-view :
    (name : Bytes) (enabled : Bool) (f : Bytes → Bool) (ps : List ProfileInfo) (a : Application)
    (t : Trace)
    → Distinct ps
    → profiles a ≡ view f ps
    → ((set_profile_enabled name enabled a t).0 ≡ known name ps)
      × (profiles (set_profile_enabled name enabled a t).1 ≡ view (update name enabled f) ps)
unfolding set_profile_enabled profiles
switch-view name enabled f ps a t d h = elim (Bool-cases (known name ps)) [
  | inl k ↦
      rw (lem.0, lem.1, h, known-view name f ps, k) (refl, with_state-view name enabled f ps d)
  | inr k ↦
      rw (lem.0, lem.1, h, known-view name f ps, k)
        (refl, sym (view-update_unknown name enabled f ps k))
]
  where
    lem : Outcome name enabled a.host t
    lem = set_profile_enabled_lem name enabled a.host t

switch_all-view :
    (s : List Switch) (f : Bytes → Bool) (ps : List ProfileInfo) (a : Application) (t : Trace)
    → Distinct ps
    → profiles a ≡ view f ps
    → ((switch_all s a t).0 ≡ map (λ (c : Switch). known c.0 ps) s)
      × (profiles (switch_all s a t).1 ≡ view (λ n. wanted (f n) n s) ps)
unfolding switch_all
switch_all-view [] f ps a t d h = (refl, h)
switch_all-view ((name, enabled) ∷ s) f ps a t d h =
    let (answer, one) = switch-view name enabled f ps a t d h in
    let (answers, rest) = switch_all-view s (update name enabled f) ps _ _ d one in
    (rw (answer, answers), rest)

default_catalog-Distinct : Distinct default_catalog
unfolding default_catalog entry
default_catalog-Distinct = (refl, (refl, (refl, (refl, tt))))

profiles-bare : (ps : List ProfileInfo) → profiles (bare ps) ≡ ps
unfolding profiles Control.profiles new_host
profiles-bare [] = refl
profiles-bare (p ∷ ps) = ap (λ qs. p ∷ qs) (profiles-bare ps)

default_catalog-view : default_catalog ≡ view (λ _. false) default_catalog
unfolding default_catalog entry
default_catalog-view = refl

update-off : (name n : Bytes) → update name false (λ _. false) n ≡ false
update-off name n = ground arith

-- switching off what is off
disable_all-view :
    (ps qs : List ProfileInfo) (a : Application) (t : Trace)
    → Distinct qs
    → profiles a ≡ view (λ _. false) qs
    → profiles (disable_all ps a t).1 ≡ view (λ _. false) qs
unfolding disable_all
disable_all-view [] qs a t d h = h
disable_all-view (p ∷ ps) qs a t d h = disable_all-view ps qs _ _ d (
    (switch-view p.name false (λ _. false) qs a t d h).1
    ∙ (λ i. view (λ n. update-off p.name n i) qs))

-- After any calls of `setProfileEnabled` on a new application, the catalog is the default one with
-- each profile `ready` if the last call for its name enabled it, and `off` otherwise; and each call
-- answered whether the catalog has the name. So the control plane is a map from the catalog's names
-- to what was last asked for, and calls for other names change nothing.
pub switch_all-new_application :
    (s : List Switch) (t : Trace)
    → ((switch_all s new_application t).0 ≡ map (λ (c : Switch). known c.0 default_catalog) s)
      × (profiles (switch_all s new_application t).1 ≡ map (reported s) default_catalog)
unfolding new_application
switch_all-new_application s t =
    switch_all-view s (λ _. false) default_catalog new_application t default_catalog-Distinct start
  where
    start : profiles new_application ≡ view (λ _. false) default_catalog
    start =
        disable_all-view default_catalog default_catalog (bare default_catalog) []
          default_catalog-Distinct (profiles-bare default_catalog ∙ default_catalog-view)

pub known-default_catalog :
    (name : Bytes)
    → known name default_catalog
      ≡ (equal (codes "hd") name || equal (codes "low") name)
        || (equal (codes "sd") name || equal (codes "thumb") name)
unfolding default_catalog entry
known-default_catalog name = ground arith

pub state_of-reported :
    (s : List Switch)
    → state_of (codes "hd") (map (reported s) default_catalog)
      ≡ state_for (wanted false (codes "hd") s)
unfolding default_catalog entry
state_of-reported s = refl
