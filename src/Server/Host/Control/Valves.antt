-- ===== src/Server/Host/Control/Valves.antt =====
-- The valves behind the switches of server/ProfileHost.cpp.
use camera_platform.Prelude.{
  ℕ, Bool, Bool-cases, true, false, not, Bytes, codes, equal, List, Option, none, some, [], ◌∷◌,
  if◌then◌else◌, ◌≡◌, ◌≢◌, ◌∙◌, refl, sym, ap, inl, inr, arith,
}
use camera_platform.Gst.{Gst, Trace, object_get}
use camera_platform.Gst.Effects.{branch}
use camera_platform.Gst.Observe.{last_drop}
use camera_platform.Server.Bin.{ProfileBin, set_drop, is_dropped}
use camera_platform.Server.Bin
use camera_platform.Server.Host.{ProfileHost}
use camera_platform.Server.Host.Control.{
  set_profile_enabled, enabled_outcome, profile_enabled, open_valve, on_named, put_back, enable,
}

-- The valve of the first branch whose profile has the name
abbrev pub valve_named : Bytes → List ProfileBin → Option ℕ
valve_named name [] = none
valve_named name (b ∷ bs) = if equal b.profile.name name then b.valve else valve_named name bs

-- GStreamer answers for `drop` what it was last set to.
abbrev pub Remembers : Gst → Type 0
Remembers g =
    (t : Trace) (v : ℕ) (d : Bool)
    → last_drop v t ≡ some d
    → g.succeeds t (object_get v (codes "drop")) ≡ d

-- Only `v` is set, to be open as asked.
abbrev Sets : ℕ → Bool → Trace → Trace → Type 0
Sets v enabled t u =
    (last_drop v u ≡ some (not enabled)) × ((w : ℕ) → w ≢ v → last_drop w u ≡ last_drop w t)

-- A search found a branch, set its valve and left the branches with their names and valves.
abbrev Switched : Bytes → ℕ → Bool → Trace → Option (Bool × List ProfileBin × Trace) → Type 0
Switched name v enabled t none = ⊥
Switched name v enabled t (some (ok, bs, u)) = (valve_named name bs ≡ some v) × Sets v enabled t u

enable-Sets :
    (v : ℕ) (enabled : Bool) (b : ProfileBin) (t : Trace)
    → b.valve ≡ some v
    → (last_drop v (enable enabled b t).2 ≡ some (not enabled))
      × ((enable enabled b t).1.valve ≡ some v)
      × ((enable enabled b t).1.profile.name ≡ b.profile.name)
unfolding enable set_drop Bin.set_state branch last_drop
enable-Sets v enabled b t h = ground arith

enable-others :
    (v w : ℕ) (enabled : Bool) (b : ProfileBin) (t : Trace)
    → b.valve ≡ some v
    → w ≢ v
    → last_drop w (enable enabled b t).2 ≡ last_drop w t
unfolding enable set_drop Bin.set_state branch last_drop
enable-others v w enabled b t h d = ground arith

here-Switched :
    (name : Bytes) (v : ℕ) (enabled : Bool) (b : ProfileBin) (bs : List ProfileBin) (t : Trace)
    → equal b.profile.name name ≡ true
    → b.valve ≡ some v
    → Switched name v enabled t
        (some ((enable enabled b t).0, (enable enabled b t).1 ∷ bs, (enable enabled b t).2))
here-Switched name v enabled b bs t e h =
    let set = enable-Sets v enabled b t h in
    (
      ap (λ n. if equal n name then (enable enabled b t).1.valve else valve_named name bs) set.2
          ∙ ap (λ x. if x then (enable enabled b t).1.valve else valve_named name bs) e
          ∙ set.1,
      (set.0, λ w d. enable-others v w enabled b t h d),
    )

later-Switched :
    (name : Bytes) (v : ℕ) (enabled : Bool) (b : ProfileBin) (t : Trace)
    (r : Option (Bool × List ProfileBin × Trace))
    → equal b.profile.name name ≡ false
    → Switched name v enabled t r
    → Switched name v enabled t (put_back b r)
unfolding put_back
later-Switched name v enabled b t none e h = elim h [ ]
later-Switched name v enabled b t (some (ok, bs, u)) e h =
    (ap (λ x. if x then b.valve else valve_named name bs) e ∙ h.0, h.1)

on_named-Switched :
    (name : Bytes) (v : ℕ) (enabled : Bool) (bs : List ProfileBin) (t : Trace)
    → valve_named name bs ≡ some v
    → Switched name v enabled t (on_named name (enable enabled) bs t)
unfolding on_named
on_named-Switched name v enabled [] t h = cc
on_named-Switched name v enabled (b ∷ bs) t h = elim (Bool-cases (equal b.profile.name name)) [
  | inl e ↦ rw e (
      here-Switched name v enabled b bs t e
        (sym (ap (λ x. if x then b.valve else valve_named name bs) e) ∙ h))
  | inr e ↦ rw e (
      later-Switched name v enabled b t (on_named name (enable enabled) bs t) e (
        on_named-Switched name v enabled bs t
          (sym (ap (λ x. if x then b.valve else valve_named name bs) e) ∙ h)))
]

-- What a search by `isDropped` answers
abbrev Reports : Gst → ℕ → Trace → Option (Bool × List ProfileBin × Trace) → Type 0
Reports g v t none = ⊥
Reports g v t (some r) = r.0 ≡ g.succeeds t (object_get v (codes "drop"))

later-Reports :
    (g : Gst) (v : ℕ) (b : ProfileBin) (t : Trace) (r : Option (Bool × List ProfileBin × Trace))
    → Reports g v t r
    → Reports g v t (put_back b r)
unfolding put_back
later-Reports g v b t none h = elim h [ ]
later-Reports g v b t (some r) h = h

is_dropped-Reports :
    (g : Gst) (v : ℕ) (b : ProfileBin) (t : Trace)
    → b.valve ≡ some v
    → (is_dropped g b t).0 ≡ g.succeeds t (object_get v (codes "drop"))
unfolding is_dropped
is_dropped-Reports g v b t h = rw h refl

on_named-Reports :
    (g : Gst) (name : Bytes) (v : ℕ) (bs : List ProfileBin) (t : Trace)
    → valve_named name bs ≡ some v
    → Reports g v t (on_named name (is_dropped g) bs t)
unfolding on_named
on_named-Reports g name v [] t h = cc
on_named-Reports g name v (b ∷ bs) t h = elim (Bool-cases (equal b.profile.name name)) [
  | inl e ↦ rw e (
      is_dropped-Reports g v b t (sym (ap (λ x. if x then b.valve else valve_named name bs) e) ∙ h))
  | inr e ↦ rw e (
      later-Reports g v b t (on_named name (is_dropped g) bs t) (
        on_named-Reports g name v bs t
          (sym (ap (λ x. if x then b.valve else valve_named name bs) e) ∙ h)))
]

not-not : (b : Bool) → not (not b) ≡ b
not-not true = refl
not-not false = refl

-- A profile whose branch has the valve `v` is reported as it was last switched: after
-- `setProfileEnabled`, `v` is set to be open just if the profile was enabled, no other valve is set,
-- and `profileEnabled` answers what was asked for, if GStreamer remembers what `drop` was set to.
pub set_profile_enabled-profile_enabled :
    (g : Gst) (name : Bytes) (v : ℕ) (enabled : Bool) (h : ProfileHost) (t : Trace)
    → Remembers g
    → valve_named name h.bins ≡ some v
    → let r = set_profile_enabled name enabled h t in
      ((profile_enabled g name r.1 r.2).0 ≡ enabled)
      × (last_drop v r.2 ≡ some (not enabled))
      × ((w : ℕ) → w ≢ v → last_drop w r.2 ≡ last_drop w t)
unfolding set_profile_enabled profile_enabled enabled_outcome open_valve
set_profile_enabled-profile_enabled g name v enabled h t m e =
    go (on_named name (enable enabled) h.bins t) (on_named-Switched name v enabled h.bins t e)
  where
    go :
        (r : Option (Bool × List ProfileBin × Trace))
        → Switched name v enabled t r
        → let x = enabled_outcome h t r in
          ((open_valve x.1 x.2 (on_named name (is_dropped g) x.1.bins x.2)).0 ≡ enabled)
          × (last_drop v x.2 ≡ some (not enabled))
          × ((w : ℕ) → w ≢ v → last_drop w x.2 ≡ last_drop w t)
    go none s = elim s [ ]
    go (some (ok, bs, u)) s = (
      answered bs u (on_named name (is_dropped g) bs u) (on_named-Reports g name v bs u s.0)
          (m u v (not enabled) s.1.0),
      s.1.0,
      s.1.1,
    )
      where
        answered :
            (bs : List ProfileBin) (u : Trace) (r : Option (Bool × List ProfileBin × Trace))
            → Reports g v u r
            → g.succeeds u (object_get v (codes "drop")) ≡ not enabled
            → (open_valve (record h { bins = bs }) u r).0 ≡ enabled
        answered bs u none k q = elim k [ ]
        answered bs u (some x) k q = ap not (k ∙ q) ∙ not-not enabled
