-- ===== src/Server/Host/Control/Sources.antt =====
-- The event source by which a host of server/ProfileHost.cpp watches its bus.
use camera_platform.Prelude.{
  Bool-cases, inl, inr, ℕ, Bool, Bytes, equal, List, Option, none, some, [], ◌∷◌, ◌≡◌, refl, ap,
  arith,
}
use camera_platform.Gst.{Gst, GstState, Trace, create_watch, get_bus}
use camera_platform.Gst.Effects.{ask_some, branch, branch-outcome}
use camera_platform.Gst.Observe.{
  Kind, of_event_source, of_event_source-zero, one_if_some, taken, given, Held, Held-trans,
}
use camera_platform.Server.Bin.{ProfileBin, set_drop}
use camera_platform.Server.Bin
use camera_platform.Server.Host.{ProfileHost}
use camera_platform.Server.Host.Control.{
  set_profile_enabled, enabled_outcome, enable, on_named, put_back, play, stop, change_state,
  attach_bus_watch, detach_bus_watch, detach_from, watch_bus, attach_source, on_bus_message,
  pop_message,
}

-- What the host owns of a kind: the source of its bus watch
abbrev pub host_owns : Kind → ProfileHost → ℕ
host_owns k h = of_event_source k (one_if_some h.bus_source)

-- All that a run takes of a kind is given back, or the host comes to own it.
abbrev pub HostHeld : Gst → Kind → ProfileHost → Trace → ProfileHost → Trace → Type 0
HostHeld g k h t i u = Held g k (host_owns k h) t (host_owns k i) u

pub HostHeld-trans :
    (g : Gst) (k : Kind) (h i j : ProfileHost) (t u v : Trace)
    → HostHeld g k h t i u
    → HostHeld g k i u j v
    → HostHeld g k h t j v
HostHeld-trans g k h i j t u v =
    Held-trans g k (host_owns k h) (host_owns k i) (host_owns k j) t u v

detach_from-HostHeld :
    (g : Gst) (k : Kind) (w : Option ℕ) (h : ProfileHost) (t : Trace)
    → h.bus_source ≡ w
    → HostHeld g k h t (detach_from w h t).1 (detach_from w h t).2
unfolding detach_from taken given
detach_from-HostHeld g k w h t e = ground (arith, e)

pub detach_from-none :
    (w : Option ℕ) (h : ProfileHost) (t : Trace)
    → h.bus_source ≡ w
    → (detach_from w h t).1.bus_source ≡ none
unfolding detach_from
detach_from-none none h t e = e
detach_from-none (some w) h t e = refl

attach_source-HostHeld :
    (g : Gst) (k : Kind) (context callback bus : ℕ) (w : Option ℕ) (h : ProfileHost) (t : Trace)
    → HostHeld g k h t
        (attach_source context callback bus w h t).1
        (attach_source context callback bus w h t).2
unfolding attach_source taken given
attach_source-HostHeld g k context callback bus w h t = ground arith

watch_bus-HostHeld :
    (g : Gst) (k : Kind) (context callback : ℕ) (bus : Option ℕ) (h : ProfileHost) (t : Trace)
    → h.bus_source ≡ none
    → HostHeld g k h t
        (watch_bus g context callback bus h t).1
        (watch_bus g context callback bus h t).2
unfolding watch_bus taken given
watch_bus-HostHeld g k context callback none h t e = refl
watch_bus-HostHeld g k context callback (some bus) h t e =
    let w = g.pointer t (create_watch bus) in
    let attached =
      attach_source-HostHeld g k context callback bus w (record h { bus_source = w })
        (create_watch bus ∷ t) in
    omega (
      arith,
      attached,
      of_event_source-zero k,
      ap (λ (o : Option ℕ). of_event_source k (one_if_some o)) e,
    )

asked_bus-HostHeld :
    (g : Gst) (k : Kind) (p : Option ℕ) (h : ProfileHost) (t : Trace)
    → HostHeld g k h t h (ask_some g get_bus p h t).2
unfolding taken given
asked_bus-HostHeld g k p h t = ground arith

pub attach_bus_watch-HostHeld :
    (g : Gst) (k : Kind) (context callback : Option ℕ) (h : ProfileHost) (t : Trace)
    → HostHeld g k h t
        (attach_bus_watch g context callback h t).1
        (attach_bus_watch g context callback h t).2
unfolding attach_bus_watch detach_bus_watch
attach_bus_watch-HostHeld g k none callback h t = refl
attach_bus_watch-HostHeld g k (some context) none h t = refl
attach_bus_watch-HostHeld g k (some context) (some callback) h t =
    branch-outcome (λ x. HostHeld g k h t x.1 x.2) _ _ _ h t (λ _. refl)
      λ _.
        let d = detach_from h.bus_source h t in
        let bus = ask_some g get_bus h.pipeline d.1 d.2 in
        let watched = watch_bus g context callback bus.0 d.1 bus.2 in
        HostHeld-trans g k h d.1 watched.1 t d.2 watched.2
          (detach_from-HostHeld g k h.bus_source h t refl)
          (HostHeld-trans g k d.1 d.1 watched.1 d.2 bus.2 watched.2
            (asked_bus-HostHeld g k h.pipeline d.1 d.2)
            (watch_bus-HostHeld g k context callback bus.0 d.1 bus.2
              (detach_from-none h.bus_source h t refl)))

change_state-HostHeld :
    (g : Gst) (k : Kind) (state : GstState) (reason : Bytes) (h : ProfileHost) (t : Trace)
    → HostHeld g k h t (change_state g state reason h t).1 (change_state g state reason h t).2
unfolding change_state taken given
change_state-HostHeld g k state reason h t = ground arith

pop_message-HostHeld :
    (g : Gst) (k : Kind) (w : Option ℕ) (h : ProfileHost) (t : Trace)
    → HostHeld g k h t (pop_message g w h t).1 (pop_message g w h t).2
unfolding pop_message taken given
pop_message-HostHeld g k w h t = ground arith

enable-keeps :
    (g : Gst) (k : Kind) (enabled : Bool) (b : ProfileBin) (t : Trace)
    → Held g k 0 t 0 (enable enabled b t).2
unfolding enable set_drop Bin.set_state branch taken given
enable-keeps g k enabled b t = ground arith

-- What was found took nothing that is counted.
abbrev FoundKeeps : Gst → Kind → Trace → Option (Bool × List ProfileBin × Trace) → Type 0
FoundKeeps g k t none = Unit {0}
FoundKeeps g k t (some r) = Held g k 0 t 0 r.2

put_back-FoundKeeps :
    (g : Gst) (k : Kind) (b : ProfileBin) (t : Trace) (r : Option (Bool × List ProfileBin × Trace))
    → FoundKeeps g k t r
    → FoundKeeps g k t (put_back b r)
unfolding put_back
put_back-FoundKeeps g k b t none h = tt
put_back-FoundKeeps g k b t (some (a, bs, u)) h = h

on_named-FoundKeeps :
    (g : Gst) (k : Kind) (name : Bytes) (enabled : Bool) (bs : List ProfileBin) (t : Trace)
    → FoundKeeps g k t (on_named name (enable enabled) bs t)
unfolding on_named
on_named-FoundKeeps g k name enabled [] t = tt
on_named-FoundKeeps g k name enabled (b ∷ bs) t = elim (Bool-cases (equal b.profile.name name)) [
  | inl e ↦ rw e (enable-keeps g k enabled b t)
  | inr e ↦ rw e (
      put_back-FoundKeeps g k b t (on_named name (enable enabled) bs t)
        (on_named-FoundKeeps g k name enabled bs t))
]

enabled_outcome-HostHeld :
    (g : Gst) (k : Kind) (h : ProfileHost) (t : Trace) (r : Option (Bool × List ProfileBin × Trace))
    → FoundKeeps g k t r
    → HostHeld g k h t (enabled_outcome h t r).1 (enabled_outcome h t r).2
unfolding enabled_outcome
enabled_outcome-HostHeld g k h t none e = refl
enabled_outcome-HostHeld g k h t (some (a, bs, u)) e = omega arith

-- The operations of a host beside its set-up: all that they take of a kind is given back, but the
-- source that the host then owns.
pub set_profile_enabled-HostHeld :
    (g : Gst) (k : Kind) (name : Bytes) (enabled : Bool) (h : ProfileHost) (t : Trace)
    → HostHeld g k h t
        (set_profile_enabled name enabled h t).1
        (set_profile_enabled name enabled h t).2
unfolding set_profile_enabled
set_profile_enabled-HostHeld g k name enabled h t =
    enabled_outcome-HostHeld g k h t (on_named name (enable enabled) h.bins t)
      (on_named-FoundKeeps g k name enabled h.bins t)

pub play-HostHeld :
    (g : Gst) (k : Kind) (h : ProfileHost) (t : Trace)
    → HostHeld g k h t (play g h t).1 (play g h t).2
unfolding play
play-HostHeld g k h t =
    branch-outcome (λ x. HostHeld g k h t x.1 x.2) _ _ _ h t (λ _. refl)
      (λ _. change_state-HostHeld g k _ _ h t)

pub stop-HostHeld :
    (g : Gst) (k : Kind) (h : ProfileHost) (t : Trace)
    → HostHeld g k h t (stop g h t).1 (stop g h t).2
unfolding stop
stop-HostHeld g k h t =
    branch-outcome (λ x. HostHeld g k h t x.1 x.2) _ _ _ h t (λ _. refl)
      (λ _. change_state-HostHeld g k _ _ h t)

pub detach_bus_watch-HostHeld :
    (g : Gst) (k : Kind) (h : ProfileHost) (t : Trace)
    → HostHeld g k h t (detach_bus_watch h t).1 (detach_bus_watch h t).2
unfolding detach_bus_watch
detach_bus_watch-HostHeld g k h t = detach_from-HostHeld g k h.bus_source h t refl

pub on_bus_message-HostHeld :
    (g : Gst) (k : Kind) (h : ProfileHost) (t : Trace)
    → HostHeld g k h t (on_bus_message g h t).1 (on_bus_message g h t).2
unfolding on_bus_message
on_bus_message-HostHeld g k h t = pop_message-HostHeld g k h.bus_source h t
