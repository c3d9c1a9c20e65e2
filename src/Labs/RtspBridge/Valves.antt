-- ===== src/Labs/RtspBridge/Valves.antt =====
-- The valves of labs/lab6-rtsp-bridge.cpp follow the viewers.
use camera_platform.Prelude.{
  ℕ, Bool, true, false, ◌==◌, ==_self, Option, none, some, List, [], ◌∷◌, if◌then◌else◌, ◌≡◌, ◌≢◌,
  refl, sym, ap, ◌∙◌, arith,
}
use camera_platform.Gst.{Gst, Trace, media_element, pull_sample, buffer_copy, clear_times}
use camera_platform.Gst.Effects.{branch}
use camera_platform.Gst.Observe.{last_drop}
use camera_platform.Labs.Bridge.{Bridge, take_sample, wire, unwire}
use camera_platform.Labs.RtspBridge.Events.{
  Event, Mount, sample, arrives, opens, leaves, closes, hd, sd, handle, dispatch, dispatch_all,
}
use camera_platform.Labs.RtspBridge.{
  Profile, Program, on_new_sample, with_sample, with_buffer, arrive, wire_media, open_valve, leave,
  close_valve, set_drop, on_bridge, on_hd, on_sd, reset_pushed,
}

-- The bridge's own steps set no valve.
take_sample-last_drop :
    (v : ℕ) (g : Gst) (s buffer : ℕ) (b : Bridge) (t : Trace)
    → (last_drop v (take_sample g s buffer b t).2 ≡ last_drop v t)
      × ((take_sample g s buffer b t).1.appsrc ≡ b.appsrc)
unfolding take_sample last_drop branch
take_sample-last_drop v g s buffer b t = ground arith

wire-last_drop :
    (v : ℕ) (g : Gst) (appsrc : Option ℕ) (b : Bridge) (t : Trace)
    → (last_drop v (wire g reset_pushed appsrc b t).2 ≡ last_drop v t)
      × ((wire g reset_pushed appsrc b t).1.appsrc ≡ appsrc)
unfolding wire last_drop
wire-last_drop v g appsrc b t = ground arith

-- What a step of its mount makes of a valve's `drop`
unfoldable pub settled : Event → Option Bool → Option Bool
settled (sample sink) d = d
settled (arrives media) d = d
settled (opens media) d = some false
settled leaves d = d
settled closes d = some true

-- The mount's valve stays, and a valve `w` has what the event makes of it if it is the mount's.
abbrev Follows : Event → (w v : ℕ) → (p q : Profile) → Trace → Trace → Type 0
Follows e w v p q t u =
    (q.valve ≡ p.valve)
    × (last_drop w u ≡ (if v == w then settled e (last_drop w t) else last_drop w t))

if_same : {A : Type 0} → (b : Bool) → (a : A) → a ≡ (if b then a else a)
if_same true a = refl
if_same false a = refl

with_buffer-last_drop :
    (w : ℕ) (g : Gst) (s : ℕ) (buffer : Option ℕ) (p : Profile) (t : Trace)
    → (last_drop w (with_buffer g s buffer p t).2 ≡ last_drop w t)
      × ((with_buffer g s buffer p t).1.valve ≡ p.valve)
unfolding with_buffer on_bridge last_drop
with_buffer-last_drop w g s none p t = (refl, refl)
with_buffer-last_drop w g s (some buffer) p t =
    ((take_sample-last_drop w g s buffer p.bridge (clear_times buffer ∷ t)).0, refl)

with_sample-last_drop :
    (w : ℕ) (g : Gst) (s : Option ℕ) (p : Profile) (t : Trace)
    → (last_drop w (with_sample g s p t).2 ≡ last_drop w t)
      × ((with_sample g s p t).1.valve ≡ p.valve)
unfolding with_sample last_drop
with_sample-last_drop w g none p t = (refl, refl)
with_sample-last_drop w g (some s) p t =
    with_buffer-last_drop w g s (g.pointer t (buffer_copy s)) p (buffer_copy s ∷ t)

set_drop-last_drop :
    (w v : ℕ) (d : Bool) (p : Profile) (t : Trace)
    → p.valve ≡ some v
    → (last_drop w (set_drop d p t).2 ≡ (if v == w then some d else last_drop w t))
      × ((set_drop d p t).1.valve ≡ p.valve)
unfolding set_drop last_drop
set_drop-last_drop w v d p t h = ground arith

-- Setting `drop` after calls that do not
set_drop-Follows :
    (e : Event) (w v : ℕ) (d : Bool) (p q : Profile) (t u : Trace)
    → ((o : Option Bool) → settled e o ≡ some d)
    → p.valve ≡ some v
    → q.valve ≡ p.valve
    → last_drop w u ≡ last_drop w t
    → Follows e w v p (set_drop d q u).1 t (set_drop d q u).2
set_drop-Follows e w v d p q t u he hv hq hu = (
  (set_drop-last_drop w v d q u (hq ∙ hv)).1 ∙ hq,
  (set_drop-last_drop w v d q u (hq ∙ hv)).0
      ∙ ap (λ o. if v == w then some d else o) hu
      ∙ ap (λ o. if v == w then o else last_drop w t) (sym (he (last_drop w t))),
)

-- A step that sets no valve
quiet-Follows :
    (e : Event) (w v : ℕ) (p q : Profile) (t u : Trace)
    → ((o : Option Bool) → settled e o ≡ o)
    → q.valve ≡ p.valve
    → last_drop w u ≡ last_drop w t
    → Follows e w v p q t u
quiet-Follows e w v p q t u he hq hu = (
  hq,
  hu
      ∙ if_same (v == w) (last_drop w t)
      ∙ ap (λ o. if v == w then o else last_drop w t) (sym (he (last_drop w t))),
)

arrive-last_drop :
    (w : ℕ) (g : Gst) (media : ℕ) (p : Profile) (t : Trace)
    → (last_drop w (arrive g media p t).2 ≡ last_drop w t)
      × ((arrive g media p t).1.valve ≡ p.valve)
unfolding arrive on_bridge last_drop
arrive-last_drop w g media p t = (go (g.pointer t (media_element media)), refl)
  where
    go : (o : Option ℕ) → last_drop w (wire_media g o p (media_element media ∷ t)).2 ≡ last_drop w t
    go none = unfold wire_media last_drop in (wire-last_drop w g none p.bridge _).0
    go (some e) = unfold wire_media last_drop in (wire-last_drop w g _ p.bridge _).0

unwire-last_drop : (w : ℕ) (b : Bridge) (t : Trace) → last_drop w (unwire b t).2 ≡ last_drop w t
unfolding unwire last_drop
unwire-last_drop w b t = ground arith

handle-Follows :
    (w v : ℕ) (g : Gst) (e : Event) (p : Profile) (t : Trace)
    → p.valve ≡ some v
    → Follows e w v p (handle g e p t).1 t (handle g e p t).2
unfolding handle on_new_sample open_valve leave close_valve on_bridge settled last_drop
handle-Follows w v g (sample sink) p t h =
    let r = with_sample-last_drop w g (g.pointer t (pull_sample sink)) p (pull_sample sink ∷ t) in
    let x = handle g (sample sink) p t in
    quiet-Follows (sample sink) w v p x.1 t x.2 (λ o. refl) r.1 r.0
handle-Follows w v g (arrives media) p t h =
    let r = arrive-last_drop w g media p t in
    let x = arrive g media p t in quiet-Follows (arrives media) w v p x.1 t x.2 (λ o. refl) r.1 r.0
handle-Follows w v g (opens media) p t h =
    set_drop-Follows (opens media) w v false p p t _ (λ o. refl) h refl refl
handle-Follows w v g leaves p t h =
    quiet-Follows leaves w v p (leave p t).1 t (leave p t).2 (λ o. refl) refl
      (unwire-last_drop w p.bridge t)
handle-Follows w v g closes p t h = set_drop-Follows closes w v true p p t t (λ o. refl) h refl refl

-- What the events make of the `drop` of a mount's valve: only those of the mount count.
unfoldable pub followed : Mount → List (Mount × Event) → Option Bool → Option Bool
followed m [] d = d
followed hd ((hd, e) ∷ es) d = followed hd es (settled e d)
followed hd ((sd, e) ∷ es) d = followed hd es d
followed sd ((hd, e) ∷ es) d = followed sd es d
followed sd ((sd, e) ∷ es) d = followed sd es (settled e d)

-- The valves of the two mounts
abbrev pub Valves : (v v' : ℕ) → Program → Type 0
Valves v v' s = (s.hd.valve ≡ some v) × (s.sd.valve ≡ some v')

if_apart : {A : Type 0} → (v w : ℕ) → (a b : A) → v ≢ w → (if v == w then a else b) ≡ b
if_apart v w a b h = ground arith

handle-own :
    (v : ℕ) (g : Gst) (e : Event) (p : Profile) (t : Trace)
    → p.valve ≡ some v
    → last_drop v (handle g e p t).2 ≡ settled e (last_drop v t)
handle-own v g e p t h =
    (handle-Follows v v g e p t h).1
    ∙ ap (λ b. if b then settled e (last_drop v t) else last_drop v t) (==_self v)

handle-other :
    (w v : ℕ) (g : Gst) (e : Event) (p : Profile) (t : Trace)
    → p.valve ≡ some v
    → v ≢ w
    → last_drop w (handle g e p t).2 ≡ last_drop w t
handle-other w v g e p t h d = (handle-Follows w v g e p t h).1 ∙ if_apart v w _ _ d

handle-valve :
    (v : ℕ) (g : Gst) (e : Event) (p : Profile) (t : Trace)
    → p.valve ≡ some v
    → (handle g e p t).1.valve ≡ some v
handle-valve v g e p t h = (handle-Follows v v g e p t h).0 ∙ h

-- Each valve is as the steps of its own mount's callbacks have left it, in whatever order they run: open
-- where the last of them that sets it is the end of "media-configure", closed where it is the end of
-- "unprepared", and untouched by samples, by the sections under the lock and by the other mount, whatever
-- GStreamer answers, where the two valves are different objects.
pub dispatch_all-followed :
    (g : Gst) (v v' : ℕ) (es : List (Mount × Event)) (s : Program) (t : Trace)
    → v ≢ v'
    → Valves v v' s
    → (last_drop v (dispatch_all g es s t).2 ≡ followed hd es (last_drop v t))
      × (last_drop v' (dispatch_all g es s t).2 ≡ followed sd es (last_drop v' t))
unfolding dispatch_all dispatch on_hd on_sd followed
dispatch_all-followed g v v' [] s t d h = (refl, refl)
dispatch_all-followed g v v' ((hd, e) ∷ es) s t d h =
    let rest =
      dispatch_all-followed g v v' es (dispatch g hd e s t).1 (dispatch g hd e s t).2 d
        (handle-valve v g e s.hd t h.0, h.1) in
    (
      rest.0 ∙ ap (followed hd es) (handle-own v g e s.hd t h.0),
      rest.1 ∙ ap (followed sd es) (handle-other v' v g e s.hd t h.0 d),
    )
dispatch_all-followed g v v' ((sd, e) ∷ es) s t d h =
    let rest =
      dispatch_all-followed g v v' es (dispatch g sd e s t).1 (dispatch g sd e s t).2 d
        (h.0, handle-valve v' g e s.sd t h.1) in
    (
      rest.0 ∙ ap (followed hd es) (handle-other v v' g e s.sd t h.1 (λ q. d (sym q))),
      rest.1 ∙ ap (followed sd es) (handle-own v' g e s.sd t h.1),
    )
