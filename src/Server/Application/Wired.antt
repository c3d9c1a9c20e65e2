-- ===== src/Server/Application/Wired.antt =====
-- What an `initialize` of server/Application.cpp that succeeds has put together.
use camera_platform.Prelude.{
  ℕ, Bool, true, false, not, Bytes, Option, none, some, ◌∷◌, ◌≡◌, refl, inl,
}
use camera_platform.Gst.{
  Gst, Trace, gst_init, context_new, loop_new, create_watch, get_bus, rtsp_create_source,
  set_callback, source_attach,
}
use camera_platform.Gst.Attached.{
  attached_to, has_callback, IsBusOf, IsWatchOf, IsSourceOf, attached_to-source_attach,
  has_callback-set_callback, attached_to-attach,
}
use camera_platform.Gst.Effects.{branch-outcome, ask_some}
use camera_platform.Video.Values.{PipelineOutcome, test_source}
use camera_platform.Server.Host
use camera_platform.Server.Host.{ProfileHost, all_made}
use camera_platform.Server.Host.Linked.{IsLinked, setup_pipeline_ok}
use camera_platform.Server.Host.Control.{
  attach_bus_watch, detach_bus_watch, detach_from, watch_bus, attach_source,
}
use camera_platform.Server.Rtsp
use camera_platform.Server.Rtsp.{RtspServer}
use camera_platform.Server.Application.{
  Application, initialize, wire, make_rtsp, attach_pipeline_events, attach_rtsp, attach_server,
  pipeline_callback, install_signal_handlers,
}
use camera_platform.Server.Application

-- The watch has the callback, is attached to the context, and watches the bus of the pipeline.
abbrev pub IsOnBus : Gst → ℕ → Option ℕ → Option ℕ → Trace → Type 0
IsOnBus g context none w t = ⊥
IsOnBus g context (some p) none t = ⊥
IsOnBus g context (some p) (some w) t =
    (attached_to w t ≡ some context) × (has_callback w t ≡ true) × IsWatchOf g p w t

-- The host is linked, and the bus of its pipeline is watched on the context for the application.
abbrev pub IsWatched : Gst → ℕ → ProfileHost → Trace → Type 0
IsWatched g context h t =
    IsLinked h
    × (h.app_callback ≡ some pipeline_callback)
    × IsOnBus g context h.pipeline h.bus_source t

abbrev WatchesIfOk : Gst → ℕ → PipelineOutcome × ProfileHost × Trace → Type 0
WatchesIfOk g context r = r.0.ok ≡ true → IsWatched g context r.1 r.2

attach_source-WatchesIfOk :
    (g : Gst) (context bus p : ℕ) (w : Option ℕ) (h : ProfileHost) (t : Trace)
    → IsLinked h
    → h.pipeline ≡ some p
    → h.bus_source ≡ w
    → IsBusOf g p bus t
    → g.pointer t (create_watch bus) ≡ w
    → WatchesIfOk g context (attach_source context pipeline_callback bus w h (create_watch bus ∷ t))
unfolding attach_source all_made attached_to has_callback IsWatchOf
attach_source-WatchesIfOk g context bus p none h t l ep e b f = λ ok. cc
attach_source-WatchesIfOk g context bus p (some w) h t l ep e b f = λ ok. (
  l,
  refl,
  rw (ep, e)
      (
        attached_to-source_attach w context (set_callback w ∷ create_watch bus ∷ t),
        has_callback-set_callback w (create_watch bus ∷ t),
        inl (f, b),
      ),
)

watch_bus-WatchesIfOk :
    (g : Gst) (context p : ℕ) (bus : Option ℕ) (h : ProfileHost) (t : Trace)
    → IsLinked h
    → h.pipeline ≡ some p
    → g.pointer t (get_bus p) ≡ bus
    → WatchesIfOk g context (watch_bus g context pipeline_callback bus h (get_bus p ∷ t))
unfolding watch_bus all_made IsBusOf
watch_bus-WatchesIfOk g context p none h t l ep e = λ ok. cc
watch_bus-WatchesIfOk g context p (some bus) h t l ep e =
    let w = g.pointer (get_bus p ∷ t) (create_watch bus) in
    attach_source-WatchesIfOk g context bus p w (record h { bus_source = w }) (get_bus p ∷ t) l ep
      refl (inl (refl, e)) refl

detach_from-IsLinked :
    (w : Option ℕ) (h : ProfileHost) (t : Trace) → IsLinked h → IsLinked (detach_from w h t).1
unfolding detach_from all_made
detach_from-IsLinked none h t l = l
detach_from-IsLinked (some w) h t l = l

detach_from-pipeline :
    (w : Option ℕ) (h : ProfileHost) (t : Trace) → (detach_from w h t).1.pipeline ≡ h.pipeline
unfolding detach_from
detach_from-pipeline none h t = refl
detach_from-pipeline (some w) h t = refl

asked_bus-WatchesIfOk :
    (g : Gst) (context : ℕ) (o : Option ℕ) (h : ProfileHost) (t : Trace)
    → IsLinked h
    → h.pipeline ≡ o
    → WatchesIfOk g context (
        watch_bus g context pipeline_callback
          (ask_some g get_bus o h t).0
          h
          (ask_some g get_bus o h t).2)
asked_bus-WatchesIfOk g context none h t l e = λ ok. unfold watch_bus in cc
asked_bus-WatchesIfOk g context (some p) h t l e =
    watch_bus-WatchesIfOk g context p (g.pointer t (get_bus p)) h t l e refl

attach_bus_watch-WatchesIfOk :
    (g : Gst) (context : ℕ) (h : ProfileHost) (t : Trace)
    → IsLinked h
    → WatchesIfOk g context (attach_bus_watch g (some context) (some pipeline_callback) h t)
unfolding attach_bus_watch detach_bus_watch
attach_bus_watch-WatchesIfOk g context h t l =
    branch-outcome (WatchesIfOk g context) _ _ _ h t (λ _ ok. cc)
      λ _.
        let d = detach_from h.bus_source h t in
        asked_bus-WatchesIfOk g context h.pipeline d.1 d.2 (detach_from-IsLinked h.bus_source h t l)
          (detach_from-pipeline h.bus_source h t)

-- The RTSP server has a source, which was made for it and is attached to the context.
abbrev IsOnServer : Gst → ℕ → Option ℕ → Option ℕ → Trace → Type 0
IsOnServer g context none w t = ⊥
IsOnServer g context (some s) none t = ⊥
IsOnServer g context (some s) (some w) t = (attached_to w t ≡ some context) × IsSourceOf g s w t

abbrev pub IsServing : Gst → ℕ → Option RtspServer → Trace → Type 0
IsServing g context none t = ⊥
IsServing g context (some r) t = IsOnServer g context r.server r.source t

IsOnBus-attach :
    (g : Gst) (context w s : ℕ) (p source : Option ℕ) (t : Trace)
    → IsOnBus g context p source t
    → IsOnBus g context p source (source_attach w context ∷ rtsp_create_source s ∷ t)
unfolding attached_to has_callback IsWatchOf
IsOnBus-attach g context w s none source t h = h
IsOnBus-attach g context w s (some p) none t h = h
IsOnBus-attach g context w s (some p) (some v) t h =
    (attached_to-attach w v context (rtsp_create_source s ∷ t) h.0, h.1, h.2)

-- A success leaves the server attached, and what watched the bus still watches it.
abbrev ServesIfOk : Gst → ℕ → Trace → PipelineOutcome × RtspServer × Trace → Type 0
ServesIfOk g context t r =
    r.0.ok ≡ true
    → IsServing g context (some r.1) r.2
      × ((p source : Option ℕ) → IsOnBus g context p source t → IsOnBus g context p source r.2)

attach_source-ServesIfOk :
    (g : Gst) (context s : ℕ) (message : Bytes) (w : Option ℕ) (r : RtspServer) (t : Trace)
    → r.server ≡ some s
    → g.pointer t (rtsp_create_source s) ≡ w
    → ServesIfOk g context t (Rtsp.attach_source context message w r (rtsp_create_source s ∷ t))
unfolding Rtsp.attach_source attached_to IsSourceOf
attach_source-ServesIfOk g context s message none r t e f = λ ok. cc
attach_source-ServesIfOk g context s message (some w) r t e f = λ ok. (
  rw e (attached_to-source_attach w context (rtsp_create_source s ∷ t), inl (refl, f)),
  λ p source. IsOnBus-attach g context w s p source t,
)

create_source-ServesIfOk :
    (g : Gst) (context : ℕ) (message : Bytes) (server : Option ℕ) (r : RtspServer) (t : Trace)
    → r.server ≡ server
    → ServesIfOk g context t (Rtsp.create_source g context message server r t)
unfolding Rtsp.create_source
create_source-ServesIfOk g context message none r t e = λ ok. cc
create_source-ServesIfOk g context message (some s) r t e =
    branch-outcome (ServesIfOk g context t) _ _ _ r t (λ _ ok. cc)
      (λ _. attach_source-ServesIfOk g context s message _ r t e refl)

-- On one context, which is the application's, the bus of the linked pipeline is watched and the RTSP
-- server is attached.
abbrev pub IsReady : Gst → Application → Trace → Type 0
IsReady g a t =
    (context : ℕ) × (a.context ≡ some context)
    × IsWatched g context a.host t
    × IsServing g context a.rtsp t

abbrev ReadyIfOk : Gst → Bool × Application × Trace → Type 0
ReadyIfOk g r = r.0 ≡ true → IsReady g r.1 r.2

-- What the watch leaves, on the application's context
abbrev WatchedOn : Gst → Option ℕ → Application → Trace → Type 0
WatchedOn g none a t = ⊥
WatchedOn g (some context) a t = (a.context ≡ some context) × IsWatched g context a.host t

attach_server-ReadyIfOk :
    (g : Gst) (message : Bytes) (rtsp : Option RtspServer) (context : Option ℕ) (a : Application)
    (t : Trace)
    → WatchedOn g context a t
    → ReadyIfOk g (attach_server g message rtsp context a t)
unfolding attach_server all_made Rtsp.attach
attach_server-ReadyIfOk g message none context a t h = λ ok. cc
attach_server-ReadyIfOk g message (some r) none a t h = λ ok. cc
attach_server-ReadyIfOk g message (some r) (some context) a t (e, (linked, callback, watch)) = λ ok.
    let serves = create_source-ServesIfOk g context message r.server r t refl ok in
    (context, e, (linked, callback, serves.1 a.host.pipeline a.host.bus_source watch), serves.0)

watch_bus-WatchedOn :
    (g : Gst) (context : Option ℕ) (a : Application) (t : Trace)
    → IsLinked a.host
    → a.context ≡ context
    → (Application.watch_bus g context a t).0 ≡ true
    → WatchedOn g
        (Application.watch_bus g context a t).1.context
        (Application.watch_bus g context a t).1
        (Application.watch_bus g context a t).2
unfolding Application.watch_bus
watch_bus-WatchedOn g none a t l e = λ ok. cc
watch_bus-WatchedOn g (some context) a t l e =
    λ ok. rw e (refl, attach_bus_watch-WatchesIfOk g context a.host t l ok)

not-false : (b : Bool) → not b ≡ false → b ≡ true
not-false true e = refl
not-false false e = cc

wire-ReadyIfOk :
    (g : Gst) (message : Bytes) (a : Application) (t : Trace) → ReadyIfOk g (wire g message a t)
unfolding wire attach_pipeline_events attach_rtsp make_rtsp
wire-ReadyIfOk g message a t =
    branch-outcome (ReadyIfOk g) _ _ _ _ _ (λ _ ok. cc)
      λ e.
        let built = Host.setup_pipeline g a.host t in
        let made = make_rtsp g (record a { host = built.1 }) built.2 in
        let watched = Application.watch_bus g made.1.context made.1 made.2 in
        branch-outcome (ReadyIfOk g) _ _ _ watched.1 watched.2 (λ _ ok. cc)
          λ f.
            attach_server-ReadyIfOk g message watched.1.rtsp watched.1.context watched.1 watched.2 (
              watch_bus-WatchedOn g made.1.context made.1 made.2
                (setup_pipeline_ok g a.host t (not-false _ e)) refl (not-false _ f))

-- Where `initialize` reports success, the host has all five elements and is linked. A watch that was made
-- for the bus of its pipeline has a callback and is attached to the application's context, and so is a
-- source that was made for the RTSP server; both are still attached, and the host has the application's
-- callback. This holds whatever GStreamer answers.
pub initialize_ok :
    (g : Gst) (message : Bytes) (a : Application) (t : Trace)
    → (initialize g message a t).0 ≡ true
    → IsReady g (initialize g message a t).1 (initialize g message a t).2
unfolding initialize
initialize_ok g message a t =
    let context = g.pointer (gst_init ∷ t) context_new in
    let loop = g.pointer (context_new ∷ gst_init ∷ t) (loop_new context) in
    let signalled =
      install_signal_handlers g (record a { context = context; main_loop = loop })
        (loop_new context ∷ context_new ∷ gst_init ∷ t) in
    let sourced =
      Application.on_host (Host.set_video_source (some test_source)) signalled.1 signalled.2 in
    branch-outcome (ReadyIfOk g) _ _ _ sourced.1 sourced.2 (λ _ ok. cc)
      (λ _. wire-ReadyIfOk g message sourced.1 sourced.2)
