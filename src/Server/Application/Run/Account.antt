-- ===== src/Server/Application/Run/Account.antt =====
-- What server/Application.cpp and server/main.cpp take from GLib and give back.
use camera_platform.Prelude.{ℕ, ◌+◌, Bytes, Option, none, some, ◌∷◌, ◌≡◌, refl, ap, arith}
use camera_platform.Protocol.{rtsp_port}
use camera_platform.Gst.{Gst, Trace, gst_init, context_new, loop_new}
use camera_platform.Gst.Effects.{M, branch-outcome}
use camera_platform.Gst.Observe.{
  Kind, of_context, of_main_loop, of_event_source, of_event_source-zero, one_if_some, taken, given,
  Held, Held-trans,
}
use camera_platform.Video.Values.{test_source}
use camera_platform.Server.Host
use camera_platform.Server.Host.{ProfileHost}
use camera_platform.Server.Host.Control
use camera_platform.Server.Host.Control.Sources.{host_owns, HostHeld, attach_bus_watch-HostHeld}
use camera_platform.Server.Host.Operations.Sources.{setup_pipeline-HostHeld}
use camera_platform.Server.Rtsp.{RtspServer}
use camera_platform.Server.Rtsp.Sources.{server_owns, new_server-ServerHeld, attach-ServerHeld}
use camera_platform.Server.Application.{
  Application, on_host, watch_bus, attach_pipeline_events, make_rtsp, attach_server, attach_rtsp,
  wire, initialize, install_signal_handlers, on_context, watch_signal, pipeline_callback,
}

-- What the application's RTSP server owns of a kind, if there is one
abbrev pub rtsp_owns : Kind → Option RtspServer → ℕ
rtsp_owns k none = 0
rtsp_owns k (some r) = server_owns k r

-- What the application owns of a kind
abbrev pub app_owns : Kind → Application → ℕ
app_owns k a =
    of_context k (one_if_some a.context)
    + of_main_loop k (one_if_some a.main_loop)
    + of_event_source k (one_if_some a.sigint_source)
    + of_event_source k (one_if_some a.sigterm_source)
    + host_owns k a.host
    + rtsp_owns k a.rtsp

abbrev pub AppHeld : Gst → Kind → Application → Trace → Application → Trace → Type 0
AppHeld g k a t b u = Held g k (app_owns k a) t (app_owns k b) u

pub AppHeld-trans :
    (g : Gst) (k : Kind) (a b c : Application) (t u v : Trace)
    → AppHeld g k a t b u
    → AppHeld g k b u c v
    → AppHeld g k a t c v
AppHeld-trans g k a b c t u v = Held-trans g k (app_owns k a) (app_owns k b) (app_owns k c) t u v

pub on_host-AppHeld :
    {A : Type 0} (g : Gst) (k : Kind) (m : M ProfileHost A) (a : Application) (t : Trace)
    → HostHeld g k a.host t (m a.host t).1 (m a.host t).2
    → AppHeld g k a t (on_host m a t).1 (on_host m a t).2
on_host-AppHeld g k m a t h = omega arith

watch_signal-Held :
    (g : Gst) (k : Kind) (context signum : ℕ) (a : Application) (t : Trace)
    → let w = watch_signal g context signum a t in
      Held g k 0 t (of_event_source k (one_if_some w.0)) w.2
unfolding watch_signal taken given
watch_signal-Held g k context signum a t = ground arith

on_context-AppHeld :
    (g : Gst) (k : Kind) (context : Option ℕ) (a : Application) (t : Trace)
    → a.sigint_source ≡ none
    → a.sigterm_source ≡ none
    → AppHeld g k a t (on_context g context a t).1 (on_context g context a t).2
unfolding on_context
on_context-AppHeld g k none a t e f = refl
on_context-AppHeld g k (some c) a t e f =
    let int = watch_signal g c 2 a t in
    let b = record a { sigint_source = int.0 } in
    let term = watch_signal g c 15 b int.2 in
    omega (
      arith,
      watch_signal-Held g k c 2 a t,
      watch_signal-Held g k c 15 b int.2,
      of_event_source-zero k,
      ap (λ (o : Option ℕ). of_event_source k (one_if_some o)) e,
      ap (λ (o : Option ℕ). of_event_source k (one_if_some o)) f,
    )

attach_server-AppHeld :
    (g : Gst) (k : Kind) (text : Bytes) (server : Option RtspServer) (context : Option ℕ)
    (a : Application) (t : Trace)
    → a.rtsp ≡ server
    → AppHeld g k a t
        (attach_server g text server context a t).1
        (attach_server g text server context a t).2
unfolding attach_server
attach_server-AppHeld g k text none context a t e = refl
attach_server-AppHeld g k text (some r) none a t e = refl
attach_server-AppHeld g k text (some r) (some c) a t e =
    omega (arith, attach-ServerHeld g k text c r t, ap (λ (o : Option RtspServer). rtsp_owns k o) e)

watch_bus-AppHeld :
    (g : Gst) (k : Kind) (context : Option ℕ) (a : Application) (t : Trace)
    → AppHeld g k a t (watch_bus g context a t).1 (watch_bus g context a t).2
unfolding watch_bus
watch_bus-AppHeld g k none a t = refl
watch_bus-AppHeld g k (some c) a t =
    on_host-AppHeld g k (Control.attach_bus_watch g (some c) (some pipeline_callback)) a t
      (attach_bus_watch-HostHeld g k (some c) (some pipeline_callback) a.host t)

make_rtsp-AppHeld :
    (g : Gst) (k : Kind) (a : Application) (t : Trace)
    → a.rtsp ≡ none
    → AppHeld g k a t (make_rtsp g a t).1 (make_rtsp g a t).2
unfolding make_rtsp
make_rtsp-AppHeld g k a t e = omega (
  arith,
  new_server-ServerHeld g k a.host rtsp_port t,
  ap (λ (o : Option RtspServer). rtsp_owns k o) e,
)

wire-AppHeld :
    (g : Gst) (k : Kind) (text : Bytes) (a : Application) (t : Trace)
    → a.rtsp ≡ none
    → AppHeld g k a t (wire g text a t).1 (wire g text a t).2
unfolding wire attach_pipeline_events attach_rtsp
wire-AppHeld g k text a t e =
    let built = on_host (Host.setup_pipeline g) a t in
    let built-Held =
      on_host-AppHeld g k (Host.setup_pipeline g) a t (setup_pipeline-HostHeld g k a.host t) in
    branch-outcome (λ x. AppHeld g k a t x.1 x.2) _ _ _ built.1 built.2 (λ _. built-Held)
      λ _.
        let made = make_rtsp g built.1 built.2 in
        let watched = watch_bus g made.1.context made.1 made.2 in
        let so_far = AppHeld-trans g k a built.1 watched.1 t built.2 watched.2 built-Held (
          AppHeld-trans g k built.1 made.1 watched.1 built.2 made.2 watched.2
            (make_rtsp-AppHeld g k built.1 built.2 e)
            (watch_bus-AppHeld g k made.1.context made.1 made.2)) in
        branch-outcome (λ x. AppHeld g k a t x.1 x.2) _ _ _ watched.1 watched.2 (λ _. so_far)
          λ _.
            let r = attach_server g text watched.1.rtsp watched.1.context watched.1 watched.2 in
            AppHeld-trans g k a watched.1 r.1 t watched.2 r.2 so_far (
              attach_server-AppHeld g k text watched.1.rtsp watched.1.context watched.1 watched.2
                refl)

-- Nothing was initialised yet.
abbrev pub IsFresh : Application → Type 0
IsFresh a =
    (a.context ≡ none)
    × (a.main_loop ≡ none)
    × (a.sigint_source ≡ none)
    × (a.sigterm_source ≡ none)
    × (a.rtsp ≡ none)

opened-Held :
    (g : Gst) (k : Kind) (t : Trace)
    → let context = g.pointer (gst_init ∷ t) context_new in
      let loop = g.pointer (context_new ∷ gst_init ∷ t) (loop_new context) in
      Held g k 0 t
        (of_context k (one_if_some context) + of_main_loop k (one_if_some loop))
        (loop_new context ∷ context_new ∷ gst_init ∷ t)
unfolding taken given
opened-Held g k t = omega arith

pub of_context-zero : (k : Kind) → of_context k 0 ≡ 0
of_context-zero k = ground arith

pub of_main_loop-zero : (k : Kind) → of_main_loop k 0 ≡ 0
of_main_loop-zero k = ground arith

on_context-rtsp :
    (g : Gst) (context : Option ℕ) (a : Application) (t : Trace)
    → (on_context g context a t).1.rtsp ≡ a.rtsp
unfolding on_context
on_context-rtsp g none a t = refl
on_context-rtsp g (some c) a t = refl

-- `initialize` gives back all that it takes of each kind, or the application comes to own it.
pub initialize-AppHeld :
    (g : Gst) (k : Kind) (text : Bytes) (a : Application) (t : Trace)
    → IsFresh a
    → AppHeld g k a t (initialize g text a t).1 (initialize g text a t).2
unfolding initialize install_signal_handlers Host.set_video_source
initialize-AppHeld g k text a t (no_context, no_loop, no_int, no_term, no_rtsp) =
    let context = g.pointer (gst_init ∷ t) context_new in
    let loop = g.pointer (context_new ∷ gst_init ∷ t) (loop_new context) in
    let u = loop_new context ∷ context_new ∷ gst_init ∷ t in
    let b = record a { context = context; main_loop = loop } in
    let signalled = on_context g context b u in
    let sourced = on_host (Host.set_video_source (some test_source)) signalled.1 signalled.2 in
    let so_far : AppHeld g k a t sourced.1 sourced.2 = omega (
      arith,
      opened-Held g k t,
      on_context-AppHeld g k context b u no_int no_term,
      of_context-zero k,
      of_main_loop-zero k,
      ap (λ (o : Option ℕ). of_context k (one_if_some o)) no_context,
      ap (λ (o : Option ℕ). of_main_loop k (one_if_some o)) no_loop,
    ) in
    branch-outcome (λ x. AppHeld g k a t x.1 x.2) _ _ _ sourced.1 sourced.2 (λ _. so_far)
      λ _.
        let r = wire g text sourced.1 sourced.2 in
        AppHeld-trans g k a sourced.1 r.1 t sourced.2 r.2 so_far
          (wire-AppHeld g k text sourced.1 sourced.2 (rw (on_context-rtsp g context b u) no_rtsp))
