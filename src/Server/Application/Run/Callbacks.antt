-- ===== src/Server/Application/Run/Callbacks.antt =====
-- What the run of an application of server/Application.cpp takes and gives back, with all that is
-- called back meanwhile.
use camera_platform.Prelude.{ℕ, Bytes, List, Option, none, some, [], ◌∷◌, ◌≡◌, refl, ap, arith}
use camera_platform.Gst.{Gst, Trace, loop_run, loop_unref}
use camera_platform.Gst.Effects.{M, call_some}
use camera_platform.Gst.Observe.{Kind, of_main_loop, one_if_some, taken, given, Held}
use camera_platform.Video.Values.{PipelineEvent, error, warning, end_of_stream}
use camera_platform.Server.Host.Control
use camera_platform.Server.Host.Control.Sources.{
  play-HostHeld, stop-HostHeld, on_bus_message-HostHeld,
}
use camera_platform.Server.Rtsp.{RtspServer}
use camera_platform.Server.Rtsp.Sources.{ServerHeld}
use camera_platform.Server.Rtsp.Callbacks.{
  on_media_configure-Quiet, on_media_unprepared-Quiet, on_new_sample-Quiet, on_mount-ServerHeld,
}
use camera_platform.Server.Application.{Application, on_host}
use camera_platform.Server.Application.Run.{
  Event, signalled, bus_message, media_configured, media_unprepared, new_sample, request_stop,
  on_pipeline_event, on_unix_signal, deliver, with_server, on_server, handle, handle_all, stop, run,
}
use camera_platform.Server.Application.Run.Account.{
  AppHeld, AppHeld-trans, on_host-AppHeld, rtsp_owns, of_main_loop-zero,
}

request_stop-AppHeld :
    (g : Gst) (k : Kind) (a : Application) (t : Trace)
    → AppHeld g k a t (request_stop a t).1 (request_stop a t).2
unfolding request_stop taken given
request_stop-AppHeld g k a t = ground arith

deliver-AppHeld :
    (g : Gst) (k : Kind) (e : Option (ℕ × PipelineEvent × Bytes)) (a : Application) (t : Trace)
    → AppHeld g k a t (deliver e a t).1 (deliver e a t).2
unfolding deliver on_pipeline_event
deliver-AppHeld g k none a t = refl
deliver-AppHeld g k (some (callback, error, text)) a t = request_stop-AppHeld g k a t
deliver-AppHeld g k (some (callback, end_of_stream, text)) a t = request_stop-AppHeld g k a t
deliver-AppHeld g k (some (callback, warning, text)) a t = refl

on_server-AppHeld :
    (g : Gst) (k : Kind) (m : M RtspServer (Unit {0})) (a : Application) (t : Trace)
    → ((r : RtspServer) → ServerHeld g k r t (m r t).1 (m r t).2)
    → AppHeld g k a t (on_server m a t).1 (on_server m a t).2
unfolding on_server with_server
on_server-AppHeld g k m a t h = go a.rtsp refl
  where
    go :
        (r : Option RtspServer)
        → a.rtsp ≡ r
        → AppHeld g k a t (with_server r m a t).1 (with_server r m a t).2
    go none e = refl
    go (some r) e = omega (arith, h r, ap (λ (o : Option RtspServer). rtsp_owns k o) e)

handle-AppHeld :
    (g : Gst) (k : Kind) (e : Event) (a : Application) (t : Trace)
    → AppHeld g k a t (handle g e a t).1 (handle g e a t).2
unfolding handle on_unix_signal
handle-AppHeld g k signalled a t = request_stop-AppHeld g k a t
handle-AppHeld g k bus_message a t =
    let popped = on_host (Control.on_bus_message g) a t in
    let r = deliver popped.0 popped.1 popped.2 in
    AppHeld-trans g k a popped.1 r.1 t popped.2 r.2
      (on_host-AppHeld g k (Control.on_bus_message g) a t (on_bus_message-HostHeld g k a.host t))
      (deliver-AppHeld g k popped.0 popped.1 popped.2)
handle-AppHeld g k (media_configured n media) a t =
    on_server-AppHeld g k _ a t
      (λ r. on_mount-ServerHeld g k n _ r t (on_media_configure-Quiet g k n media r t))
handle-AppHeld g k (media_unprepared n media) a t =
    on_server-AppHeld g k _ a t
      (λ r. on_mount-ServerHeld g k n _ r t (on_media_unprepared-Quiet g k n r t))
handle-AppHeld g k (new_sample n sink) a t =
    on_server-AppHeld g k _ a t
      (λ r. on_mount-ServerHeld g k n _ r t (on_new_sample-Quiet g k n sink r t))

handle_all-AppHeld :
    (g : Gst) (k : Kind) (es : List Event) (a : Application) (t : Trace)
    → AppHeld g k a t (handle_all g es a t).1 (handle_all g es a t).2
unfolding handle_all
handle_all-AppHeld g k [] a t = refl
handle_all-AppHeld g k (e ∷ es) a t =
    let b = handle g e a t in
    let c = handle_all g es b.1 b.2 in
    AppHeld-trans g k a b.1 c.1 t b.2 c.2 (handle-AppHeld g k e a t)
      (handle_all-AppHeld g k es b.1 b.2)

unref_loop-AppHeld :
    (g : Gst) (k : Kind) (l : Option ℕ) (a : Application) (t : Trace)
    → Held g k (of_main_loop k (one_if_some l)) t 0 (call_some loop_unref l a t).2
unfolding taken given
unref_loop-AppHeld g k l a t = ground arith

pub stop-AppHeld :
    (g : Gst) (k : Kind) (a : Application) (t : Trace)
    → AppHeld g k a t (stop g a t).1 (stop g a t).2
unfolding stop
stop-AppHeld g k a t =
    let stopped = on_host (Control.stop g) a t in
    omega (
      arith,
      on_host-AppHeld g k (Control.stop g) a t (stop-HostHeld g k a.host t),
      unref_loop-AppHeld g k stopped.1.main_loop stopped.1 stopped.2,
      of_main_loop-zero k,
    )

run_loop-AppHeld :
    (g : Gst) (k : Kind) (l : Option ℕ) (a : Application) (t : Trace)
    → AppHeld g k a t a (call_some loop_run l a t).2
unfolding taken given
run_loop-AppHeld g k l a t = ground arith

pub run-AppHeld :
    (g : Gst) (k : Kind) (es : List Event) (a : Application) (t : Trace)
    → AppHeld g k a t (run g es a t).1 (run g es a t).2
unfolding run
run-AppHeld g k es a t =
    let played = on_host (Control.play g) a t in
    let looped = call_some loop_run played.1.main_loop played.1 played.2 in
    let handled = handle_all g es looped.1 looped.2 in
    omega (
      arith,
      on_host-AppHeld g k (Control.play g) a t (play-HostHeld g k a.host t),
      run_loop-AppHeld g k played.1.main_loop played.1 played.2,
      handle_all-AppHeld g k es looped.1 looped.2,
      stop-AppHeld g k handled.1 handled.2,
    )
