-- ===== src/Server/Application/Run/Release.antt =====
-- What a run of server/main.cpp has given back in the end.
use camera_platform.Prelude.{
  ℕ, ◌+◌, Bool, true, Bytes, codes, List, Option, none, some, [], ◌≡◌, refl, ap, arith,
}
use camera_platform.Gst.{Gst, Trace, context_unref}
use camera_platform.Gst.Effects.{call_some, branch}
use camera_platform.Gst.Observe.{
  Kind, of_context, of_event_source, of_event_source-zero, one_if_some, taken, given, Held,
  GivenBack,
}
use camera_platform.Server.Bin
use camera_platform.Server.Host.{new_host}
use camera_platform.Server.Host.Control
use camera_platform.Server.Host.Control.Sources.{host_owns, set_profile_enabled-HostHeld}
use camera_platform.Server.Rtsp
use camera_platform.Server.Rtsp.{RtspServer, Mount}
use camera_platform.Server.Rtsp.Sources.{destroy_server-ServerHeld}
use camera_platform.Server.Application.{
  Application, set_profile_enabled, new_application, initialize, disable_all, default_catalog,
  entry,
}
use camera_platform.Server.Application.Run.{
  Event, with_server, on_server, stop, run, drop_source, release, destroy_application, main,
}
use camera_platform.Server.Application.Run.Account.{
  AppHeld, on_host-AppHeld, IsFresh, app_owns, rtsp_owns, initialize-AppHeld, of_context-zero,
  of_main_loop-zero,
}
use camera_platform.Server.Host.Control.Release.{destroy_host-HostHeld}
use camera_platform.Server.Application.Run.Callbacks.{stop-AppHeld, run-AppHeld}

drop_source-Held :
    (g : Gst) (k : Kind) (w : Option ℕ) (a : Application) (t : Trace)
    → Held g k (of_event_source k (one_if_some w)) t 0 (drop_source w a t).2
unfolding drop_source taken given
drop_source-Held g k w a t = ground arith

unref_context-Held :
    (g : Gst) (k : Kind) (c : Option ℕ) (a : Application) (t : Trace)
    → Held g k (of_context k (one_if_some c)) t 0 (call_some context_unref c a t).2
unfolding taken given
unref_context-Held g k c a t = ground arith

release-AppHeld :
    (g : Gst) (k : Kind) (a : Application) (t : Trace)
    → AppHeld g k a t (release g a t).1 (release g a t).2
unfolding release
release-AppHeld g k a t =
    let stopped = stop g a t in
    let b = stopped.1 in
    let int = drop_source b.sigint_source b stopped.2 in
    let term = drop_source b.sigterm_source b int.2 in
    omega (
      arith,
      stop-AppHeld g k a t,
      drop_source-Held g k b.sigint_source b stopped.2,
      drop_source-Held g k b.sigterm_source b int.2,
      unref_context-Held g k b.context b term.2,
      of_event_source-zero k,
      of_context-zero k,
    )

-- What the application still owns behind the body of its destructor: what its members own
release-owns :
    (g : Gst) (k : Kind) (a : Application) (t : Trace)
    → let b = (release g a t).1 in app_owns k b ≡ host_owns k b.host + rtsp_owns k b.rtsp
unfolding release stop drop_source
release-owns g k a t = omega (arith, of_event_source-zero k, of_context-zero k, of_main_loop-zero k)

drop_server-Held :
    (g : Gst) (k : Kind) (r : Option RtspServer) (a : Application) (t : Trace)
    → let o = with_server r Rtsp.destroy_server a t in
      Held g k (rtsp_owns k r) t 0 o.2 × (o.1.host ≡ a.host)
unfolding with_server
drop_server-Held g k none a t = (refl, refl)
drop_server-Held g k (some r) a t = (destroy_server-ServerHeld g k r t, refl)

destroy_application-Held :
    (g : Gst) (k : Kind) (a : Application) (t : Trace)
    → Held g k (app_owns k a) t 0 (destroy_application g a t).2
unfolding destroy_application on_server
destroy_application-Held g k a t =
    let released = release g a t in
    let b = released.1 in
    let dropped = with_server b.rtsp Rtsp.destroy_server b released.2 in
    omega (
      arith,
      release-AppHeld g k a t,
      release-owns g k a t,
      (drop_server-Held g k b.rtsp b released.2).0,
      ap (λ h. host_owns k h) (drop_server-Held g k b.rtsp b released.2).1,
      destroy_host-HostHeld g k dropped.1.host dropped.2,
    )

set_profile_enabled-AppHeld :
    (g : Gst) (k : Kind) (name : Bytes) (enabled : Bool) (a : Application) (t : Trace)
    → AppHeld g k a t
        (set_profile_enabled name enabled a t).1
        (set_profile_enabled name enabled a t).2
unfolding set_profile_enabled
set_profile_enabled-AppHeld g k name enabled a t =
    on_host-AppHeld g k (Control.set_profile_enabled name enabled) a t
      (set_profile_enabled-HostHeld g k name enabled a.host t)

main_on-Held :
    (g : Gst) (k : Kind) (text : Bytes) (es : List Event) (a : Application) (t : Trace)
    → IsFresh a
    → Held g k (app_owns k a) t 0 (main g text es a t).2
unfolding main
main_on-Held g k text es a t fresh =
    let started = initialize g text a t in
    let switched = set_profile_enabled (codes "hd") true started.1 started.2 in
    let ran = run g es switched.1 switched.2 in
    omega (
      arith,
      initialize-AppHeld g k text a t fresh,
      set_profile_enabled-AppHeld g k (codes "hd") true started.1 started.2,
      run-AppHeld g k es switched.1 switched.2,
      destroy_application-Held g k ran.1 ran.2,
    )

-- The constructor leaves the members that own something as they are.
new_application-IsFresh : IsFresh new_application × (new_application.host.bus_source ≡ none)
unfolding new_application disable_all set_profile_enabled new_host default_catalog entry
    Control.set_profile_enabled Control.on_named Control.enabled_outcome Bin.set_state Bin.set_drop
    branch
new_application-IsFresh = ((refl, refl, refl, refl, refl), refl)

IsFresh-owns :
    (k : Kind) (a : Application) → IsFresh a → a.host.bus_source ≡ none → app_owns k a ≡ 0
IsFresh-owns k a (no_context, no_loop, no_int, no_term, no_rtsp) no_watch =
    rw (no_context, no_loop, no_int, no_term, no_rtsp, no_watch)
      (omega (arith, of_event_source-zero k, of_context-zero k, of_main_loop-zero k))

-- A run of `main` gives back every main context, main loop, event source and pad that it takes: those
-- of the signals, of the bus and of the RTSP server included, whichever step of `initialize` fails,
-- whatever is called back meanwhile, and whatever the libraries answer.
pub main-GivenBack :
    (g : Gst) (k : Kind) (text : Bytes) (es : List Event)
    → GivenBack g k [] (main g text es new_application []).2
main-GivenBack g k text es =
    let (fresh, no_watch) = new_application-IsFresh in
    omega (
      arith,
      main_on-Held g k text es new_application [] fresh,
      IsFresh-owns k new_application fresh no_watch,
    )
