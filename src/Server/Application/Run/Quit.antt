-- ===== src/Server/Application/Run/Quit.antt =====
-- When server/Application.cpp asks its main loop to return.
use camera_platform.Prelude.{
  ℕ, ◌+◌, Bool, true, false, ◌&&◌, Option, none, some, ◌∷◌, ◌≡◌, refl, ap, arith, if◌then◌else◌,
}
use camera_platform.Gst.{
  Gst, Trace, MessageType, error_message, eos_message, warning_message, other_message, get_bus,
  bus_pop,
}
use camera_platform.Gst.Effects.{M, ask_some}
use camera_platform.Gst.Observe.{pad, one_if_some, quits, Asked}
use camera_platform.Video.Values.{handle_bus_message}
use camera_platform.Video.Pipeline.{is_some}
use camera_platform.Server.Host.{ProfileHost}
use camera_platform.Server.Host.Control.{on_bus_message, pop_message}
use camera_platform.Server.Rtsp.{RtspServer}
use camera_platform.Server.Rtsp.Callbacks.{
  on_media_configure-Quiet, on_media_unprepared-Quiet, on_new_sample-Quiet,
}
use camera_platform.Server.Application.{Application, on_host}
use camera_platform.Server.Application.Run.{
  Event, signalled, bus_message, media_configured, media_unprepared, new_sample, request_stop,
  on_pipeline_event, on_unix_signal, deliver, with_server, on_server, handle,
}

abbrev is_fatal : MessageType → Bool
is_fatal error_message = true
is_fatal eos_message = true
is_fatal warning_message = false
is_fatal other_message = false

-- The message that a bus has next
abbrev next_on : Gst → Option ℕ → Trace → Option ℕ
next_on g none t = none
next_on g (some bus) t = g.pointer t (bus_pop bus)

abbrev next_of : Gst → Option ℕ → Trace → Option ℕ
next_of g none t = none
next_of g (some p) t = next_on g (g.pointer t (get_bus p)) (get_bus p ∷ t)

abbrev is_fatal_message : Gst → Option ℕ → Bool
is_fatal_message g none = false
is_fatal_message g (some m) = is_fatal (g.message_type m)

-- Whether an event is to end the run: a signal is, and a message of an error or of the end of the
-- stream, where the bus is watched with a callback
abbrev pub ends_run : Gst → Application → Trace → Event → Bool
ends_run g a t signalled = true
ends_run g a t bus_message =
    is_some a.host.bus_source
    && (is_some a.host.app_callback && is_fatal_message g (next_of g a.host.pipeline t))
ends_run g a t (media_configured n media) = false
ends_run g a t (media_unprepared n media) = false
ends_run g a t (new_sample n sink) = false

request_stop-Asked :
    (a : Application) (t : Trace) → Asked (one_if_some a.main_loop) t (request_stop a t).2
unfolding request_stop quits
request_stop-Asked a t = ground arith

pop_message-Asked :
    (g : Gst) (w : Option ℕ) (h : ProfileHost) (t : Trace) → Asked 0 t (pop_message g w h t).2
unfolding pop_message quits
pop_message-Asked g w h t = ground arith

deliver-Asked :
    (g : Gst) (msg callback : Option ℕ) (a : Application) (t : Trace)
    → Asked
        (if is_some callback && is_fatal_message g msg then one_if_some a.main_loop else 0)
        t
        (deliver (handle_bus_message g msg callback) a t).2
unfolding deliver handle_bus_message on_pipeline_event request_stop quits
deliver-Asked g msg callback a t = ground arith

asked_pop-next :
    (g : Gst) (bus : Option ℕ) (h : ProfileHost) (t : Trace)
    → (ask_some g bus_pop bus h t).0 ≡ next_on g bus t
asked_pop-next g none h t = refl
asked_pop-next g (some bus) h t = refl

asked-next :
    (g : Gst) (p : Option ℕ) (h : ProfileHost) (t : Trace)
    → let bus = ask_some g get_bus p h t in (ask_some g bus_pop bus.0 h bus.2).0 ≡ next_of g p t
asked-next g none h t = refl
asked-next g (some p) h t = asked_pop-next g (g.pointer t (get_bus p)) h (get_bus p ∷ t)

-- What the host's callback on the bus passes on
passed_on :
    (g : Gst) (h : ProfileHost) (t : Trace) (w : ℕ)
    → (pop_message g (some w) h t).0 ≡ handle_bus_message g (next_of g h.pipeline t) h.app_callback
unfolding pop_message
passed_on g h t w =
    ap (λ msg. handle_bus_message g msg h.app_callback) (asked-next g h.pipeline h t)

pop_message-host :
    (g : Gst) (w : Option ℕ) (h : ProfileHost) (t : Trace) → (pop_message g w h t).1 ≡ h
unfolding pop_message
pop_message-host g none h t = refl
pop_message-host g (some w) h t = refl

delivered-Asked :
    (g : Gst) (watch : Option ℕ) (a : Application) (t : Trace)
    → let popped = on_host (pop_message g watch) a t in
      Asked
        (if is_some watch
            && (is_some a.host.app_callback && is_fatal_message g (next_of g a.host.pipeline t))
          then one_if_some a.main_loop
          else 0)
        t
        (deliver popped.0 popped.1 popped.2).2
unfolding pop_message
delivered-Asked g none a t = unfold deliver in omega arith
delivered-Asked g (some w) a t =
    let popped = pop_message g (some w) a.host t in
    let delivered =
      deliver-Asked g (next_of g a.host.pipeline t) a.host.app_callback
        (record a { host = popped.1 }) popped.2 in
    omega (
      arith,
      pop_message-Asked g (some w) a.host t,
      delivered,
      ap (λ e. quits (deliver e (record a { host = popped.1 }) popped.2).2)
          (passed_on g a.host t w),
    )

on_server-Asked :
    (m : M RtspServer (Unit {0})) (a : Application) (t : Trace)
    → ((r : RtspServer) → Asked 0 t (m r t).2)
    → Asked 0 t (on_server m a t).2
unfolding on_server
on_server-Asked m a t h = go a.rtsp
  where
    go : (r : Option RtspServer) → Asked 0 t (with_server r m a t).2
    go none = unfold with_server in omega arith
    go (some r) = unfold with_server in h r

-- An event makes the application ask its main loop to return just where it is a signal, or the message
-- that the bus has next is an error or the end of the stream and the bus is watched with a callback:
-- once if there is a main loop, and never for any other event, whatever the libraries answer.
pub handle-quits :
    (g : Gst) (e : Event) (a : Application) (t : Trace)
    → quits (handle g e a t).2 ≡ quits t + (if ends_run g a t e then one_if_some a.main_loop else 0)
unfolding handle on_unix_signal on_bus_message
handle-quits g signalled a t = request_stop-Asked a t
handle-quits g bus_message a t = delivered-Asked g a.host.bus_source a t
handle-quits g (media_configured n media) a t =
    on_server-Asked _ a t (λ r. (on_media_configure-Quiet g pad n media r t).1)
handle-quits g (media_unprepared n media) a t =
    on_server-Asked _ a t (λ r. (on_media_unprepared-Quiet g pad n r t).1)
handle-quits g (new_sample n sink) a t =
    on_server-Asked _ a t (λ r. (on_new_sample-Quiet g pad n sink r t).1)
