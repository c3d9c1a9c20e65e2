-- ===== src/Server/Application/Run.antt =====
-- server/Application.cpp from `run` on, and server/main.cpp. The log lines are left out.
pub mod Account
mod Callbacks
pub mod Quit
pub mod Release
use camera_platform.Prelude.{ℕ, true, Bytes, codes, List, Option, none, some, [], ◌∷◌}
use camera_platform.Gst.{
  Gst, Trace, context_unref, loop_run, loop_quit, loop_unref, source_destroy, source_unref,
}
use camera_platform.Gst.Effects.{M, ◌>>=◌, ◌>>◌, pure, get, modify, call_some}
use camera_platform.Video.Values.{PipelineEvent, error, warning, end_of_stream}
use camera_platform.Server.Host.Control
use camera_platform.Server.Rtsp
use camera_platform.Server.Rtsp.{RtspServer}
use camera_platform.Server.Application.{Application, on_host, initialize, set_profile_enabled}

-- `requestStop`
request_stop : M Application (Unit {0})
request_stop = do a ← get; call_some loop_quit a.main_loop

-- `onPipelineEvent`
on_pipeline_event : PipelineEvent → M Application (Unit {0})
unfolding request_stop
on_pipeline_event error = request_stop
on_pipeline_event end_of_stream = request_stop
on_pipeline_event warning = pure tt

-- `onUnixSignal`
on_unix_signal : M Application (Unit {0})
unfolding request_stop
on_unix_signal = request_stop

-- `stop`
pub stop : Gst → M Application (Unit {0})
stop g = do
  _ ← on_host (Control.stop g)
  a ← get
  call_some loop_unref a.main_loop
  modify (λ a. record a { main_loop = none })

-- What the main loop and the threads of GStreamer and of the RTSP server call back: a signal, a message
-- on the bus, and for the mount at a place the signals of its media and of its sink
pub data Event : Type 0 where
  signalled bus_message : Event
  media_configured media_unprepared new_sample : ℕ → ℕ → Event

-- The event that the host's callback on the bus passes on
deliver : Option (ℕ × PipelineEvent × Bytes) → M Application (Unit {0})
deliver none = pure tt
deliver (some (callback, event, text)) = on_pipeline_event event

with_server : Option RtspServer → M RtspServer (Unit {0}) → M Application (Unit {0})
with_server none m a t = (tt, a, t)
with_server (some r) m a t = let o = m r t in (tt, record a { rtsp = some o.1 }, o.2)

-- An operation on the RTSP server, where there is one
on_server : M RtspServer (Unit {0}) → M Application (Unit {0})
unfolding with_server
on_server m a t = with_server a.rtsp m a t

pub handle : Gst → Event → M Application (Unit {0})
unfolding deliver on_server on_unix_signal
handle g signalled = on_unix_signal
handle g bus_message = do e ← on_host (Control.on_bus_message g); deliver e
handle g (media_configured mount media) =
    on_server (Rtsp.on_mount mount (Rtsp.on_media_configure g media))
handle g (media_unprepared mount media) = on_server (Rtsp.on_mount mount Rtsp.on_media_unprepared)
handle g (new_sample mount sink) = on_server (Rtsp.on_mount mount (Rtsp.on_new_sample g sink))

pub handle_all : Gst → List Event → M Application (Unit {0})
unfolding handle
handle_all g [] = pure tt
handle_all g (e ∷ es) = do handle g e; handle_all g es

-- `run`, with what is called back until the main loop returns
pub run : Gst → List Event → M Application (Unit {0})
run g events = do
  _ ← on_host (Control.play g)
  a ← get
  call_some loop_run a.main_loop
  handle_all g events
  stop g

-- A source that the destructor's loop destroys and releases, if it is there
drop_source : Option ℕ → M Application (Unit {0})
drop_source w = do call_some source_destroy w; call_some source_unref w

-- The body of the destructor
release : Gst → M Application (Unit {0})
unfolding drop_source
release g = do
  stop g
  a ← get
  drop_source a.sigint_source
  drop_source a.sigterm_source
  call_some context_unref a.context
  modify (λ a. record a { sigint_source = none; sigterm_source = none; context = none })

-- The destructor, with those of the members in their order: the server, then the host
pub destroy_application : Gst → M Application (Unit {0})
unfolding release
destroy_application g = do
  release g
  on_server Rtsp.destroy_server
  modify (λ a. record a { rtsp = none })
  on_host Control.destroy_host

-- `main`, on the application that it constructs; no result is tested.
pub main : Gst → Bytes → List Event → M Application (Unit {0})
main g message events = do
  _ ← initialize g message
  _ ← set_profile_enabled (codes "hd") true
  run g events
  destroy_application g
