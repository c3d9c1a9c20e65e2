-- ===== src/Server/Application.antt =====
-- server/Application.cpp: the coordinator up to `initialize`. The mutex makes each `CameraControl` call one
-- step; the log lines and the command line are left out.
pub mod Controlled
pub mod Run
pub mod Switches
pub mod Wired
mod Tests
use camera_platform.Prelude.{
  ℕ, Bool, true, false, not, ◌&&◌, Bytes, codes, List, Option, none, some, [], ◌∷◌,
}
use camera_platform.Protocol.{rtsp_url_for, rtsp_port, loopback}
use camera_platform.Model.Profile.{ProfileInfo, default_profile}
use camera_platform.Model.Status.{SystemStatus, default_status}
use camera_platform.Gst.{
  Gst, Call, Trace, gst_init, context_new, context_unref, loop_new, loop_run, loop_quit, loop_unref,
  signal_source, set_callback, source_attach, source_destroy, source_unref,
}
use camera_platform.Gst.Effects.{
  M, ◌>>=◌, ◌>>◌, pure, get, modify, branch, call, call_some, ask_pointer,
}
use camera_platform.Video.Values.{
  PipelineOutcome, success, VideoSource, test_source, PipelineEvent, error, warning, end_of_stream,
}
use camera_platform.Video.Pipeline.{is_some}
use camera_platform.Server.Host
use camera_platform.Server.Host.{ProfileHost, new_host}
use camera_platform.Server.Host.Control
use camera_platform.Server.Rtsp
use camera_platform.Server.Rtsp.{RtspServer}

abbrev entry : Bytes → ℕ → ℕ → ℕ → ℕ → ProfileInfo
unfolding rtsp_url_for
entry name width height fps bitrate = record default_profile {
  name = name;
  width = width;
  height = height;
  fps = fps;
  bitrate_kbps = bitrate;
  url = rtsp_url_for rtsp_port name loopback;
}

-- `kDefaultCatalog`
pub default_catalog : List ProfileInfo
default_catalog =
    entry (codes "hd") 1920 1080 30 4000
    ∷ entry (codes "sd") 1280 720 30 2000
    ∷ entry (codes "low") 854 480 30 800
    ∷ entry (codes "thumb") 640 360 30 300
    ∷ []

pub record Application : Type 0 where
  pub host : ProfileHost
  pub rtsp : Option RtspServer
  pub status : SystemStatus
  pub main_loop : Option ℕ
  pub sigint_source : Option ℕ
  pub sigterm_source : Option ℕ
  pub context : Option ℕ

-- An operation on the host
abbrev on_host : {A : Type 0} → M ProfileHost A → M Application A
on_host m a t = let r = m a.host t in (r.0, record a { host = r.1 }, r.2)

-- `CameraControl::setProfileEnabled`
pub set_profile_enabled : Bytes → Bool → M Application Bool
set_profile_enabled name enabled = do
  r ← on_host (Control.set_profile_enabled name enabled)
  pure r.ok

-- `CameraControl::profiles` and `CameraControl::systemStatus`
unfoldable pub profiles : Application → List ProfileInfo
profiles a = Control.profiles a.host

pub system_status : Application → SystemStatus
system_status a = a.status

-- The loop of the constructor
disable_all : List ProfileInfo → M Application (Unit {0})
disable_all [] = pure tt
disable_all (p ∷ ps) = do _ ← set_profile_enabled p.name false; disable_all ps

-- The members as they are initialised, over a catalog
abbrev bare : List ProfileInfo → Application
bare catalog = record {
  host = new_host catalog;
  rtsp = none;
  status = default_status;
  main_loop = none;
  sigint_source = none;
  sigterm_source = none;
  context = none;
}

-- The constructor. Before the set-up there is no valve, so it calls nothing.
pub new_application : Application
unfolding disable_all
new_application = (disable_all default_catalog (bare default_catalog) []).1

-- The local `attachSignalSource`
watch_signal : Gst → ℕ → ℕ → M Application (Option ℕ)
watch_signal g context signum = do
  w ← ask_pointer g (signal_source signum)
  call_some set_callback w
  call_some (λ s. source_attach s context) w
  pure w

on_context : Gst → Option ℕ → M Application Bool
unfolding watch_signal
on_context g none = pure false
on_context g (some context) = do
  int ← watch_signal g context 2
  modify (λ a. record a { sigint_source = int })
  term ← watch_signal g context 15
  modify (λ a. record a { sigterm_source = term })
  pure (is_some int && is_some term)

-- `installSignalHandlers`
unfoldable install_signal_handlers : Gst → M Application Bool
unfolding on_context
install_signal_handlers g = do a ← get; on_context g a.context

-- The application's callback on the host's bus is known by this number.
abbrev pub pipeline_callback : ℕ
pipeline_callback = 1

watch_bus : Gst → Option ℕ → M Application Bool
watch_bus g none = pure false
watch_bus g (some context) = do
  r ← on_host (Control.attach_bus_watch g (some context) (some pipeline_callback))
  pure r.ok

-- `attachPipelineEvents`
unfoldable attach_pipeline_events : Gst → M Application Bool
unfolding watch_bus
attach_pipeline_events g = do a ← get; watch_bus g a.context

-- `m_rtsp = std::make_unique<RtspProfileServer>(m_host)`
make_rtsp : Gst → M Application (Unit {0})
make_rtsp g a t =
    let r = Rtsp.new_server g a.host rtsp_port t in (tt, record a { rtsp = some r.0 }, r.1)

-- `m_rtsp->attach(*m_context)`; both are there when it is called.
attach_server : Gst → Bytes → Option RtspServer → Option ℕ → M Application Bool
attach_server g message none context a t = (false, a, t)
attach_server g message (some r) none a t = (false, a, t)
attach_server g message (some r) (some context) a t =
    let o = Rtsp.attach g message context r t in (o.0.ok, record a { rtsp = some o.1 }, o.2)

attach_rtsp : Gst → Bytes → M Application Bool
unfolding attach_server
attach_rtsp g message = do a ← get; attach_server g message a.rtsp a.context

-- `initialize` from the set-up of the host's pipeline on
wire : Gst → Bytes → M Application Bool
unfolding make_rtsp attach_rtsp
wire g message = do
  built ← on_host (Host.setup_pipeline g)
  branch (not built.ok) (pure false) (do
    make_rtsp g
    attached ← attach_pipeline_events g
    branch (not attached) (pure false) (attach_rtsp g message))

-- `initialize`; the text of the library's error on `attach` is an argument.
unfoldable initialize : Gst → Bytes → M Application Bool
unfolding wire
initialize g message = do
  call gst_init
  context ← ask_pointer g context_new
  modify (λ a. record a { context = context })
  loop ← ask_pointer g (loop_new context)
  modify (λ a. record a { main_loop = loop })
  _ ← install_signal_handlers g
  sourced ← on_host (Host.set_video_source (some test_source))
  branch (not sourced.ok) (pure false) (wire g message)
