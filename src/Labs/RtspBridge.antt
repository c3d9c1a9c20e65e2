-- ===== src/Labs/RtspBridge.antt =====
-- labs/lab6-rtsp-bridge.cpp: two encoded branches, each behind a valve that is open while its mount has
-- viewers. The section of a handler that holds the lock is one step, and its setting of the valve, which is
-- outside the lock, is another; the log lines and the handlers that only log are left out.
pub mod Events
pub mod Valves
use camera_platform.Prelude.{
  ℕ, Bool, true, false, not, ◌&&◌, Bytes, codes, Option, none, some, [], ◌∷◌,
}
use camera_platform.Gst.{
  Gst, Trace, GstState, void_pending, null, ready, paused, playing, object_set, object_get, flag,
  pull_sample, buffer_copy, clear_times, sample_unref, media_element, bin_get_by_name, object_unref,
  signal_connect, parse_launch, set_state, get_state, loop_new, loop_run, loop_quit, loop_unref,
  media_factory_new, set_launch, set_shared, rtsp_server_new, rtsp_set_service, rtsp_mount_points,
  add_factory, rtsp_attach, timeout_add, gst_init,
}
use camera_platform.Gst.Effects.{
  M, ◌>>=◌, ◌>>◌, pure, get, modify, branch, call, call_some, ask_pointer, ask_some, now,
}
use camera_platform.Server.Rtsp.{FlowReturn, flow_ok, flow_error}
use camera_platform.Labs.Bridge.{Bridge, empty_bridge, take_sample, unwire, wire}

-- The fields from `appsrc` on are a `Bridge`.
pub record Profile : Type 0 where
  pub mount : Bytes
  pub valve : Option ℕ
  pub bridge : Bridge

abbrev pub empty_profile : Profile
empty_profile = record { mount = []; valve = none; bridge = empty_bridge }

on_bridge : {A : Type 0} → M Bridge A → M Profile A
on_bridge m p t = let x = m p.bridge t in (x.0, record p { bridge = x.1 }, x.2)

-- `on_new_sample` behind the test of the sample; `gst_buffer_copy` does not return null.
with_buffer : Gst → ℕ → Option ℕ → M Profile (Unit {0})
unfolding on_bridge
with_buffer g sample none = pure tt
with_buffer g sample (some buffer) = do
  call (clear_times buffer)
  on_bridge (take_sample g sample buffer)

with_sample : Gst → Option ℕ → M Profile FlowReturn
unfolding with_buffer
with_sample g none = pure flow_error
with_sample g (some sample) = do
  buffer ← ask_pointer g (buffer_copy sample)
  with_buffer g sample buffer
  call (sample_unref sample)
  pure flow_ok

pub on_new_sample : Gst → ℕ → M Profile FlowReturn
unfolding with_sample
on_new_sample g sink = do sample ← ask_pointer g (pull_sample sink); with_sample g sample

-- `g_object_set(p->valve, "drop", …)`
set_drop : Bool → M Profile (Unit {0})
set_drop drop = do p ← get; call_some (λ v. object_set v (codes "drop") (flag drop)) p.valve

-- `on_media_unprepared` up to the unlock, and behind it
pub leave : M Profile (Unit {0})
unfolding on_bridge
leave = on_bridge unwire

pub close_valve : M Profile (Unit {0})
unfolding set_drop
close_valve = set_drop true

unfoldable on_media_unprepared : M Profile (Unit {0})
unfolding leave close_valve
on_media_unprepared = do leave; close_valve

-- `p->pushed = 0;`
abbrev pub reset_pushed : Bridge → Bridge
reset_pushed b = record b { pushed = 0 }

-- `on_media_configure` with the media's element, up to the unlock
wire_media : Gst → Option ℕ → M Profile (Unit {0})
unfolding on_bridge
wire_media g element = do
  appsrc ← ask_some g (λ b. bin_get_by_name b (codes "vsrc")) element
  call_some object_unref element
  on_bridge (wire g reset_pushed appsrc)

pub arrive : Gst → ℕ → M Profile (Unit {0})
unfolding wire_media
arrive g media = do element ← ask_pointer g (media_element media); wire_media g element

-- `on_media_configure` behind the unlock
pub open_valve : ℕ → M Profile (Unit {0})
unfolding set_drop
open_valve media = do
  call (signal_connect media (codes "unprepared") [])
  call (signal_connect media (codes "prepared") [])
  call (signal_connect media (codes "new-state") [])
  set_drop false

unfoldable on_media_configure : Gst → ℕ → M Profile (Unit {0})
unfolding arrive open_valve
on_media_configure g media = do arrive g media; open_valve media

-- The static variables; `profiles[0]` is `hd` and `profiles[1]` is `sd`.
pub record Program : Type 0 where
  pub pipeline : Option ℕ
  pub hd : Profile
  pub sd : Profile
  pub loop : Option ℕ

abbrev pub fresh : Program
fresh = record { pipeline = none; hd = empty_profile; sd = empty_profile; loop = none }

-- An operation on `profiles[0]` or `profiles[1]`
unfoldable pub on_hd : {A : Type 0} → M Profile A → M Program A
on_hd m s t = let x = m s.hd t in (x.0, record s { hd = x.1 }, x.2)

unfoldable pub on_sd : {A : Type 0} → M Profile A → M Program A
on_sd m s t = let x = m s.sd t in (x.0, record s { sd = x.1 }, x.2)

-- `on_status` asks both valves and logs.
unfoldable on_status : M Program (Unit {0})
on_status = do
  s ← get
  call_some (λ v. object_get v (codes "drop")) s.hd.valve
  call_some (λ v. object_get v (codes "drop")) s.sd.valve

-- `on_quit`
unfoldable on_quit : M Program (Unit {0})
on_quit = do s ← get; call_some loop_quit s.loop

make_factory : {S : Type 0} → Gst → Bytes → M S (Option ℕ)
make_factory g mount = do
  factory ← ask_pointer g media_factory_new
  call_some
      (λ f. set_launch f (
        codes
          "( appsrc name=vsrc is-live=true do-timestamp=true ! h264parse ! rtph264pay name=pay0 pt=96 config-interval=1 )"))
      factory
  call_some set_shared factory
  call_some (λ f. signal_connect f (codes "media-configure") mount) factory
  pure factory

-- `profiles[i].mount = …` up to the release of the sink
adopt : Gst → Bytes → Bytes → Bytes → Option ℕ → M Profile (Unit {0})
adopt g mount valve_name sink_name pipeline = do
  modify (λ p. record p { mount = mount })
  valve ← ask_some g (λ b. bin_get_by_name b valve_name) pipeline
  modify (λ p. record p { valve = valve })
  sink ← ask_some g (λ b. bin_get_by_name b sink_name) pipeline
  call_some (λ s. signal_connect s (codes "new-sample") mount) sink
  call_some object_unref sink

is_playing : Option GstState → Bool
is_playing none = false
is_playing (some void_pending) = false
is_playing (some null) = false
is_playing (some ready) = false
is_playing (some paused) = false
is_playing (some playing) = true

-- `gst_element_get_state`: it returned SUCCESS and the state is PLAYING.
reached : Gst → Option ℕ → M Program Bool
unfolding is_playing
reached g none s t = (false, s, t)
reached g (some p) s t =
    (g.succeeds t (get_state p) && is_playing (g.state t (get_state p)), s, get_state p ∷ t)

add_mount : Option ℕ → Bytes → Option ℕ → M Program (Unit {0})
add_mount none path factory = pure tt
add_mount (some mounts) path none = pure tt
add_mount (some mounts) path (some factory) = call (add_factory mounts path factory)

-- `main` from the RTSP server on
serve : Gst → M Program ℕ
unfolding make_factory add_mount
serve g = do
  server ← ask_pointer g rtsp_server_new
  call_some (λ s. rtsp_set_service s (codes "8554")) server
  mounts ← ask_some g rtsp_mount_points server
  hd ← make_factory g (codes "hd")
  sd ← make_factory g (codes "sd")
  add_mount mounts (codes "/hd") hd
  add_mount mounts (codes "/sd") sd
  call_some object_unref mounts
  call_some rtsp_attach server
  loop ← ask_pointer g (loop_new none)
  modify (λ s. record s { loop = loop })
  call (timeout_add 2000 (codes "on_status"))
  call (timeout_add 26000 (codes "on_quit"))
  call_some loop_run loop
  s ← get
  call_some (λ p. set_state p null) s.pipeline
  call_some object_unref s.pipeline
  call_some loop_unref s.loop
  call_some object_unref server
  pure 0

-- `main` with a pipeline, up to the two closed valves: whether it goes on.
pub idle : Gst → M Program Bool
unfolding adopt reached on_hd on_sd set_drop
idle g = do
  s ← get
  on_hd (adopt g (codes "hd") (codes "vhd") (codes "ahd") s.pipeline)
  on_sd (adopt g (codes "sd") (codes "vsd") (codes "asd") s.pipeline)
  call_some (λ p. set_state p playing) s.pipeline
  fits ← reached g s.pipeline
  branch fits (do on_hd (set_drop true); on_sd (set_drop true); pure true) (pure false)

-- `main` up to `g_main_loop_run` and behind it: the exit code.
unfoldable main : Gst → M Program ℕ
unfolding idle serve
main g = do
  call gst_init
  pipeline ← ask_pointer g (
      parse_launch (
        codes
          "videotestsrc is-live=true pattern=smpte ! videoconvert ! video/x-raw,width=1280,height=720,framerate=30/1 ! tee name=t t. ! queue ! valve name=vhd ! x264enc speed-preset=ultrafast tune=zerolatency key-int-max=30 bitrate=2500 ! appsink name=ahd emit-signals=true sync=false t. ! queue ! valve name=vsd ! x264enc speed-preset=ultrafast tune=zerolatency key-int-max=30 bitrate=1200 ! appsink name=asd emit-signals=true sync=false"))
  modify (λ s. record s { pipeline = pipeline })
  go g pipeline
  where
    go : Gst → Option ℕ → M Program ℕ
    go g none = pure 1
    go g (some p) = do going ← idle g; branch going (serve g) (pure 1)
