-- ===== src/Labs/RtspRecover.antt =====
-- labs/lab8-rtsp-recover.cpp: a producer that may end or crash, viewers that come and go, and a
-- watchdog for a silent producer. The static variables are one record; the log lines are left out.
pub mod Events
pub mod Order
pub mod Watchdog
use camera_platform.Prelude.{
  ℕ, ◌-◌, ◌/◌, Bool, true, false, not, ◌&&◌, ◌==◌, ltb, Bytes, codes, List, Option, none, some, [],
  ◌∷◌, ◌++◌,
}
use camera_platform.Prelude.Decimal.{to_string}
use camera_platform.Gst.{
  Gst, Trace, pull_sample, buffer_copy, clear_times, sample_unref, end_of_stream, media_element,
  bin_get_by_name, object_unref, signal_connect, parse_launch, set_state, null, playing, loop_new,
  loop_run, loop_quit, loop_unref, media_factory_new, set_launch, set_shared, rtsp_server_new,
  rtsp_set_service, rtsp_mount_points, add_factory, rtsp_attach, timeout_add, gst_init,
}
use camera_platform.Gst.Effects.{
  M, ◌>>=◌, ◌>>◌, pure, get, modify, branch, call, call_some, ask_pointer, ask_some, now,
}
use camera_platform.Video.Pipeline.{is_some}
use camera_platform.Server.Rtsp.{FlowReturn, flow_ok, flow_error}
use camera_platform.Labs.Bridge.{Bridge, empty_bridge, bump, take_sample, unwire, wire}

-- `last_sample_us` is 0 before the first producer.
pub record Recover : Type 0 where
  pub producer : Option ℕ
  pub producer_gen : ℕ
  pub producer_eos : Bool
  pub dead_logged : Bool
  pub last_sample_us : ℕ
  pub producer_samples : ℕ
  pub bridge : Bridge
  pub loop : Option ℕ

abbrev pub fresh : Recover
fresh = record {
  producer = none;
  producer_gen = 0;
  producer_eos = false;
  dead_logged = false;
  last_sample_us = 0;
  producer_samples = 0;
  bridge = empty_bridge;
  loop = none;
}

on_bridge : {A : Type 0} → M Bridge A → M Recover A
on_bridge m r t = let x = m r.bridge t in (x.0, record r { bridge = x.1 }, x.2)

-- `on_producer_sample` behind the test of the sample; `gst_buffer_copy` does not return null.
with_buffer : Gst → ℕ → Option ℕ → M Recover (Unit {0})
unfolding on_bridge
with_buffer g sample none = pure tt
with_buffer g sample (some buffer) = do
  call (clear_times buffer)
  time ← now g
  modify (λ r. record r { producer_samples = bump r.producer_samples; last_sample_us = time })
  on_bridge (take_sample g sample buffer)

with_sample : Gst → Option ℕ → M Recover FlowReturn
unfolding with_buffer
with_sample g none = pure flow_error
with_sample g (some sample) = do
  buffer ← ask_pointer g (buffer_copy sample)
  with_buffer g sample buffer
  call (sample_unref sample)
  pure flow_ok

pub on_producer_sample : Gst → ℕ → M Recover FlowReturn
unfolding with_sample
on_producer_sample g sink = do sample ← ask_pointer g (pull_sample sink); with_sample g sample

pub on_producer_eos : M Recover (Unit {0})
on_producer_eos = do
  modify (λ r. record r { producer_eos = true })
  r ← get
  call_some end_of_stream r.bridge.appsrc

pub on_media_unprepared : M Recover (Unit {0})
unfolding on_bridge
on_media_unprepared = on_bridge unwire

-- `bridge.pushed = 0; bridge.pushfail = 0;`
abbrev pub reset_session : Bridge → Bridge
reset_session b = record b { pushed = 0; pushfail = 0 }

-- `on_media_configure` with the media's element
configured : Gst → ℕ → Option ℕ → M Recover (Unit {0})
unfolding on_bridge
configured g media element = do
  appsrc ← ask_some g (λ b. bin_get_by_name b (codes "vsrc")) element
  call_some object_unref element
  on_bridge (wire g reset_session appsrc)
  call (signal_connect media (codes "unprepared") [])

pub on_media_configure : Gst → ℕ → M Recover (Unit {0})
unfolding configured
on_media_configure g media = do
  element ← ask_pointer g (media_element media)
  configured g media element

-- More than 1500 ms since the last sample, at the time given. Before the first sample the silence is
-- -1; the clock does not go back.
abbrev pub is_silent : ℕ → ℕ → Bool
is_silent last_sample_us time =
    not (last_sample_us == 0) && ltb 1500 ((time - last_sample_us) / 1000)

-- The condition of `on_watchdog`
abbrev pub is_dead : Recover → ℕ → Bool
is_dead r time =
    is_some r.bridge.appsrc
    && not r.producer_eos
    && not r.dead_logged
    && is_silent r.last_sample_us time

-- `on_watchdog`: whether it reports a dead source.
pub on_watchdog : Gst → M Recover Bool
on_watchdog g = do
  time ← now g
  r ← get
  branch (is_dead r time) (do modify (λ r. record r { dead_logged = true }); pure true) (pure false)

producer_line : ℕ → Bytes
producer_line num_buffers =
    codes "videotestsrc is-live=true pattern=smpte num-buffers="
    ++ to_string num_buffers
    ++ codes
        " ! videoconvert ! video/x-raw,width=1280,height=720,framerate=30/1 ! x264enc speed-preset=ultrafast tune=zerolatency key-int-max=30 bitrate=2500 ! h264parse ! appsink name=psink emit-signals=true sync=false max-buffers=2 drop=true"

pub produce_start : Gst → ℕ → M Recover (Unit {0})
unfolding producer_line
produce_start g num_buffers = do
  time ← now g
  modify (λ r. record r {
    producer_gen = bump r.producer_gen;
    producer_samples = 0;
    producer_eos = false;
    dead_logged = false;
    last_sample_us = time;
  })
  producer ← ask_pointer g (parse_launch (producer_line num_buffers))
  modify (λ r. record r { producer = producer })
  psink ← ask_some g (λ b. bin_get_by_name b (codes "psink")) producer
  call_some (λ s. signal_connect s (codes "new-sample") []) psink
  call_some (λ s. signal_connect s (codes "eos") []) psink
  call_some object_unref psink
  call_some (λ p. set_state p playing) producer

pub producer_crash : M Recover (Unit {0})
producer_crash = do
  r ← get
  call_some (λ p. set_state p null) r.producer
  call_some object_unref r.producer
  modify (λ r. record r { producer = none })

-- `ev_quit`
unfoldable ev_quit : M Recover (Unit {0})
ev_quit = do r ← get; call_some loop_quit r.loop

-- The timers that start a producer; `ev_crash` is `producer_crash`.
unfoldable ev_gen1 : Gst → M Recover (Unit {0})
ev_gen1 g = produce_start g 90

unfoldable ev_gen2 : Gst → M Recover (Unit {0})
ev_gen2 g = produce_start g 100000

unfoldable ev_gen3 : Gst → M Recover (Unit {0})
ev_gen3 g = produce_start g 90

make_factory : Gst → M Recover (Option ℕ)
make_factory g = do
  factory ← ask_pointer g media_factory_new
  call_some
      (λ f. set_launch f (
        codes
          "( appsrc name=vsrc is-live=true do-timestamp=true ! h264parse ! rtph264pay name=pay0 pt=96 config-interval=1 )"))
      factory
  call_some set_shared factory
  call_some (λ f. signal_connect f (codes "media-configure") []) factory
  pure factory

mount_cam : Option ℕ → Option ℕ → M Recover (Unit {0})
mount_cam none cam = pure tt
mount_cam (some mounts) none = pure tt
mount_cam (some mounts) (some cam) = call (add_factory mounts (codes "/cam") cam)

-- `main` up to `g_main_loop_run`: the server
unfoldable set_up : Gst → M Recover (Option ℕ)
unfolding make_factory mount_cam
set_up g = do
  call gst_init
  server ← ask_pointer g rtsp_server_new
  call_some (λ s. rtsp_set_service s (codes "8554")) server
  mounts ← ask_some g rtsp_mount_points server
  cam ← make_factory g
  mount_cam mounts cam
  call_some object_unref mounts
  call_some rtsp_attach server
  loop ← ask_pointer g (loop_new none)
  modify (λ r. record r { loop = loop })
  call (timeout_add 250 (codes "on_watchdog"))
  call (timeout_add 1000 (codes "ev_gen1"))
  call (timeout_add 5000 (codes "ev_gen2"))
  call (timeout_add 10000 (codes "ev_crash"))
  call (timeout_add 12500 (codes "ev_gen3"))
  call (timeout_add 17000 (codes "ev_quit"))
  call_some loop_run loop
  pure server

-- `main` behind `g_main_loop_run`
unfoldable shut_down : Option ℕ → M Recover (Unit {0})
shut_down server = do
  r ← get
  call_some (λ p. set_state p null) r.producer
  call_some object_unref r.producer
  call_some object_unref server
  call_some loop_unref r.loop
