-- ===== src/Labs/RtspServer.antt =====
-- labs/lab5-rtsp-server.cpp: two test pictures served by RTSP. The log lines are left out, with the
-- callbacks that only print.
pub mod Account
use camera_platform.Prelude.{ℕ, Bool, false, not, Bytes, codes, List, Option, none, some, [], ◌++◌}
use camera_platform.Gst.{
  Gst, rtsp_server_new, rtsp_set_service, rtsp_mount_points, media_factory_new, set_launch,
  set_shared, signal_connect, add_factory, media_element, object_unref, rtsp_attach_to, context_new,
  context_unref, loop_new, loop_run, loop_unref, gst_init,
}
use camera_platform.Gst.Effects.{
  M, ◌>>=◌, ◌>>◌, pure, branch, call, call_some, call_both, ask, ask_some, ask_pointer,
}

-- The program keeps no variable beside its stack.
abbrev Program : Type 0 → Type 0
Program A = M (Unit {0}) A

-- `media_configured`, with the media's address and the mount's path
unfoldable media_configured : Gst → ℕ → Bytes → Program (Unit {0})
media_configured g media path = do
  call (signal_connect media (codes "prepared") path)
  call (signal_connect media (codes "unprepared") path)
  element ← ask_pointer g (media_element media)
  call_some object_unref element

unfoldable client_connected : ℕ → Program (Unit {0})
client_connected client = call (signal_connect client (codes "closed") [])

make_factory : Gst → (path launch : Bytes) → Program (Option ℕ)
make_factory g path launch = do
  factory ← ask_pointer g media_factory_new
  call_some (λ f. set_launch f launch) factory
  call_some set_shared factory
  call_some (λ f. signal_connect f (codes "media-configure") path) factory
  pure factory

-- The launch line of a mount, with the width and height and the bit rate
launch_line : (size bitrate : Bytes) → Bytes
launch_line size bitrate =
    codes "( videotestsrc is-live=true pattern=smpte ! videoscale ! video/x-raw,"
    ++ size
    ++ codes
        ",framerate=30/1 ! x264enc speed-preset=ultrafast tune=zerolatency key-int-max=30 bitrate="
    ++ bitrate
    ++ codes " ! rtph264pay name=pay0 pt=96 config-interval=1 )"

-- `main` up to `g_object_unref(mounts)`: the server
mount_both : Gst → Program (Option ℕ)
unfolding make_factory launch_line
mount_both g = do
  server ← ask_pointer g rtsp_server_new
  call_some (λ s. rtsp_set_service s (codes "8554")) server
  call_some (λ s. signal_connect s (codes "client-connected") []) server
  mounts ← ask_some g rtsp_mount_points server
  hd ← make_factory g (codes "/hd") (launch_line (codes "width=1280,height=720") (codes "2500"))
  call_both (λ m f. add_factory m (codes "/hd") f) mounts hd
  sd ← make_factory g (codes "/sd") (launch_line (codes "width=854,height=480") (codes "1200"))
  call_both (λ m f. add_factory m (codes "/sd") f) mounts sd
  call_some object_unref mounts
  pure server

-- `gst_rtsp_server_attach`: whether it answers an id
attached : Gst → Option ℕ → Option ℕ → Program Bool
attached g none context = pure false
attached g (some server) context = ask g (rtsp_attach_to server context)

-- `main` behind the attachment
serve : (server context loop : Option ℕ) → Program ℕ
serve server context loop = do
  call_some loop_run loop
  call_some loop_unref loop
  call_some context_unref context
  call_some object_unref server
  pure 0

-- The exit code
pub main : Gst → Program ℕ
unfolding mount_both attached serve
main g = do
  call gst_init
  server ← mount_both g
  context ← ask_pointer g context_new
  loop ← ask_pointer g (loop_new context)
  ok ← attached g server context
  branch (not ok) (pure 1) (serve server context loop)
