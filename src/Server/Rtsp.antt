-- ===== src/Server/Rtsp.antt =====
-- server/RtspProfileServer.cpp: one mount for each profile, from the branch's appsink to the media's
-- appsrc. Each handler runs under its mount's mutex, so it is one step; the log lines are left out.
pub mod Callbacks
pub mod Mounts
pub mod Relay
pub mod Sources
use camera_platform.Prelude.{ℕ, zero, suc, Bytes, codes, List, Option, none, some, [], ◌∷◌, ◌++◌}
use camera_platform.Prelude.Decimal.{to_string}
use camera_platform.Model.Profile.{ProfileInfo}
use camera_platform.Gst.{
  Gst, Call, Trace, rtsp_server_new, rtsp_set_service, rtsp_mount_points, media_factory_new,
  set_launch, set_shared, signal_connect, add_factory, rtsp_create_source, media_element,
  bin_get_by_name, pull_sample, buffer_copy, clear_times, src_set_caps, push_buffer, buffer_unref,
  sample_unref, object_unref, object_ref_sink, source_attach, source_destroy, source_unref,
}
use camera_platform.Gst.Effects.{
  M, ◌>>=◌, ◌>>◌, pure, get, modify, branch, call, call_some, call_both, ask_some, ask_pointer,
}
use camera_platform.Video.Values.{PipelineOutcome, success, failure}
use camera_platform.Video.Pipeline.{is_some}
use camera_platform.Server.Host.{ProfileHost}
use camera_platform.Server.Host.Control.{profiles, app_sink_for_profile}

pub record Mount : Type 0 where
  pub name : Bytes
  pub app_sink : Option ℕ
  pub app_src : Option ℕ
  pub factory : Option ℕ

pub record RtspServer : Type 0 where
  pub port : ℕ
  pub server : Option ℕ
  pub mounts : List Mount
  pub source : Option ℕ

abbrev pub launch_line : Bytes
launch_line =
    codes
      "( appsrc name=profile_src is-live=true format=time do-timestamp=true ! h264parse ! rtph264pay name=pay0 pt=96 config-interval=1 )"

-- One round of the constructor's loop
unfoldable pub add_mount : Gst → ProfileHost → Option ℕ → ProfileInfo → M RtspServer (Unit {0})
add_mount g host points profile = do
  factory ← ask_pointer g media_factory_new
  call_some (λ f. set_launch f launch_line) factory
  call_some set_shared factory
  call_some (λ f. signal_connect f (codes "media-configure") profile.name) factory
  call_some (λ s. signal_connect s (codes "new-sample") profile.name)
      (app_sink_for_profile host profile.name)
  call_both (λ m f. add_factory m (codes "/" ++ profile.name) f) points factory
  modify (λ r. record r {
    mounts =
        r.mounts
        ++ (record {
          name = profile.name;
          app_sink = app_sink_for_profile host profile.name;
          app_src = none;
          factory = factory;
        }
            ∷ []);
  })

unfoldable pub add_mounts :
    Gst → ProfileHost → Option ℕ → List ProfileInfo → M RtspServer (Unit {0})
unfolding add_mount
add_mounts g host points [] = pure tt
add_mounts g host points (p ∷ ps) = do add_mount g host points p; add_mounts g host points ps

abbrev empty_server : ℕ → RtspServer
empty_server port = record { port = port; server = none; mounts = []; source = none }

-- The constructor up to its loop: the mount points
unfoldable pub prepare_server : Gst → M RtspServer (Option ℕ)
prepare_server g = do
  server ← ask_pointer g rtsp_server_new
  modify (λ r. record r { server = server })
  call_some object_ref_sink server
  r ← get
  call_some (λ s. rtsp_set_service s (to_string r.port)) server
  ask_some g rtsp_mount_points server

unfoldable pub construct : Gst → ProfileHost → M RtspServer (Unit {0})
unfolding prepare_server add_mounts
construct g host = do
  points ← prepare_server g
  add_mounts g host points (profiles host)
  call_some object_unref points

-- The constructor
unfoldable pub new_server : Gst → ProfileHost → ℕ → Trace → RtspServer × Trace
unfolding construct
new_server g host port t = let r = construct g host (empty_server port) t in (r.1, r.2)

-- `attach` from `gst_rtsp_server_create_source` on; the message is the `GError`'s.
unfoldable pub attach_source : ℕ → Bytes → Option ℕ → M RtspServer PipelineOutcome
attach_source context message none =
    pure (failure (codes "Failed to attach rtsp server: " ++ message))
attach_source context message (some w) = do
  modify (λ r. record r { source = some w })
  call (source_attach w context)
  pure success

unfoldable pub create_source : Gst → ℕ → Bytes → Option ℕ → M RtspServer PipelineOutcome
unfolding attach_source
create_source g context message none = pure (failure (codes "No server available"))
create_source g context message (some s) = do
  r ← get
  branch (is_some r.source) (pure (failure (codes "Server already attached")))
      (do w ← ask_pointer g (rtsp_create_source s); attach_source context message w)

-- `attach`; what the library's error would say is an argument.
unfoldable pub attach : Gst → Bytes → ℕ → M RtspServer PipelineOutcome
unfolding create_source
attach g message context = do r ← get; create_source g context message r.server

detach_from : Option ℕ → M RtspServer (Unit {0})
detach_from none = pure tt
detach_from (some w) = do
  call (source_destroy w)
  call (source_unref w)
  modify (λ r. record r { source = none })

unfoldable detach : M RtspServer (Unit {0})
unfolding detach_from
detach = do r ← get; detach_from r.source

-- The destructor
pub destroy_server : M RtspServer (Unit {0})
destroy_server = do detach; r ← get; call_some object_unref r.server

in_place : {A : Type 0} → ℕ → M Mount A → List Mount → Trace → List Mount × Trace
in_place n m [] t = ([], t)
in_place zero m (x ∷ xs) t = let o = m x t in (o.1 ∷ xs, o.2)
in_place (suc n) m (x ∷ xs) t = let o = in_place n m xs t in (x ∷ o.0, o.1)

-- An operation on the mount that a signal was connected with, given by its place
pub on_mount : {A : Type 0} → ℕ → M Mount A → M RtspServer (Unit {0})
unfolding in_place
on_mount n m r t = let o = in_place n m r.mounts t in (tt, record r { mounts = o.0 }, o.1)

-- `onMediaConfigure`, with the media's address
pub on_media_configure : Gst → ℕ → M Mount (Unit {0})
on_media_configure g media = do
  bin ← ask_pointer g (media_element media)
  src ← by_name bin
  modify (λ m. record m { app_src = src })
  call_some object_unref bin
  m ← get
  call (signal_connect media (codes "prepared") m.name)
  call (signal_connect media (codes "unprepared") m.name)
  where
    by_name : Option ℕ → M Mount (Option ℕ)
    by_name none = pure none
    by_name (some b) = ask_pointer g (bin_get_by_name b (codes "profile_src"))

-- `onMediaPrepared` only prints.
unfoldable on_media_prepared : M Mount (Unit {0})
on_media_prepared = pure tt

-- `onMediaUnprepared`
pub on_media_unprepared : M Mount (Unit {0})
on_media_unprepared = do
  m ← get
  call_some object_unref m.app_src
  modify (λ m. record m { app_src = none })

pub data FlowReturn : Type 0 where
  flow_ok flow_error : FlowReturn

-- The buffer goes to the media's appsrc, or is dropped.
forward : ℕ → ℕ → Option ℕ → M Mount (Unit {0})
forward sample buffer none = call (buffer_unref buffer)
forward sample buffer (some src) = do call (src_set_caps src sample); call (push_buffer src buffer)

-- `onNewSample` with the copied buffer; `gst_buffer_copy` does not return null.
relay : ℕ → Option ℕ → M Mount (Unit {0})
unfolding forward
relay sample none = pure tt
relay sample (some buffer) = do call (clear_times buffer); m ← get; forward sample buffer m.app_src

with_sample : Gst → Option ℕ → M Mount FlowReturn
unfolding relay
with_sample g none = pure flow_error
with_sample g (some sample) = do
  buffer ← ask_pointer g (buffer_copy sample)
  relay sample buffer
  call (sample_unref sample)
  pure flow_ok

-- `onNewSample`
pub on_new_sample : Gst → ℕ → M Mount FlowReturn
unfolding with_sample
on_new_sample g sink = do sample ← ask_pointer g (pull_sample sink); with_sample g sample
