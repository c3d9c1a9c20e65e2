-- ===== src/Server/Host/Operations/Sources.antt =====
-- The event sources of a host of server/ProfileHost.cpp over any use of it.
use camera_platform.Prelude.{ℕ, Bytes, List, Option, none, some, [], ◌∷◌, ◌≡◌, refl, ap, arith}
use camera_platform.Gst.{Gst, Trace}
use camera_platform.Gst.Effects.{branch, branch-state}
use camera_platform.Gst.Observe.{Kind, of_event_source, one_if_some}
use camera_platform.Video.Values.{VideoSource}
use camera_platform.Server.Host.{
  ProfileHost, set_video_source, setup_pipeline, with_source, build, create_elements, link_source,
  add_all, finish_branches, cleanup,
}
use camera_platform.Server.Host.Pads.{setup_pipeline-GivenBack}
use camera_platform.Server.Host.Control.Sources.{
  HostHeld, HostHeld-trans, set_profile_enabled-HostHeld, play-HostHeld, stop-HostHeld,
  detach_bus_watch-HostHeld, on_bus_message-HostHeld, attach_bus_watch-HostHeld,
}
use camera_platform.Server.Host.Operations.{
  Operation, sets_source, sets_up, plays, stops, detaches, message, switches, attaches, operate,
  operate_all, drop_result,
}

cleanup-bus_source : (h : ProfileHost) (t : Trace) → (cleanup h t).1.bus_source ≡ h.bus_source
unfolding cleanup branch
cleanup-bus_source h t = ground arith

finish_branches-bus_source :
    (g : Gst) (reason : Option Bytes) (h : ProfileHost) (t : Trace)
    → (finish_branches reason h t).1.bus_source ≡ h.bus_source
unfolding finish_branches
finish_branches-bus_source g none h t = refl
finish_branches-bus_source g (some why) h t = cleanup-bus_source h t

link_source-bus_source :
    (g : Gst) (h : ProfileHost) (t : Trace) → (link_source g h t).1.bus_source ≡ h.bus_source
unfolding link_source add_all
link_source-bus_source g h t =
    branch-state (λ (i : ProfileHost). i.bus_source ≡ h.bus_source) _ _ _ _ _ (λ _. refl)
      (λ _. finish_branches-bus_source g _ _ _)

build-bus_source :
    (g : Gst) (src : VideoSource) (h : ProfileHost) (t : Trace)
    → (build g src h t).1.bus_source ≡ h.bus_source
unfolding build create_elements
build-bus_source g src h t =
    branch-state (λ (i : ProfileHost). i.bus_source ≡ h.bus_source) _ _ _ _ _
      (λ _. cleanup-bus_source _ _) (λ _. link_source-bus_source g _ _)

with_source-bus_source :
    (g : Gst) (src : Option VideoSource) (h : ProfileHost) (t : Trace)
    → (with_source g src h t).1.bus_source ≡ h.bus_source
unfolding with_source
with_source-bus_source g none h t = refl
with_source-bus_source g (some src) h t =
    branch-state (λ (i : ProfileHost). i.bus_source ≡ h.bus_source) _ _ _ h t (λ _. refl)
      (λ _. build-bus_source g src h t)

-- The set-up leaves the watch on the bus alone.
pub setup_pipeline-HostHeld :
    (g : Gst) (k : Kind) (h : ProfileHost) (t : Trace)
    → HostHeld g k h t (setup_pipeline g h t).1 (setup_pipeline g h t).2
unfolding setup_pipeline
setup_pipeline-HostHeld g k h t = omega (
  arith,
  setup_pipeline-GivenBack g k h t,
  ap (λ (o : Option ℕ). of_event_source k (one_if_some o))
      (with_source-bus_source g h.video_source h t),
)

operate-HostHeld :
    (g : Gst) (k : Kind) (o : Operation) (h : ProfileHost) (t : Trace)
    → HostHeld g k h t (operate g o h t).1 (operate g o h t).2
unfolding operate drop_result set_video_source
operate-HostHeld g k (sets_source s) h t = refl
operate-HostHeld g k sets_up h t = setup_pipeline-HostHeld g k h t
operate-HostHeld g k plays h t = play-HostHeld g k h t
operate-HostHeld g k stops h t = stop-HostHeld g k h t
operate-HostHeld g k detaches h t = detach_bus_watch-HostHeld g k h t
operate-HostHeld g k message h t = on_bus_message-HostHeld g k h t
operate-HostHeld g k (switches name enabled) h t = set_profile_enabled-HostHeld g k name enabled h t
operate-HostHeld g k (attaches context callback) h t =
    attach_bus_watch-HostHeld g k context callback h t

-- Over any public operations of a host and any bus messages, and whatever GStreamer answers, every pad,
-- main context and main loop that is taken is given back, and so is every event source but the one that
-- the host comes to own.
pub operate_all-HostHeld :
    (g : Gst) (k : Kind) (os : List Operation) (h : ProfileHost) (t : Trace)
    → HostHeld g k h t (operate_all g os h t).1 (operate_all g os h t).2
unfolding operate_all
operate_all-HostHeld g k [] h t = refl
operate_all-HostHeld g k (o ∷ os) h t =
    let r = operate g o h t in
    let rest = operate_all g os r.1 r.2 in
    HostHeld-trans g k h r.1 rest.1 t r.2 rest.2 (operate-HostHeld g k o h t)
      (operate_all-HostHeld g k os r.1 r.2)
