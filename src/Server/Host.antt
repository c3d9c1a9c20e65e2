-- ===== src/Server/Host.antt =====
-- server/ProfileHost.cpp: the shared capture pipeline and its branches.
pub mod Control
pub mod Whole
pub mod Linked
pub mod Stuck
pub mod Pads
pub mod Operations
mod Tests
use camera_platform.Prelude.{
  ℕ, Bool, true, false, not, ◌||◌, ◌&&◌, Bytes, codes, equal, List, Option, none, some, [], ◌∷◌,
  map, if◌then◌else◌,
}
use camera_platform.Protocol.{state_off, state_ready}
use camera_platform.Model.Profile.{ProfileInfo}
use camera_platform.Gst.{
  Gst, Call, Trace, pipeline_new, factory_make, object_set, caps, bin_add, link, set_state, null,
  paused, playing, object_unref, static_pad, request_pad, pad_link, pad_unref, get_bus,
  create_watch, set_callback, source_attach, source_destroy, source_unref, bus_unref, bus_pop,
  message_unref, GstState,
}
use camera_platform.Gst.Effects.{
  M, ◌>>=◌, ◌>>◌, pure, get, modify, branch, call, call_some, ask, ask_pointer,
}
use camera_platform.Video.Values.{
  PipelineOutcome, success, failure, VideoSource, source_element, default_caps, PipelineEvent,
  handle_bus_message,
}
use camera_platform.Video.Pipeline.{is_some}
use camera_platform.Server.Bin.{ProfileBin, new_bin, set_drop, is_dropped, create_element}
use camera_platform.Server.Bin

pub record ProfileHost : Type 0 where
  pub video_source : Option VideoSource
  pub bins : List ProfileBin
  pub pipeline : Option ℕ
  pub source : Option ℕ
  pub video_convert : Option ℕ
  pub source_caps : Option ℕ
  pub tee : Option ℕ
  pub is_linked : Bool
  pub app_callback : Option ℕ
  pub bus_source : Option ℕ

-- The constructor
unfoldable pub new_host : List ProfileInfo → ProfileHost
new_host profiles = record {
  video_source = none;
  bins = map (λ info. new_bin info) profiles;
  pipeline = none;
  source = none;
  video_convert = none;
  source_caps = none;
  tee = none;
  is_linked = false;
  app_callback = none;
  bus_source = none;
}

unfoldable pub set_video_source : Option VideoSource → M ProfileHost PipelineOutcome
set_video_source s = do modify (λ h. record h { video_source = s }); pure success

-- `cleanup`
pub cleanup : M ProfileHost (Unit {0})
cleanup = do
  h ← get
  branch h.is_linked
      (do call_some (λ p. set_state p null) h.pipeline; call_some object_unref h.pipeline)
      (do
        call_some object_unref h.pipeline
        call_some object_unref h.source
        call_some object_unref h.video_convert
        call_some object_unref h.source_caps
        call_some object_unref h.tee)
  modify (λ h. record h {
    pipeline = none;
    source = none;
    video_convert = none;
    source_caps = none;
    tee = none;
    is_linked = false;
  })

-- Links one branch behind the tee: the reason of a failure, or `none`.
unfoldable pub link_branch : Gst → Option ℕ → Option ℕ → ℕ → M (List ProfileBin) (Option Bytes)
link_branch g pipeline tee bin = do
  call_some (λ p. bin_add p (bin ∷ [])) pipeline
  tee_pad ← ask_request tee
  bin_pad ← ask_pointer g (static_pad bin (codes "sink"))
  linked ← ask g (pad_link tee_pad bin_pad)
  call (pad_unref bin_pad)
  call (pad_unref tee_pad)
  pure (if linked then none else some (codes "Failed to link tee pad to profile bin sink pad"))
  where
    ask_request : Option ℕ → M (List ProfileBin) (Option ℕ)
    ask_request none = pure none
    ask_request (some e) = ask_pointer g (request_pad e (codes "src_%u"))

-- What follows `createElement` for one branch, with the bin or null.
unfoldable pub add_branch :
    Gst → Option ℕ → Option ℕ → Option ℕ → M (List ProfileBin) (Option Bytes)
add_branch g pipeline tee none = pure (some (codes "Failed to create profile bin element"))
add_branch g pipeline tee (some bin) = link_branch g pipeline tee bin

-- The loop over the branches, which stops at the first failure.
unfoldable pub add_branches :
    Gst → Option ℕ → Option ℕ → List ProfileBin → Trace → Option Bytes × List ProfileBin × Trace
add_branches g pipeline tee [] t = (none, [], t)
add_branches g pipeline tee (b ∷ bs) t =
    let made = create_element g b t in
    let added = add_branch g pipeline tee made.0 [] made.2 in
    let rest = add_branches g pipeline tee bs added.2 in
    elim added.0 [
      | some reason ↦ (some reason, made.1 ∷ bs, added.2)
      | none ↦ (rest.0, made.1 ∷ rest.1, rest.2)
    ]

-- `setupPipeline` behind its guards: the five elements
unfoldable pub create_elements : Gst → VideoSource → M ProfileHost (Unit {0})
create_elements g src = do
  pipeline ← ask_pointer g (pipeline_new (codes "pipeline"))
  source ← ask_pointer g (source_element src)
  convert ← ask_pointer g (factory_make (codes "videoconvert") (codes "video-convert"))
  filter ← ask_pointer g (factory_make (codes "capsfilter") (codes "source-caps"))
  tee ← ask_pointer g (factory_make (codes "tee") (codes "tee"))
  modify (λ h. record h {
    pipeline = pipeline;
    source = source;
    video_convert = convert;
    source_caps = filter;
    tee = tee;
  })

unfoldable pub all_made : ProfileHost → Bool
all_made h =
    is_some h.pipeline
    && is_some h.source
    && is_some h.video_convert
    && is_some h.source_caps
    && is_some h.tee

cons_some : Option ℕ → List ℕ → List ℕ
cons_some none ps = ps
cons_some (some p) ps = p ∷ ps

unfoldable pub source_chain : ProfileHost → List ℕ
unfolding cons_some
source_chain h =
    cons_some h.source (cons_some h.video_convert (cons_some h.source_caps (cons_some h.tee [])))

-- The outcome of the loop over the branches
unfoldable pub finish_branches : Option Bytes → M ProfileHost PipelineOutcome
finish_branches none = pure success
finish_branches (some reason) = do cleanup; pure (failure reason)

unfoldable pub add_all : Gst → M ProfileHost (Option Bytes)
add_all g h t =
    let r = add_branches g h.pipeline h.tee h.bins t in (r.0, record h { bins = r.1 }, r.2)

-- From the default caps to the end
unfoldable pub link_source : Gst → M ProfileHost PipelineOutcome
unfolding add_all finish_branches
link_source g = do
  h ← get
  call_some (λ e. object_set e (codes "caps") (caps default_caps)) h.source_caps
  call_some (λ p. bin_add p (source_chain h)) h.pipeline
  linked ← ask g (link (source_chain h))
  branch (not linked) (pure (failure (codes "Failed to link GStreamer elements")))
      (do modify (λ h. record h { is_linked = true }); reason ← add_all g; finish_branches reason)

unfoldable pub build : Gst → VideoSource → M ProfileHost PipelineOutcome
unfolding create_elements link_source
build g src = do
  create_elements g src
  h ← get
  branch (not (all_made h))
      (do cleanup; pure (failure (codes "Failed to create GStreamer elements"))) (link_source g)

unfoldable pub with_source : Gst → Option VideoSource → M ProfileHost PipelineOutcome
with_source g none = pure (failure (codes "Video source not set"))
with_source g (some src) = do
  h ← get
  branch (is_some h.pipeline) (pure (failure (codes "Pipeline already set up"))) (build g src)

-- `setupPipeline`
unfoldable pub setup_pipeline : Gst → M ProfileHost PipelineOutcome
unfolding with_source
setup_pipeline g = do h ← get; with_source g h.video_source
