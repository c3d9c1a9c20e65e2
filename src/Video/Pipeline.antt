-- ===== src/Video/Pipeline.antt =====
-- video/VideoPipeline.cpp: the capture pipeline, source to convert to capsfilter to sink. Log lines
-- are left out.
pub mod Requests
pub mod Bus
pub mod Operations
mod Frames
pub mod Lifecycle
pub mod Playback
pub mod Elements
pub mod Losses
mod Tests
use camera_platform.Prelude.{
  ℕ, Bool, true, false, not, ◌||◌, ◌&&◌, ◌==◌, Bytes, codes, List, Option, none, some, [], ◌∷◌,
  if◌then◌else◌,
}
use camera_platform.Prelude.Int.{ℤ, negsuc}
use camera_platform.Gst.{
  Gst, Call, pipeline_new, factory_make, object_set, caps as caps_value, bin_add, link, set_state,
  get_state, object_unref, seek as seek_call, query_position, query_duration, get_bus, create_watch,
  set_callback, source_attach, source_destroy, source_unref, bus_unref, bus_pop, message_unref,
  GstState, void_pending, null, ready, paused, playing, Caps,
}
use camera_platform.Gst.Effects.{
  M, ◌>>=◌, ◌>>◌, pure, get, modify, branch, call, call_some, ask, ask_pointer, ask_state,
  ask_position,
}
use camera_platform.Video.Values.{
  PipelineOutcome, success, failure, VideoSource, source_element, VideoSink, auto_sink,
  sink_element, default_caps, PipelineEvent, handle_bus_message,
}

-- `setVideoSink` is given a sink that is not null. A callback and a main context are known by numbers.
pub record VideoPipeline : Type 0 where
  pub video_source : Option VideoSource
  pub video_sink : VideoSink
  pub source : Option ℕ
  pub pipeline : Option ℕ
  pub video_convert : Option ℕ
  pub video_caps : Option ℕ
  pub sink : Option ℕ
  pub caps : Caps
  pub app_callback : Option ℕ
  pub bus_source : Option ℕ

-- The constructor
abbrev pub new_pipeline : VideoPipeline
new_pipeline = record {
  video_source = none;
  video_sink = auto_sink;
  source = none;
  pipeline = none;
  video_convert = none;
  video_caps = none;
  sink = none;
  caps = default_caps;
  app_callback = none;
  bus_source = none;
}

abbrev pub is_some : Option ℕ → Bool
is_some none = false
is_some (some p) = true

-- `isPipelineSetup`
unfoldable pub is_pipeline_setup : VideoPipeline → Bool
is_pipeline_setup v =
    is_some v.pipeline
    && is_some v.source
    && is_some v.video_convert
    && is_some v.video_caps
    && is_some v.sink

unfoldable pub set_video_source : Option VideoSource → M VideoPipeline PipelineOutcome
set_video_source s = do modify (λ v. record v { video_source = s }); pure success

unfoldable pub set_video_sink : VideoSink → M VideoPipeline PipelineOutcome
set_video_sink s = do modify (λ v. record v { video_sink = s }); pure success

-- `detachBusWatch`
detach_from : Option ℕ → M VideoPipeline (Unit {0})
detach_from none = pure tt
detach_from (some w) = do
  call (source_destroy w)
  call (source_unref w)
  modify (λ v. record v { bus_source = none })

pub detach_bus_watch : M VideoPipeline (Unit {0})
unfolding detach_from
detach_bus_watch = do v ← get; detach_from v.bus_source

-- `if (m_pipeline) { … }` of `stop`
tear_down : Gst → Option ℕ → M VideoPipeline (Unit {0})
tear_down g none = pure tt
tear_down g (some p) = do
  call (set_state p null)
  call (get_state p)
  call (object_unref p)
  modify (λ v. record v {
    pipeline = none;
    source = none;
    video_convert = none;
    video_caps = none;
    sink = none;
  })

pub stop : Gst → M VideoPipeline PipelineOutcome
unfolding tear_down
stop g = do
  detach_bus_watch
  v ← get
  tear_down g v.pipeline
  w ← get
  call_some object_unref w.source
  call_some object_unref w.video_convert
  call_some object_unref w.video_caps
  call_some object_unref w.sink
  modify (λ v. record v { source = none; video_convert = none; video_caps = none; sink = none })
  pure success

-- The destructor, up to the members' own.
unfoldable destroy_pipeline : Gst → M VideoPipeline (Unit {0})
destroy_pipeline g = do _ ← stop g; pure tt

-- The elements of the chain, in the order in which they are linked.
abbrev chain : VideoPipeline → List ℕ
chain v = present v.source (present v.video_convert (present v.video_caps (present v.sink [])))
  where
    present : Option ℕ → List ℕ → List ℕ
    present none ps = ps
    present (some p) ps = p ∷ ps

-- `setupPipeline` behind its two guards: the elements that are made.
pub create_elements : Gst → VideoSource → VideoSink → M VideoPipeline (Unit {0})
create_elements g src snk = do
  source ← ask_pointer g (source_element src)
  pipeline ← ask_pointer g (pipeline_new (codes "video-pipeline"))
  convert ← ask_pointer g (factory_make (codes "videoconvert") (codes "video-convert"))
  filter ← ask_pointer g (factory_make (codes "capsfilter") (codes "video-caps"))
  sink ← ask_pointer g (sink_element snk)
  modify (λ v. record v {
    source = source;
    pipeline = pipeline;
    video_convert = convert;
    video_caps = filter;
    sink = sink;
  })

-- `setCaps` on a pipeline that is set up, and `setupPipeline`'s own caps.
apply_caps : Caps → M VideoPipeline (Unit {0})
apply_caps c = do v ← get; call_some (λ p. object_set p (codes "caps") (caps_value c)) v.video_caps

-- `gst_element_link_many`, and what follows it.
link_elements : Gst → M VideoPipeline PipelineOutcome
link_elements g = do
  v ← get
  call_some (λ p. bin_add p (chain v)) v.pipeline
  linked ← ask g (link (chain v))
  branch linked (pure success)
      (do _ ← stop g; pure (failure (codes "Failed to link elements in the pipeline")))

-- `setupPipeline` once the elements are made.
finish_setup : Gst → M VideoPipeline PipelineOutcome
unfolding link_elements apply_caps
finish_setup g = do
  v ← get
  branch (not (is_pipeline_setup v))
      (do _ ← stop g; pure (failure (codes "Failed to create GStreamer elements")))
      (do apply_caps v.caps; link_elements g)

-- `setupPipeline` behind its two guards.
build : Gst → VideoSource → VideoSink → M VideoPipeline PipelineOutcome
unfolding create_elements finish_setup
build g src snk = do create_elements g src snk; finish_setup g

with_source : Gst → Option VideoSource → VideoSink → M VideoPipeline PipelineOutcome
with_source g none snk = pure (failure (codes "videoSource is not set"))
with_source g (some src) snk = build g src snk

pub setup_pipeline : Gst → M VideoPipeline PipelineOutcome
unfolding with_source
setup_pipeline g = do
  v ← get
  branch (is_pipeline_setup v) (pure (failure (codes "Pipeline is setup")))
      (with_source g v.video_source v.video_sink)

pub set_caps : Gst → Caps → M VideoPipeline PipelineOutcome
unfolding apply_caps
set_caps g c = do
  modify (λ v. record v { caps = c })
  v ← get
  branch (not (is_pipeline_setup v)) (pure success) (do apply_caps c; pure success)
