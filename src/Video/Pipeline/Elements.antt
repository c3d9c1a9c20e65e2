-- ===== src/Video/Pipeline/Elements.antt =====
-- What becomes of the elements that the pipeline of video/VideoPipeline.cpp makes.
use camera_platform.Prelude.{
  ℕ, ◌+◌, Bool-cases, inl, inr, true, if◌then◌else◌, Option, none, some, ◌≡◌, refl, ap, arith,
}
use camera_platform.Gst.{Gst, Caps, Trace}
use camera_platform.Gst.Effects.{branch}
use camera_platform.Gst.Elements.{made, settled, Account}
use camera_platform.Gst.Observe.{one_if_some}
use camera_platform.Video.Values.{VideoSource, VideoSink}
use camera_platform.Video.Pipeline.{
  VideoPipeline, is_pipeline_setup, detach_from, detach_bus_watch, tear_down, stop, create_elements,
  apply_caps, link_elements, finish_setup, build, with_source, setup_pipeline,
}
use camera_platform.Video.Pipeline.Lifecycle.{IsWhole}

-- The members that are elements of the chain
abbrev pub parts : VideoPipeline → ℕ
parts v =
    one_if_some v.source
    + one_if_some v.video_convert
    + one_if_some v.video_caps
    + one_if_some v.sink

-- What `stop` releases, and what it forgets.
abbrev pub released : Option ℕ → ℕ → ℕ
released none n = n
released (some p) n = 1

abbrev pub forgotten : Option ℕ → ℕ → ℕ
forgotten none n = 0
forgotten (some p) n = n

-- What a set-up loses that has made the members.
abbrev lost_by : VideoPipeline → ℕ
lost_by v = if is_pipeline_setup v then 0 else forgotten v.pipeline (parts v)

detach_from-made :
    (g : Gst) (w : Option ℕ) (v : VideoPipeline) (t : Trace)
    → (made g (detach_from w v t).2 ≡ made g t) × (settled (detach_from w v t).2 ≡ settled t)
unfolding detach_from made settled
detach_from-made g none v t = (refl, refl)
detach_from-made g (some w) v t = (refl, refl)

stop-settled :
    (g : Gst) (v : VideoPipeline) (t : Trace)
    → (made g (stop g v t).2 ≡ made g t)
      × (settled (stop g v t).2 ≡ settled t + released v.pipeline (parts v))
      × (one_if_some (stop g v t).1.pipeline ≡ 0)
unfolding stop detach_bus_watch tear_down detach_from made settled
stop-settled g v t = ground arith

create_elements-made :
    (g : Gst) (src : VideoSource) (snk : VideoSink) (v : VideoPipeline) (t : Trace)
    → let r = create_elements g src snk v t in
      (made g r.2 ≡ made g t + one_if_some r.1.pipeline + parts r.1) × (settled r.2 ≡ settled t)
unfolding create_elements made settled
create_elements-made g src snk v t = ground arith

link_elements-made :
    (g : Gst) (v : VideoPipeline) (t : Trace)
    → is_pipeline_setup v ≡ true
    → Account g 0
        (one_if_some v.pipeline + parts v)
        t
        (one_if_some (link_elements g v t).1.pipeline)
        (link_elements g v t).2
unfolding link_elements is_pipeline_setup stop detach_bus_watch tear_down detach_from branch made
    settled
link_elements-made g v t h = ground arith

apply_caps-made :
    (g : Gst) (c : Caps) (v : VideoPipeline) (t : Trace)
    → (made g (apply_caps c v t).2 ≡ made g t) × (settled (apply_caps c v t).2 ≡ settled t)
unfolding apply_caps made settled
apply_caps-made g c v t = ground arith

finish_setup-made :
    (g : Gst) (v : VideoPipeline) (t : Trace)
    → Account g
        (lost_by v)
        (one_if_some v.pipeline + parts v)
        t
        (one_if_some (finish_setup g v t).1.pipeline)
        (finish_setup g v t).2
unfolding finish_setup apply_caps branch made settled
finish_setup-made g v t = elim (Bool-cases (is_pipeline_setup v)) [
  | inl e ↦ rw e (
      omega
        (arith, apply_caps-made g v.caps v t, link_elements-made g v (apply_caps v.caps v t).2 e))
  | inr e ↦ rw e (ground (arith, stop-settled g v t))
]

-- What a set-up loses.
abbrev lost_with : Gst → Option VideoSource → VideoPipeline → Trace → ℕ
lost_with g none v t = 0
lost_with g (some src) v t = lost_by (create_elements g src v.video_sink v t).1

unfoldable pub lost : Gst → VideoPipeline → Trace → ℕ
lost g v t = if is_pipeline_setup v then 0 else lost_with g v.video_source v t

with_source-made :
    (g : Gst) (src : Option VideoSource) (v : VideoPipeline) (t : Trace)
    → v.pipeline ≡ none
    → Account g
        (lost_with g src v t)
        0
        t
        (one_if_some (with_source g src v.video_sink v t).1.pipeline)
        (with_source g src v.video_sink v t).2
unfolding with_source build
with_source-made g none v t e = ground (arith, e)
with_source-made g (some src) v t e =
    let c = create_elements g src v.video_sink v t in
    omega (arith, create_elements-made g src v.video_sink v t, finish_setup-made g c.1 c.2)

-- The account of a set-up on an object with nothing or with all.
pub setup_pipeline-made :
    (g : Gst) (v : VideoPipeline) (t : Trace)
    → IsWhole v
    → Account g
        (lost g v t)
        (one_if_some v.pipeline)
        t
        (one_if_some (setup_pipeline g v t).1.pipeline)
        (setup_pipeline g v t).2
unfolding setup_pipeline lost branch
setup_pipeline-made g v t (inr e) = rw e (omega arith)
setup_pipeline-made g v t (inl torn) = elim (Bool-cases (is_pipeline_setup v)) [
  | inl e ↦ rw e (omega arith)
  | inr e ↦ rw e (
      omega (
        arith,
        with_source-made g v.video_source v t torn.no_pipeline,
        ap one_if_some torn.no_pipeline,
      ))
]

pub stop-made :
    (g : Gst) (v : VideoPipeline) (t : Trace)
    → IsWhole v
    → Account g 0 (one_if_some v.pipeline) t (one_if_some (stop g v t).1.pipeline) (stop g v t).2
unfolding is_pipeline_setup
stop-made g v t (inl torn) = rw torn.no_pipeline (
    ground (
      arith,
      stop-settled g v t,
      torn.no_pipeline,
      torn.no_source,
      torn.no_convert,
      torn.no_caps,
      torn.no_sink,
    ))
stop-made g v t (inr e) = ground (arith, stop-settled g v t, e)
