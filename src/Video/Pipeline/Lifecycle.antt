-- ===== src/Video/Pipeline/Lifecycle.antt =====
-- What the pipeline's operations keep, over every sequence of them.
use camera_platform.Prelude.{
  ℕ, Bool, true, false, not, List, Option, none, some, [], ◌∷◌, ◌≡◌, refl, sym, subst, ◌∙◌, ◌⊎◌,
  inl, inr, arith,
}
use camera_platform.Gst.{Gst, Trace, Caps, create_watch}
use camera_platform.Gst.Effects.{branch-state}
use camera_platform.Video.Values.{VideoSource, VideoSink}
use camera_platform.Video.Pipeline.{
  VideoPipeline, new_pipeline, is_pipeline_setup, set_video_source, set_video_sink, set_caps,
  setup_pipeline, finish_setup, link_elements, detach_from, with_source, build, apply_caps, stop,
  detach_bus_watch,
}
use camera_platform.Video.Pipeline.Requests.{play, pause, seek, current_position, duration}
use camera_platform.Video.Pipeline.Bus.{
  watch_bus, attach_source, ask_bus, ask_message, attach_bus_watch, on_bus_message,
}
use camera_platform.Video.Pipeline.Frames.{guarded-state, request-state, clock-state}
use camera_platform.Video.Pipeline.Operations.{
  Operation, set_source, set_sink, setup, plays, pauses, stops, caps_to, seeks, asks_position,
  asks_duration, attaches, detaches, bus_message, perform, run,
}

-- Nothing is left of the pipeline.
pub record IsTornDown (v : VideoPipeline) : Type 0 where
  pub no_pipeline : v.pipeline ≡ none
  pub no_source : v.source ≡ none
  pub no_convert : v.video_convert ≡ none
  pub no_caps : v.video_caps ≡ none
  pub no_sink : v.sink ≡ none
  pub no_watch : v.bus_source ≡ none

pub stop-IsTornDown : (g : Gst) (v : VideoPipeline) (t : Trace) → IsTornDown (stop g v t).1
unfolding stop detach_bus_watch
stop-IsTornDown g v t = ground arith

pub new_pipeline-IsTornDown : IsTornDown new_pipeline
new_pipeline-IsTornDown = ground arith

-- Set up, or with nothing left.
abbrev pub IsWhole : VideoPipeline → Type 0
IsWhole v = IsTornDown v ⊎ (is_pipeline_setup v ≡ true)

link_elements-IsWhole :
    (g : Gst) (v : VideoPipeline) (t : Trace)
    → is_pipeline_setup v ≡ true
    → IsWhole (link_elements g v t).1
unfolding link_elements
link_elements-IsWhole g v t h =
    branch-state IsWhole _ _ _ v _ (λ _. inr h) (λ _. inl (stop-IsTornDown g _ _))

not-false : (b : Bool) → not b ≡ false → b ≡ true
not-false true h = refl
not-false false h = cc

finish_setup-IsWhole : (g : Gst) (v : VideoPipeline) (t : Trace) → IsWhole (finish_setup g v t).1
unfolding finish_setup apply_caps
finish_setup-IsWhole g v t =
    branch-state IsWhole (not (is_pipeline_setup v)) _ _ v t (λ _. inl (stop-IsTornDown g _ _))
      (λ e. link_elements-IsWhole g _ _ (not-false _ e))

with_source-IsWhole :
    (g : Gst) (src : Option VideoSource) (snk : VideoSink) (v : VideoPipeline) (t : Trace)
    → IsWhole v
    → IsWhole (with_source g src snk v t).1
unfolding with_source build
with_source-IsWhole g none snk v t h = h
with_source-IsWhole g (some src) snk v t h = finish_setup-IsWhole g _ _

setup_pipeline-IsWhole :
    (g : Gst) (v : VideoPipeline) (t : Trace) → IsWhole v → IsWhole (setup_pipeline g v t).1
unfolding setup_pipeline
setup_pipeline-IsWhole g v t h =
    branch-state IsWhole (is_pipeline_setup v) _ _ v t (λ e. inr e)
      (λ e. with_source-IsWhole g v.video_source v.video_sink v t h)

-- Detaching keeps the elements.
detach_from-IsSetup :
    (w : Option ℕ) (v : VideoPipeline) (t : Trace)
    → is_pipeline_setup v ≡ true
    → is_pipeline_setup (detach_from w v t).1 ≡ true
unfolding detach_from is_pipeline_setup
detach_from-IsSetup none v t h = h
detach_from-IsSetup (some w) v t h = h

watch_bus-IsSetup :
    (g : Gst) (context callback : ℕ) (bus : Option ℕ) (v : VideoPipeline) (t : Trace)
    → is_pipeline_setup v ≡ true
    → is_pipeline_setup (watch_bus g context callback bus v t).1 ≡ true
unfolding watch_bus
watch_bus-IsSetup g context callback none v t h = h
watch_bus-IsSetup g context callback (some bus) v t h =
    attach (g.pointer t (create_watch bus)) _ _ h
  where
    attach :
        (w : Option ℕ) (v : VideoPipeline) (t : Trace)
        → is_pipeline_setup v ≡ true
        → is_pipeline_setup
            (attach_source g context callback bus w (record v { bus_source = w }) t).1
          ≡ true
    attach none v t h = unfold attach_source is_pipeline_setup in h
    attach (some w) v t h = unfold attach_source is_pipeline_setup in h

ask_bus-state : (g : Gst) (p : Option ℕ) (v : VideoPipeline) (t : Trace) → (ask_bus g p v t).1 ≡ v
unfolding ask_bus
ask_bus-state g none v t = refl
ask_bus-state g (some p) v t = refl

attach_bus_watch-IsWhole :
    (g : Gst) (context callback : Option ℕ) (v : VideoPipeline) (t : Trace)
    → IsWhole v
    → IsWhole (attach_bus_watch g context callback v t).1
unfolding attach_bus_watch detach_bus_watch
attach_bus_watch-IsWhole g none callback v t h = h
attach_bus_watch-IsWhole g (some context) none v t h = h
attach_bus_watch-IsWhole g (some context) (some callback) v t h =
    branch-state IsWhole (not (is_pipeline_setup v)) _ _ v t (λ _. h)
      (λ e. inr (
        watch_bus-IsSetup g context callback _ _ _ (
          subst (λ s. is_pipeline_setup s ≡ true) (sym (ask_bus-state g v.pipeline _ _))
            (detach_from-IsSetup v.bus_source v t (not-false _ e)))))

detach_bus_watch-IsWhole :
    (v : VideoPipeline) (t : Trace) → IsWhole v → IsWhole (detach_bus_watch v t).1
unfolding detach_bus_watch
detach_bus_watch-IsWhole v t (inr h) = inr (detach_from-IsSetup v.bus_source v t h)
detach_bus_watch-IsWhole v t (inl h) = inl (torn v.bus_source h)
  where
    torn : (w : Option ℕ) → IsTornDown v → IsTornDown (detach_from w v t).1
    torn none h = unfold detach_from in h
    torn (some w) h = unfold detach_from in ground arith

set_caps-IsWhole :
    (g : Gst) (c : Caps) (v : VideoPipeline) (t : Trace) → IsWhole v → IsWhole (set_caps g c v t).1
unfolding set_caps apply_caps
set_caps-IsWhole g c v t h =
    branch-state IsWhole _ _ _ (record v { caps = c }) _ (λ _. same h) (λ _. same h)
  where
    same : IsWhole v → IsWhole (record v { caps = c })
    same (inl h) = inl (ground arith)
    same (inr h) = inr (unfold is_pipeline_setup in h)

on_bus_message-state : (g : Gst) (v : VideoPipeline) (t : Trace) → (on_bus_message g v t).1 ≡ v
unfolding on_bus_message
on_bus_message-state g v t =
    branch-state (λ s. s ≡ v) (not (is_pipeline_setup v)) _ _ v t (λ _. refl)
      (λ _. ask_message-state _ _ _ ∙ ask_bus-state g v.pipeline v t)
  where
    ask_message-state : (b : Option ℕ) (v : VideoPipeline) (t : Trace) → (ask_message g b v t).1 ≡ v
    ask_message-state none v t = unfold ask_message in refl
    ask_message-state (some b) v t = unfold ask_message in refl

pub perform-IsWhole :
    (g : Gst) (op : Operation) (v : VideoPipeline) (t : Trace)
    → IsWhole v
    → IsWhole (perform g op v t).1
unfolding perform set_video_source set_video_sink play pause seek current_position duration
perform-IsWhole g (set_source s) v t (inl h) = inl (ground arith)
perform-IsWhole g (set_source s) v t (inr h) = inr (unfold is_pipeline_setup in h)
perform-IsWhole g (set_sink s) v t (inl h) = inl (ground arith)
perform-IsWhole g (set_sink s) v t (inr h) = inr (unfold is_pipeline_setup in h)
perform-IsWhole g setup v t h = setup_pipeline-IsWhole g v t h
perform-IsWhole g plays v t h =
    subst IsWhole (sym (guarded-state g _ _ _ (request-state g _ _) v t)) h
perform-IsWhole g pauses v t h =
    subst IsWhole (sym (guarded-state g _ _ _ (request-state g _ _) v t)) h
perform-IsWhole g stops v t h = inl (stop-IsTornDown g v t)
perform-IsWhole g (caps_to c) v t h = set_caps-IsWhole g c v t h
perform-IsWhole g (seeks z) v t h =
    subst IsWhole (sym (guarded-state g _ _ _ (request-state g _ _) v t)) h
perform-IsWhole g asks_position v t h = subst IsWhole (sym (clock-state g _ v t)) h
perform-IsWhole g asks_duration v t h = subst IsWhole (sym (clock-state g _ v t)) h
perform-IsWhole g (attaches context callback) v t h =
    attach_bus_watch-IsWhole g context callback v t h
perform-IsWhole g detaches v t h = detach_bus_watch-IsWhole v t h
perform-IsWhole g bus_message v t h = subst IsWhole (sym (on_bus_message-state g v t)) h

run-IsWhole :
    (g : Gst) (ops : List Operation) (v : VideoPipeline) (t : Trace)
    → IsWhole v
    → IsWhole (run g ops v t).1
unfolding run
run-IsWhole g [] v t h = h
run-IsWhole g (op ∷ ops) v t h = run-IsWhole g ops _ _ (perform-IsWhole g op v t h)

-- After any sequence of the public operations on a new pipeline, and whatever GStreamer answers, the
-- object either has all five elements or has none of them and no bus watch: no operation leaves a
-- pipeline half built, and no watch outlives the elements.
pub run-new_pipeline :
    (g : Gst) (ops : List Operation) (t : Trace) → IsWhole (run g ops new_pipeline t).1
run-new_pipeline g ops t = run-IsWhole g ops new_pipeline t (inl new_pipeline-IsTornDown)
