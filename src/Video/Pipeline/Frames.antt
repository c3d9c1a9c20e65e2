-- ===== src/Video/Pipeline/Frames.antt =====
-- The operations of the pipeline that only ask GStreamer leave the object as it is.
use camera_platform.Prelude.{
  ℕ, not, Bytes, List, Option, none, some, [], ◌∷◌, ◌≡◌, refl, ◌∙◌, arith,
}
use camera_platform.Gst.{Gst, Call, Trace, GstState, playing, paused}
use camera_platform.Gst.Effects.{M, branch-state}
use camera_platform.Video.Values.{PipelineOutcome}
use camera_platform.Video.Pipeline.{VideoPipeline, is_pipeline_setup}
use camera_platform.Video.Pipeline.Requests.{
  clock, ask_clock, ask_current, request, is_pipeline_in_state, guarded,
}

-- Asking for the state, and a request, leave the object as it is.
ask_current-state :
    (g : Gst) (p : Option ℕ) (v : VideoPipeline) (t : Trace) → (ask_current g p v t).1 ≡ v
unfolding ask_current
ask_current-state g none v t = refl
ask_current-state g (some p) v t = refl

is_pipeline_in_state-state :
    (g : Gst) (states : List GstState) (v : VideoPipeline) (t : Trace)
    → (is_pipeline_in_state g states v t).1 ≡ v
unfolding is_pipeline_in_state
is_pipeline_in_state-state g states v t =
    branch-state (λ s. s ≡ v) (not (is_pipeline_setup v)) _ _ v t (λ _. refl)
      (λ _. ask_current-state g v.pipeline v t)

pub request-state :
    (g : Gst) (c : ℕ → Call) (reason : Bytes) (v : VideoPipeline) (t : Trace)
    → (request g c reason v t).1 ≡ v
unfolding request
request-state g c reason v t = ground arith

pub guarded-state :
    (g : Gst) (states : List GstState) (reason : Bytes) (body : M VideoPipeline PipelineOutcome)
    → ((v : VideoPipeline) (t : Trace) → (body v t).1 ≡ v)
    → (v : VideoPipeline) (t : Trace) → (guarded g states reason body v t).1 ≡ v
unfolding guarded
guarded-state g states reason body h v t =
    branch-state (λ s. s ≡ v) (not (is_pipeline_setup v)) _ _ v t (λ _. refl)
      (λ _.
        branch-state (λ s. s ≡ v) _ _ _ _ _ (λ _. is_pipeline_in_state-state g states v t)
          (λ _. h _ _ ∙ is_pipeline_in_state-state g states v t))

pub clock-state : (g : Gst) (c : ℕ → Call) (v : VideoPipeline) (t : Trace) → (clock g c v t).1 ≡ v
unfolding clock
clock-state g c v t =
    branch-state (λ s. s ≡ v) (not (is_pipeline_setup v)) _ _ v t (λ _. refl)
      (λ _.
        branch-state (λ s. s ≡ v) _ _ _ _ _
          (λ _. is_pipeline_in_state-state g (playing ∷ paused ∷ []) v t)
          (λ _.
            ask_clock-state v.pipeline _ _
            ∙ is_pipeline_in_state-state g (playing ∷ paused ∷ []) v t))
  where
    ask_clock-state : (p : Option ℕ) (v : VideoPipeline) (t : Trace) → (ask_clock g c p v t).1 ≡ v
    ask_clock-state none v t = unfold ask_clock in refl
    ask_clock-state (some p) v t = unfold ask_clock in refl
