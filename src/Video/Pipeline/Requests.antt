-- ===== src/Video/Pipeline/Requests.antt =====
-- video/VideoPipeline.cpp: play, pause, seek and the two clocks.
use camera_platform.Prelude.{
  ℕ, Bool, false, not, ◌||◌, ◌==◌, Bytes, codes, List, Option, none, some, [], ◌∷◌, if◌then◌else◌,
}
use camera_platform.Prelude.Int.{ℤ, negsuc}
use camera_platform.Gst.{
  Gst, Call, set_state, get_state, seek as seek_call, query_position, query_duration, GstState,
  void_pending, null, ready, paused, playing,
}
use camera_platform.Gst.Effects.{M, ◌>>=◌, pure, get, branch, ask_state, ask_position}
use camera_platform.Video.Values.{PipelineOutcome, success, failure}
use camera_platform.Video.Pipeline.{VideoPipeline, is_pipeline_setup}

abbrev pub rank : GstState → ℕ
rank void_pending = 0
rank null = 1
rank ready = 2
rank paused = 3
rank playing = 4

abbrev pub one_of : GstState → List GstState → Bool
one_of s [] = false
one_of s (u ∷ us) = rank u == rank s || one_of s us

unfoldable pub state_in : Option GstState → List GstState → Bool
state_in none states = false
state_in (some s) states = one_of s states

-- `gst_element_get_state` on the pipeline, where there is one
unfoldable pub ask_current : Gst → Option ℕ → M VideoPipeline (Option GstState)
ask_current g none = pure none
ask_current g (some p) = ask_state g (get_state p)

unfoldable pub is_pipeline_in_state : Gst → List GstState → M VideoPipeline Bool
unfolding state_in ask_current
is_pipeline_in_state g states = do
  v ← get
  branch (not (is_pipeline_setup v)) (pure false)
      (do s ← ask_current g v.pipeline; pure (state_in s states))

-- A request on the pipeline element that succeeds or fails
unfoldable pub request : Gst → (ℕ → Call) → Bytes → M VideoPipeline PipelineOutcome
request g c reason s t = elim s.pipeline [
  | none ↦ (failure reason, s, t)
  | some p ↦ (if g.succeeds t (c p) then success else failure reason, s, c p ∷ t)
]

-- The two guards that `play`, `pause` and `seek` share, and what each does behind them.
unfoldable pub guarded :
    Gst → List GstState → Bytes → M VideoPipeline PipelineOutcome → M VideoPipeline PipelineOutcome
unfolding is_pipeline_in_state
guarded g states reason body = do
  v ← get
  branch (not (is_pipeline_setup v)) (pure (failure (codes "Pipeline is not setup")))
      (do fits ← is_pipeline_in_state g states; branch (not fits) (pure (failure reason)) body)

unfoldable pub play : Gst → M VideoPipeline PipelineOutcome
unfolding guarded request
play g =
    guarded g (null ∷ ready ∷ paused ∷ []) (codes "Invalid pipeline state for play")
      (request g (λ p. set_state p playing) (codes "Failed to set pipeline to PLAYING state"))

unfoldable pub pause : Gst → M VideoPipeline PipelineOutcome
unfolding guarded request
pause g =
    guarded g (playing ∷ []) (codes "Pipeline is not in PLAYING state, cannot pause")
      (request g (λ p. set_state p paused) (codes "Failed to set pipeline to PAUSED state"))

unfoldable pub seek : Gst → ℤ → M VideoPipeline PipelineOutcome
unfolding guarded request
seek g position =
    guarded g (playing ∷ paused ∷ [])
      (codes "Pipeline is not in PLAYING or PAUSED state, cannot seek")
      (request g (λ p. seek_call p position) (codes "Pipeline cannot be seeked"))

-- -1, also where the query failed
unfoldable pub or_sentinel : Option ℤ → ℤ
or_sentinel none = negsuc 0
or_sentinel (some z) = z

unfoldable pub ask_clock : Gst → (ℕ → Call) → Option ℕ → M VideoPipeline ℤ
ask_clock g c none = pure (negsuc 0)
ask_clock g c (some p) = do z ← ask_position g (c p); pure (or_sentinel z)

-- `currentPosition` and `duration`, which differ in the query
unfoldable pub clock : Gst → (ℕ → Call) → M VideoPipeline ℤ
unfolding is_pipeline_in_state ask_clock or_sentinel
clock g c = do
  v ← get
  branch (not (is_pipeline_setup v)) (pure (negsuc 0)) (do
    fits ← is_pipeline_in_state g (playing ∷ paused ∷ [])
    branch (not fits) (pure (negsuc 0)) (ask_clock g c v.pipeline))

unfoldable pub current_position : Gst → M VideoPipeline ℤ
unfolding clock
current_position g = clock g query_position

unfoldable pub duration : Gst → M VideoPipeline ℤ
unfolding clock
duration g = clock g query_duration
