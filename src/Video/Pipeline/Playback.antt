-- ===== src/Video/Pipeline/Playback.antt =====
-- When `play`, `pause` and `seek` succeed, and what they have called then.
use camera_platform.Prelude.{
  ℕ, true, Bytes, List, some, [], ◌∷◌, ◌≡◌, inl, inr, Option-cases, arith,
}
use camera_platform.Prelude.Int.{ℤ}
use camera_platform.Gst.{
  Gst, Call, Trace, GstState, get_state, set_state, seek as seek_call, null, ready, paused, playing,
}
use camera_platform.Gst.Effects.{M, branch}
use camera_platform.Video.Values.{PipelineOutcome}
use camera_platform.Video.Pipeline.{VideoPipeline, is_pipeline_setup}
use camera_platform.Video.Pipeline.Requests.{
  one_of, state_in, ask_current, is_pipeline_in_state, request, guarded, play, pause, seek,
}

-- The pipeline was in one of the states when it was asked for its state, then the call was made on it
-- and succeeded; nothing else was called.
pub record Performed (g : Gst) (states : List GstState) (c : ℕ → Call) (v : VideoPipeline)
    (t : Trace) (u : Trace) : Type 0 where
  pub element : ℕ
  pub state : GstState
  pub has_element : v.pipeline ≡ some element
  pub is_setup : is_pipeline_setup v ≡ true
  pub is_state : g.state t (get_state element) ≡ some state
  pub state_fits : one_of state states ≡ true
  pub called : u ≡ c element ∷ get_state element ∷ t
  pub succeeded : g.succeeds (get_state element ∷ t) (c element) ≡ true

guarded-Performed :
    (g : Gst) (states : List GstState) (reason reason' : Bytes) (c : ℕ → Call) (v : VideoPipeline)
    (t : Trace)
    → (guarded g states reason (request g c reason') v t).0.ok ≡ true
    → Performed g states c v t (guarded g states reason (request g c reason') v t).2
unfolding guarded request is_pipeline_in_state ask_current state_in branch
guarded-Performed g states reason reason' c v t h = elim (Option-cases v.pipeline) [
  | inl e ↦ absurd (ground arith)
  | inr (p, e) ↦ elim (Option-cases (g.state t (get_state p))) [
    | inl f ↦ absurd (ground arith)
    | inr (s, f) ↦ record {
      element = p;
      state = s;
      has_element = e;
      is_setup = ground arith;
      is_state = f;
      state_fits = ground arith;
      called = ground arith;
      succeeded = ground arith;
    }
  ]
]

-- `play` succeeds only on a pipeline that is set up and answers that it is in `NULL`, `READY` or
-- `PAUSED`; it has then asked for that state and set `PLAYING`, which succeeded, and called nothing else.
play_ok :
    (g : Gst) (v : VideoPipeline) (t : Trace)
    → (play g v t).0.ok ≡ true
    → Performed g (null ∷ ready ∷ paused ∷ []) (λ p. set_state p playing) v t (play g v t).2
unfolding play
play_ok g v t h = guarded-Performed g _ _ _ (λ p. set_state p playing) v t h

-- `pause` succeeds only on a pipeline that is set up and answers that it is in `PLAYING`; it has then
-- asked for that state and set `PAUSED`, which succeeded, and called nothing else.
pause_ok :
    (g : Gst) (v : VideoPipeline) (t : Trace)
    → (pause g v t).0.ok ≡ true
    → Performed g (playing ∷ []) (λ p. set_state p paused) v t (pause g v t).2
unfolding pause
pause_ok g v t h = guarded-Performed g _ _ _ (λ p. set_state p paused) v t h

-- `seek` succeeds only on a pipeline that is set up and answers that it is in `PLAYING` or `PAUSED`; it
-- has then asked for that state and sought the position, which succeeded, and called nothing else.
seek_ok :
    (g : Gst) (position : ℤ) (v : VideoPipeline) (t : Trace)
    → (seek g position v t).0.ok ≡ true
    → Performed g (playing ∷ paused ∷ []) (λ p. seek_call p position) v t (seek g position v t).2
unfolding seek
seek_ok g position v t h = guarded-Performed g _ _ _ (λ p. seek_call p position) v t h

-- The three requests, the states that each is allowed in, and the call that each makes
pub data Request : Type 0 where
  plays pauses : Request
  seeks : ℤ → Request

unfoldable pub perform_request : Gst → Request → M VideoPipeline PipelineOutcome
perform_request g plays = play g
perform_request g pauses = pause g
perform_request g (seeks position) = seek g position

abbrev pub allowed : Request → List GstState
allowed plays = null ∷ ready ∷ paused ∷ []
allowed pauses = playing ∷ []
allowed (seeks position) = playing ∷ paused ∷ []

abbrev pub call_of : Request → ℕ → Call
call_of plays p = set_state p playing
call_of pauses p = set_state p paused
call_of (seeks position) p = seek_call p position

-- `play`, `pause` and `seek` succeed only on a pipeline that is set up and answers that it is in one of the
-- states that the request is allowed in: `NULL`, `READY` or `PAUSED` for `play`, `PLAYING` for `pause`,
-- `PLAYING` or `PAUSED` for `seek`. They have then asked for that state and made their one call, which
-- succeeded, and called nothing else.
pub perform_request_ok :
    (g : Gst) (q : Request) (v : VideoPipeline) (t : Trace)
    → (perform_request g q v t).0.ok ≡ true
    → Performed g (allowed q) (call_of q) v t (perform_request g q v t).2
unfolding perform_request
perform_request_ok g plays v t h = play_ok g v t h
perform_request_ok g pauses v t h = pause_ok g v t h
perform_request_ok g (seeks position) v t h = seek_ok g position v t h
