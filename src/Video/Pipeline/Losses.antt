-- ===== src/Video/Pipeline/Losses.antt =====
-- The elements and the buses of the pipeline of video/VideoPipeline.cpp over every use of it.
use camera_platform.Prelude.{
  ℕ, ◌+◌, if◌then◌else◌, inl, Option, none, some, List, [], ◌∷◌, ◌≡◌, ap, arith,
}
use camera_platform.Gst.Elements.{made, settled, Account}
use camera_platform.Gst.{Gst, Trace, get_bus, create_watch}
use camera_platform.Gst.Effects.{branch}
use camera_platform.Gst.Observe.{one_if_some}
use camera_platform.Video.Pipeline.{
  VideoPipeline, new_pipeline, destroy_pipeline, set_video_source, set_video_sink, set_caps,
  detach_bus_watch, detach_from, apply_caps, is_some, is_pipeline_setup,
}
use camera_platform.Video.Pipeline.Requests.{
  play, pause, seek, current_position, duration, clock, ask_clock, ask_current, request,
  is_pipeline_in_state, guarded,
}
use camera_platform.Video.Pipeline.Bus.{
  watch_bus, attach_source, ask_bus, ask_message, attach_bus_watch, on_bus_message,
}
use camera_platform.Video.Pipeline.Operations.{
  Operation, set_source, set_sink, setup, plays, pauses, stops, caps_to, seeks, asks_position,
  asks_duration, attaches, detaches, bus_message, perform, run,
}
use camera_platform.Video.Pipeline.Lifecycle.{
  new_pipeline-IsTornDown, IsWhole, stop-IsTornDown, perform-IsWhole, run-new_pipeline,
}
use camera_platform.Video.Pipeline.Elements.{lost, setup_pipeline-made, stop-made}

-- The bus that `attachBusWatch` loses where the bus cannot be watched
abbrev bus_left : Gst → Option ℕ → Trace → ℕ
bus_left g none t = 0
bus_left g (some b) t = if is_some (g.pointer t (create_watch b)) then 0 else 1

abbrev bus_of : Gst → Option ℕ → Trace → ℕ
bus_of g none t = 0
bus_of g (some p) t = bus_left g (g.pointer t (get_bus p)) (get_bus p ∷ t)

abbrev lost_bus : Gst → Option ℕ → Option ℕ → VideoPipeline → Trace → ℕ
lost_bus g none callback v t = 0
lost_bus g (some context) none v t = 0
lost_bus g (some context) (some callback) v t =
    if is_pipeline_setup v then bus_of g v.pipeline (detach_bus_watch v t).2 else 0

-- What one operation loses, and what a sequence of them does.
abbrev lost_in : Gst → Operation → VideoPipeline → Trace → ℕ
lost_in g setup v t = lost g v t
lost_in g (set_source s) v t = 0
lost_in g (set_sink s) v t = 0
lost_in g plays v t = 0
lost_in g pauses v t = 0
lost_in g stops v t = 0
lost_in g (caps_to c) v t = 0
lost_in g (seeks z) v t = 0
lost_in g asks_position v t = 0
lost_in g asks_duration v t = 0
lost_in g (attaches context callback) v t = lost_bus g context callback v t
lost_in g detaches v t = 0
lost_in g bus_message v t = 0

unfoldable pub lost_over : Gst → List Operation → VideoPipeline → Trace → ℕ
lost_over g [] v t = 0
lost_over g (o ∷ os) v t =
    let r = perform g o v t in let rest = lost_over g os r.1 r.2 in lost_in g o v t + rest

abbrev Performed : Gst → Operation → VideoPipeline → Trace → Type 0
Performed g o v t =
    let r = perform g o v t in
    Account g (lost_in g o v t) (one_if_some v.pipeline) t (one_if_some r.1.pipeline) r.2

perform-Performed :
    (g : Gst) (o : Operation) (v : VideoPipeline) (t : Trace) → IsWhole v → Performed g o v t
unfolding perform set_video_source set_video_sink play pause seek current_position duration guarded
    request clock ask_clock is_pipeline_in_state ask_current set_caps apply_caps attach_bus_watch
    detach_bus_watch detach_from ask_bus watch_bus attach_source on_bus_message ask_message branch
    made settled
perform-Performed g (set_source s) v t w = omega arith
perform-Performed g (set_sink s) v t w = omega arith
perform-Performed g setup v t w = setup_pipeline-made g v t w
perform-Performed g plays v t w = ground arith
perform-Performed g pauses v t w = ground arith
perform-Performed g stops v t w = stop-made g v t w
perform-Performed g (caps_to c) v t w = ground arith
perform-Performed g (seeks z) v t w = ground arith
perform-Performed g asks_position v t w = ground arith
perform-Performed g asks_duration v t w = ground arith
perform-Performed g (attaches context callback) v t w = ground arith
perform-Performed g detaches v t w = ground arith
perform-Performed g bus_message v t w = ground arith

run-Account :
    (g : Gst) (os : List Operation) (v : VideoPipeline) (t : Trace)
    → IsWhole v
    → Account g
        (lost_over g os v t)
        (one_if_some v.pipeline)
        t
        (one_if_some (run g os v t).1.pipeline)
        (run g os v t).2
unfolding run lost_over
run-Account g [] v t w = omega arith
run-Account g (o ∷ os) v t w =
    let r = perform g o v t in
    omega (arith, perform-Performed g o v t w, run-Account g os r.1 r.2 (perform-IsWhole g o v t w))

-- In a session of a new pipeline, any public operations and bus messages, and the destructor, every
-- pipeline and element that is made is released or added to a pipeline, and every bus that is asked for
-- is released, except: of each set-up that made a pipeline but not all of the elements, the elements that
-- it did make; and the bus, where attachBusWatch cannot watch it. This holds whatever GStreamer answers.
pub session-Account :
    (g : Gst) (os : List Operation)
    → let r = run g os new_pipeline [] in
      made g (destroy_pipeline g r.1 r.2).2
      ≡ settled (destroy_pipeline g r.1 r.2).2 + lost_over g os new_pipeline []
unfolding destroy_pipeline made settled
session-Account g os =
    let r = run g os new_pipeline [] in
    let w = run-new_pipeline g os [] in
    omega (
      arith,
      run-Account g os new_pipeline [] (inl new_pipeline-IsTornDown),
      stop-made g r.1 r.2 w,
      ap one_if_some ((stop-IsTornDown g r.1 r.2).no_pipeline),
    )
