-- ===== src/Video/Pipeline/Tests.antt =====
-- The pipeline at a concrete sequence of operations.
use camera_platform.Prelude.{◌+◌, List, some, [], ◌∷◌, ◌≡◌, refl}
use camera_platform.Prelude.Int.{negsuc}
use camera_platform.Gst.Elements.{made, settled}
use camera_platform.Gst.{Gst, ready}
use camera_platform.Gst.Effects.{branch}
use camera_platform.Gst.Plain.{plain_gst, poor_gst}
use camera_platform.Video.Values.{test_source}
use camera_platform.Video.Pipeline.{
  VideoPipeline, new_pipeline, is_pipeline_setup, destroy_pipeline, create_elements,
  set_video_source,
}
use camera_platform.Video.Pipeline.Requests.{
  play, guarded, request, is_pipeline_in_state, ask_current, state_in,
}
use camera_platform.Video.Pipeline.Operations.{
  Operation, set_source, setup, plays as starts, seeks, attaches, stops, run, perform,
}
use camera_platform.Video.Pipeline.Lifecycle.{IsWhole, run-new_pipeline}
use camera_platform.Video.Pipeline.Elements.{lost}
use camera_platform.Video.Pipeline.Losses.{lost_over, session-Account}
use camera_platform.Video.Pipeline.Playback.{
  Performed, plays, allowed, call_of, perform_request, perform_request_ok,
}

abbrev session : List Operation
session =
    setup
    ∷ set_source (some test_source)
    ∷ setup
    ∷ starts
    ∷ attaches (some 1) (some 2)
    ∷ seeks (negsuc 0)
    ∷ stops
    ∷ setup
    ∷ []

run-new_pipeline_example : IsWhole (run plain_gst session new_pipeline []).1
run-new_pipeline_example = run-new_pipeline plain_gst session []

abbrev built : VideoPipeline
built = record new_pipeline {
  pipeline = some 1;
  source = some 2;
  video_convert = some 3;
  video_caps = some 4;
  sink = some 5;
}

abbrev ready_gst : Gst
ready_gst = record plain_gst { state = λ _ _. some ready }

perform_request_ok_example :
    Performed ready_gst
      (allowed plays)
      (call_of plays)
      built
      []
      (perform_request ready_gst plays built []).2
unfolding perform_request play guarded request is_pipeline_in_state is_pipeline_setup ask_current
    state_in branch
perform_request_ok_example = perform_request_ok ready_gst plays built [] refl

abbrev failing_session : List Operation
failing_session = set_source (some test_source) ∷ setup ∷ stops ∷ []

three_lost : lost_over poor_gst failing_session new_pipeline [] ≡ 3
unfolding lost_over lost create_elements is_pipeline_setup perform set_video_source
three_lost = refl

session-Account_example :
    let r = run poor_gst failing_session new_pipeline [] in
    made poor_gst (destroy_pipeline poor_gst r.1 r.2).2
    ≡ settled (destroy_pipeline poor_gst r.1 r.2).2
      + lost_over poor_gst failing_session new_pipeline []
session-Account_example = session-Account poor_gst failing_session
