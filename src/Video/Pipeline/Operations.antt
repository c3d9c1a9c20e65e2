-- ===== src/Video/Pipeline/Operations.antt =====
-- The sequences of calls that a client of the pipeline can make.
use camera_platform.Prelude.{ℕ, Option, List, [], ◌∷◌}
use camera_platform.Prelude.Int.{ℤ}
use camera_platform.Gst.{Gst, Caps}
use camera_platform.Gst.Effects.{M, ◌>>=◌, ◌>>◌, pure}
use camera_platform.Video.Values.{VideoSource, VideoSink}
use camera_platform.Video.Pipeline.{
  VideoPipeline, set_video_source, set_video_sink, set_caps, setup_pipeline, stop, detach_bus_watch,
}
use camera_platform.Video.Pipeline.Requests.{play, pause, seek, current_position, duration}
use camera_platform.Video.Pipeline.Bus.{attach_bus_watch, on_bus_message}

-- The public operations.
pub data Operation : Type 0 where
  set_source : Option VideoSource → Operation
  set_sink : VideoSink → Operation
  setup plays pauses stops : Operation
  caps_to : Caps → Operation
  seeks : ℤ → Operation
  asks_position asks_duration : Operation
  attaches : Option ℕ → Option ℕ → Operation
  detaches bus_message : Operation

unfoldable pub perform : Gst → Operation → M VideoPipeline (Unit {0})
perform g (set_source s) = do _ ← set_video_source s; pure tt
perform g (set_sink s) = do _ ← set_video_sink s; pure tt
perform g setup = do _ ← setup_pipeline g; pure tt
perform g plays = do _ ← play g; pure tt
perform g pauses = do _ ← pause g; pure tt
perform g stops = do _ ← stop g; pure tt
perform g (caps_to c) = do _ ← set_caps g c; pure tt
perform g (seeks z) = do _ ← seek g z; pure tt
perform g asks_position = do _ ← current_position g; pure tt
perform g asks_duration = do _ ← duration g; pure tt
perform g (attaches context callback) = do _ ← attach_bus_watch g context callback; pure tt
perform g detaches = detach_bus_watch
perform g bus_message = do _ ← on_bus_message g; pure tt

unfoldable pub run : Gst → List Operation → M VideoPipeline (Unit {0})
unfolding perform
run g [] = pure tt
run g (op ∷ ops) = do perform g op; run g ops
