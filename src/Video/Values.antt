-- ===== src/Video/Values.antt =====
-- video/VideoPipeline.hpp, VideoSource.hpp, VideoSink.hpp and the source classes: the values that the
-- pipelines pass, and the elements that the factories create.
use camera_platform.Prelude.{ℕ, Bool, true, false, Bytes, codes, Option, none, some, []}
use camera_platform.Prelude.Int.{pos}
use camera_platform.Gst.{
  Gst, Call, factory_make, Caps, MessageType, error_message, warning_message, eos_message,
  other_message,
}
use mathlib.Core.List.{◌++◌}

pub record PipelineOutcome : Type 0 where
  pub ok : Bool
  pub error : Bytes

abbrev pub success : PipelineOutcome
success = record { ok = true; error = [] }

abbrev pub failure : Bytes → PipelineOutcome
failure reason = record { ok = false; error = reason }

-- `VideoCaps`, which is the `Caps` that `toGstCaps` builds, with its default initialisers.
abbrev pub default_caps : Caps
default_caps = record {
  format = codes "I420";
  width = pos 640;
  height = pos 480;
  fps_num = pos 30;
  fps_denom = pos 1;
}

-- The classes that implement `VideoSource`.
pub data VideoSource : Type 0 where
  camera_source test_source : VideoSource

-- The classes that implement `VideoSink`; `other_sink` is an adapter outside the library, by the
-- element and the name that it makes.
pub data VideoSink : Type 0 where
  auto_sink : VideoSink
  other_sink : Bytes → Bytes → VideoSink

-- `createElement` of each
abbrev pub source_element : VideoSource → Call
source_element camera_source = factory_make (codes "v4l2src") (codes "camera-source")
source_element test_source = factory_make (codes "videotestsrc") (codes "test-source")

abbrev pub sink_element : VideoSink → Call
sink_element auto_sink = factory_make (codes "autovideosink") (codes "video-sink")
sink_element (other_sink element name) = factory_make element name

pub data PipelineEvent : Type 0 where
  error warning end_of_stream : PipelineEvent

-- `parseMessage`
unfoldable or_unknown : Option Bytes → Bytes
or_unknown none = codes "unknown"
or_unknown (some e) = e

unfoldable with_debug : Bytes → Option Bytes → Bytes
with_debug message none = message
with_debug message (some debug) = message ++ codes ": " ++ debug

unfoldable parse_message : Gst → ℕ → Bytes
parse_message g msg = with_debug (or_unknown (g.message_error msg)) (g.message_debug msg)

-- The event that `handleBusMessage` passes on for a message, if any.
event_of : Gst → ℕ → MessageType → Option (PipelineEvent × Bytes)
event_of g msg error_message = some (error, parse_message g msg)
event_of g msg warning_message = some (warning, parse_message g msg)
event_of g msg eos_message = some (end_of_stream, codes "End of Stream")
event_of g msg other_message = none

-- `handleBusMessage`: what the callback is called with, and which callback.
unfoldable pub handle_bus_message : Gst → Option ℕ → Option ℕ → Option (ℕ × PipelineEvent × Bytes)
unfolding event_of parse_message or_unknown with_debug
handle_bus_message g none callback = none
handle_bus_message g (some msg) none = none
handle_bus_message g (some msg) (some callback) = elim (event_of g msg (g.message_type msg)) [
  | none ↦ none
  | some e ↦ some (callback, e.0, e.1)
]
