-- ===== src/Gst.antt =====
-- GStreamer and GLib as the program sees them: the calls that it makes, in order, and what each of
-- them answers. The libraries are not part of the program: their answers are an argument, `Gst`, and
-- may depend on every call made before.
pub mod Attached
pub mod Effects
pub mod Elements
pub mod Plain
pub mod Observe
use camera_platform.Prelude.{ℕ, Bool, Bytes, Option, List}
use camera_platform.Prelude.Int.{ℤ}

-- `GstState`
pub data GstState : Type 0 where
  void_pending null ready paused playing : GstState

-- The arguments of `gst_caps_new_simple("video/x-raw", …)`.
pub record Caps : Type 0 where
  pub format : Bytes
  pub width : ℤ
  pub height : ℤ
  pub fps_num : ℤ
  pub fps_denom : ℤ

-- A value of a property or an argument.
pub data Setting : Type 0 where
  flag : Bool → Setting
  number : ℕ → Setting
  text : Bytes → Setting
  caps : Caps → Setting

-- A pointer that is not null is its address.
pub data Call : Type 0 where
  pipeline_new bin_new : Bytes → Call
  factory_make : Bytes → Bytes → Call
  -- object, property, value
  object_set : ℕ → Bytes → Setting → Call
  object_get : ℕ → Bytes → Call
  bin_add : ℕ → List ℕ → Call
  link : List ℕ → Call
  set_state : ℕ → GstState → Call
  get_state : ℕ → Call
  seek : ℕ → ℤ → Call
  query_position query_duration : ℕ → Call
  object_ref_sink object_unref : ℕ → Call
  static_pad request_pad : ℕ → Bytes → Call
  ghost_pad : Bytes → Option ℕ → Call
  add_pad : ℕ → Option ℕ → Call
  no_more_pads : ℕ → Call
  pad_link : Option ℕ → Option ℕ → Call
  pad_unref : Option ℕ → Call
  get_bus create_watch bus_pop : ℕ → Call
  bus_unref : Option ℕ → Call
  message_unref : Option ℕ → Call
  set_callback : ℕ → Call
  source_attach : ℕ → ℕ → Call
  source_destroy source_unref : ℕ → Call
  signal_source : ℕ → Call
  context_new : Call
  context_unref : ℕ → Call
  loop_new : Option ℕ → Call
  loop_run loop_quit loop_unref : ℕ → Call
  gst_init : Call
  rtsp_server_new : Call
  rtsp_set_service : ℕ → Bytes → Call
  rtsp_mount_points : ℕ → Call
  media_factory_new : Call
  set_launch : ℕ → Bytes → Call
  set_shared : ℕ → Call
  -- object, signal, mount
  signal_connect : ℕ → Bytes → Bytes → Call
  add_factory : ℕ → Bytes → ℕ → Call
  rtsp_create_source : ℕ → Call
  media_element : ℕ → Call
  bin_get_by_name : ℕ → Bytes → Call
  pull_sample : ℕ → Call
  buffer_copy : ℕ → Call
  clear_times : ℕ → Call
  src_set_caps : ℕ → ℕ → Call
  push_buffer : ℕ → ℕ → Call
  buffer_unref sample_unref : ℕ → Call
  parse_launch : Bytes → Call
  -- element, pad
  pad_unlink release_pad : Option ℕ → Option ℕ → Call
  add_probe send_eos : Option ℕ → Call
  bin_remove : Option ℕ → Option ℕ → Call
  sync_state end_of_stream : ℕ → Call
  sample_caps : ℕ → Call
  -- the reference held before, the one held now
  caps_replace buffer_replace : Option ℕ → Option ℕ → Call
  app_src_caps : ℕ → Option ℕ → Call
  try_pull_sample pop_error : ℕ → Call
  -- milliseconds, handler
  timeout_add : ℕ → Bytes → Call
  -- The main loop has waited for a timer.
  timer_fired : Call
  rtsp_attach : ℕ → Call
  bus_signal_watch : Option ℕ → Call
  pad_peer pad_parent : ℕ → Call
  loop_ref : ℕ → Call
  -- server, context
  rtsp_attach_to : ℕ → Option ℕ → Call
  -- microseconds
  sleep : ℕ → Call

-- The calls made so far, the last one first.
abbrev pub Trace : Type 0
Trace = List Call

-- `GST_MESSAGE_TYPE`
pub data MessageType : Type 0 where
  error_message warning_message eos_message other_message : MessageType

-- What a call answers, after the calls of the trace: a pointer (`none` is null), whether it
-- succeeded, the state (`none` is a failure), a number (`none` is a failure).
pub record Gst : Type 0 where
  pub pointer : Trace → Call → Option ℕ
  pub succeeds : Trace → Call → Bool
  pub state : Trace → Call → Option GstState
  pub position : Trace → Call → Option ℤ
  -- `g_get_monotonic_time`, in microseconds
  pub clock : Trace → ℕ
  pub message_type : ℕ → MessageType
  -- the texts of the `GError` and of the debug string
  pub message_error : ℕ → Option Bytes
  pub message_debug : ℕ → Option Bytes
