-- ===== src/Gst/Plain.antt =====
-- Two GStreamers for tests: one in which every call succeeds, and one without a capsfilter.
use camera_platform.Prelude.{ℕ, true, codes, equal, if◌then◌else◌, Option, none, some}
use camera_platform.Gst.{Gst, Call, factory_make, playing, other_message}

abbrev pub plain_gst : Gst
plain_gst = record {
  pointer = λ _ _. some 1;
  succeeds = λ _ _. true;
  state = λ _ _. some playing;
  position = λ _ _. none;
  clock = λ _. 0;
  message_type = λ _. other_message;
  message_error = λ _. none;
  message_debug = λ _. none;
}

abbrev pub no_filter : Call → Option ℕ
no_filter (factory_make element name) = if equal element (codes "capsfilter") then none else some 5
no_filter c = some 5

abbrev pub poor_gst : Gst
poor_gst = record plain_gst { pointer = λ _. no_filter }
