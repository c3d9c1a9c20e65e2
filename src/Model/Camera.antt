-- ===== src/Model/Camera.antt =====
-- model/CameraState.hpp: `CameraStatus`, `CameraState` and its JSON.
use camera_platform.Prelude.{ℕ, Bytes, codes, List, some, [], ◌∷◌, ◌++◌, append_assoc, ◌≡◌, refl}
use camera_platform.Prelude.Decimal.{to_string}
use camera_platform.Prelude.Int.{ℤ, pos, int_to_string}
use camera_platform.Model.Json.{json_escape}
use camera_platform.Model.Json.Object.{
  Value, text, raw, to_string-IsRaw, int_to_string-IsRaw, object_text, read_object,
  read_object-object_text,
}

pub data CameraStatus : Type 0 where
  idle starting streaming paused error : CameraStatus

-- `toString(CameraStatus)`
unfoldable pub camera_status_name : CameraStatus → Bytes
camera_status_name idle = codes "idle"
camera_status_name starting = codes "starting"
camera_status_name streaming = codes "streaming"
camera_status_name paused = codes "paused"
camera_status_name error = codes "error"

pub record CameraState : Type 0 where
  pub status : CameraStatus
  pub source_name : Bytes
  pub width : ℕ
  pub height : ℕ
  pub fps_num : ℕ
  pub fps_denom : ℕ
  pub pixel_format : Bytes
  pub uptime_ms : ℤ
  pub last_error : Bytes

-- The members' default initialisers.
abbrev pub default_camera : CameraState
default_camera = record {
  status = idle;
  source_name = codes "videotestsrc";
  width = 640;
  height = 480;
  fps_num = 30;
  fps_denom = 1;
  pixel_format = codes "I420";
  uptime_ms = pos 0;
  last_error = [];
}

-- `toJson(const CameraState &)`
pub camera_to_json : CameraState → Bytes
camera_to_json state =
    codes "{"
    ++ codes "\"status\":\""
    ++ camera_status_name state.status
    ++ codes "\","
    ++ codes "\"sourceName\":\""
    ++ json_escape state.source_name
    ++ codes "\","
    ++ codes "\"width\":"
    ++ to_string state.width
    ++ codes ","
    ++ codes "\"height\":"
    ++ to_string state.height
    ++ codes ","
    ++ codes "\"fpsNum\":"
    ++ to_string state.fps_num
    ++ codes ","
    ++ codes "\"fpsDenom\":"
    ++ to_string state.fps_denom
    ++ codes ","
    ++ codes "\"pixelFormat\":\""
    ++ json_escape state.pixel_format
    ++ codes "\","
    ++ codes "\"uptimeMs\":"
    ++ int_to_string state.uptime_ms
    ++ codes ","
    ++ codes "\"lastError\":\""
    ++ json_escape state.last_error
    ++ codes "\""
    ++ codes "}"

-- The members behind the first, in the order of the wire.
abbrev pub camera_members : CameraState → List (Bytes × Value)
camera_members state =
    (codes "sourceName", text state.source_name)
    ∷ (codes "width", raw (to_string state.width))
    ∷ (codes "height", raw (to_string state.height))
    ∷ (codes "fpsNum", raw (to_string state.fps_num))
    ∷ (codes "fpsDenom", raw (to_string state.fps_denom))
    ∷ (codes "pixelFormat", text state.pixel_format)
    ∷ (codes "uptimeMs", raw (int_to_string state.uptime_ms))
    ∷ (codes "lastError", text state.last_error)
    ∷ []

-- The status names hold nothing that JSON escapes.
json_escape-camera_status_name :
    (s : CameraStatus) → json_escape (camera_status_name s) ≡ camera_status_name s
unfolding json_escape camera_status_name
json_escape-camera_status_name idle = refl
json_escape-camera_status_name starting = refl
json_escape-camera_status_name streaming = refl
json_escape-camera_status_name paused = refl
json_escape-camera_status_name error = refl

camera_to_json-object_text :
    (state : CameraState)
    → camera_to_json state
      ≡ object_text (codes "status", text (camera_status_name state.status)) (camera_members state)
unfolding camera_to_json
camera_to_json-object_text state =
    rw json_escape-camera_status_name (unfold json_escape in simp append_assoc)

-- A JSON reader finds in the text of a camera state exactly the members of the wire format, in order,
-- with the strings as they are in the record whatever bytes they hold, and leaves what follows.
read_object-camera_to_json :
    (state : CameraState) (rest : Bytes)
    → read_object (camera_to_json state ++ rest)
      ≡ some ((codes "status", text (camera_status_name state.status)) ∷ camera_members state, rest)
read_object-camera_to_json state rest = rw camera_to_json-object_text (
    read_object-object_text (codes "status", text (camera_status_name state.status))
      (camera_members state) rest tt
      (
        tt,
        (
          to_string-IsRaw state.width,
          (
            to_string-IsRaw state.height,
            (
              to_string-IsRaw state.fps_num,
              (
                to_string-IsRaw state.fps_denom,
                (tt, (int_to_string-IsRaw state.uptime_ms, (tt, tt))),
              ),
            ),
          ),
        ),
      ))
