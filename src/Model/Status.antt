-- ===== src/Model/Status.antt =====
-- model/SystemStatus.hpp: `NetworkState`, `SystemStatus` and its JSON.
use camera_platform.Prelude.{
  ℕ, Bool, true, false, arith, if◌then◌else◌, Bytes, codes, List, some, [], ◌∷◌, ◌++◌, append_assoc,
  ◌≡◌, refl,
}
use camera_platform.Prelude.Decimal.{to_string}
use camera_platform.Prelude.Int.{ℤ, pos, int_to_string}
use camera_platform.Model.Json.{json_escape}
use camera_platform.Model.Json.Object.{
  Value, text, raw, IsRaw, to_string-IsRaw, int_to_string-IsRaw, object_text, read_object,
  read_object-object_text,
}

pub data NetworkState : Type 0 where
  unknown down wired wireless : NetworkState

-- `toString(NetworkState)`
unfoldable pub network_name : NetworkState → Bytes
network_name unknown = codes "unknown"
network_name down = codes "down"
network_name wired = codes "wired"
network_name wireless = codes "wireless"

-- A `double` is its 64-bit pattern, so 0 is `0.0`.
pub record SystemStatus : Type 0 where
  pub network : NetworkState
  pub ip_address : Bytes
  pub cpu_percent : ℕ
  pub memory_percent : ℕ
  pub bitrate_kbps : ℕ
  pub dropped_frames : ℕ
  pub camera_connected : Bool
  pub uptime_ms : ℤ

-- The members' default initialisers.
abbrev pub default_status : SystemStatus
default_status = record {
  network = unknown;
  ip_address = [];
  cpu_percent = 0;
  memory_percent = 0;
  bitrate_kbps = 0;
  dropped_frames = 0;
  camera_connected = false;
  uptime_ms = pos 0;
}

-- `toJson(const SystemStatus &)`. How a stream prints a `double` is an argument.
pub status_to_json : (ℕ → Bytes) → SystemStatus → Bytes
status_to_json print_double status =
    codes "{"
    ++ codes "\"network\":\""
    ++ network_name status.network
    ++ codes "\","
    ++ codes "\"ipAddress\":\""
    ++ json_escape status.ip_address
    ++ codes "\","
    ++ codes "\"cpuPercent\":"
    ++ print_double status.cpu_percent
    ++ codes ","
    ++ codes "\"memoryPercent\":"
    ++ print_double status.memory_percent
    ++ codes ","
    ++ codes "\"bitrateKbps\":"
    ++ print_double status.bitrate_kbps
    ++ codes ","
    ++ codes "\"droppedFrames\":"
    ++ to_string status.dropped_frames
    ++ codes ","
    ++ codes "\"cameraConnected\":"
    ++ (if status.camera_connected then codes "true" else codes "false")
    ++ codes ","
    ++ codes "\"uptimeMs\":"
    ++ int_to_string status.uptime_ms
    ++ codes "}"

abbrev bool_name : Bool → Bytes
bool_name b = if b then codes "true" else codes "false"

-- The members behind the first, in the order of the wire.
abbrev pub status_members : (ℕ → Bytes) → SystemStatus → List (Bytes × Value)
status_members print_double status =
    (codes "ipAddress", text status.ip_address)
    ∷ (codes "cpuPercent", raw (print_double status.cpu_percent))
    ∷ (codes "memoryPercent", raw (print_double status.memory_percent))
    ∷ (codes "bitrateKbps", raw (print_double status.bitrate_kbps))
    ∷ (codes "droppedFrames", raw (to_string status.dropped_frames))
    ∷ (codes "cameraConnected", raw (bool_name status.camera_connected))
    ∷ (codes "uptimeMs", raw (int_to_string status.uptime_ms))
    ∷ []

-- The network names hold nothing that JSON escapes.
json_escape-network_name : (n : NetworkState) → json_escape (network_name n) ≡ network_name n
unfolding json_escape network_name
json_escape-network_name unknown = refl
json_escape-network_name down = refl
json_escape-network_name wired = refl
json_escape-network_name wireless = refl

status_to_json-object_text :
    (print_double : ℕ → Bytes) (status : SystemStatus)
    → status_to_json print_double status
      ≡ object_text
          (codes "network", text (network_name status.network))
          (status_members print_double status)
unfolding status_to_json
status_to_json-object_text print_double status =
    rw json_escape-network_name (unfold json_escape in simp append_assoc)

bool_name-IsRaw : (b : Bool) → IsRaw (bool_name b)
bool_name-IsRaw true = omega arith
bool_name-IsRaw false = omega arith

-- A JSON reader finds in the text of the system status exactly the members of the wire format, in
-- order, and leaves what follows the object, if the stream prints a `double` as a token with no quote
-- in front and no comma or brace in it.
pub read_object-status_to_json :
    (print_double : ℕ → Bytes) (status : SystemStatus) (rest : Bytes)
    → ((d : ℕ) → IsRaw (print_double d))
    → read_object (status_to_json print_double status ++ rest)
      ≡ some (
        (codes "network", text (network_name status.network)) ∷ status_members print_double status,
        rest,
      )
read_object-status_to_json print_double status rest h = rw status_to_json-object_text (
    read_object-object_text (codes "network", text (network_name status.network))
      (status_members print_double status) rest tt
      (
        tt,
        (
          h status.cpu_percent,
          (
            h status.memory_percent,
            (
              h status.bitrate_kbps,
              (
                to_string-IsRaw status.dropped_frames,
                (
                  bool_name-IsRaw status.camera_connected,
                  (int_to_string-IsRaw status.uptime_ms, tt),
                ),
              ),
            ),
          ),
        ),
      ))
