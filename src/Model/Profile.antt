-- ===== src/Model/Profile.antt =====
-- model/Profile.hpp: `ProfileInfo` and its JSON.
pub mod Wire
use camera_platform.Prelude.{ℕ, Bytes, codes, [], ◌∷◌, ◌++◌}
use camera_platform.Prelude.Decimal.{to_string}
use camera_platform.Protocol.{state_off}
use camera_platform.Model.Json.{json_escape}

-- `std::uint32_t` fields are numbers. A `double` is its 64-bit pattern, so 0 is `0.0`.
pub record ProfileInfo : Type 0 where
  pub name : Bytes
  pub width : ℕ
  pub height : ℕ
  pub fps : ℕ
  pub bitrate_kbps : ℕ
  pub state : Bytes
  pub url : Bytes
  pub viewers : ℕ
  pub cpu_percent : ℕ
  pub last_error : Bytes

-- The members' default initialisers.
abbrev pub default_profile : ProfileInfo
default_profile = record {
  name = [];
  width = 0;
  height = 0;
  fps = 30;
  bitrate_kbps = 0;
  state = state_off;
  url = [];
  viewers = 0;
  cpu_percent = 0;
  last_error = [];
}

-- `toJson(const ProfileInfo &)`. How a stream prints a `double` is an argument.
pub profile_to_json : (ℕ → Bytes) → ProfileInfo → Bytes
profile_to_json print_double info =
    codes "{"
    ++ codes "\"name\":\""
    ++ json_escape info.name
    ++ codes "\","
    ++ codes "\"width\":"
    ++ to_string info.width
    ++ codes ","
    ++ codes "\"height\":"
    ++ to_string info.height
    ++ codes ","
    ++ codes "\"fps\":"
    ++ to_string info.fps
    ++ codes ","
    ++ codes "\"bitrateKbps\":"
    ++ to_string info.bitrate_kbps
    ++ codes ","
    ++ codes "\"state\":\""
    ++ json_escape info.state
    ++ codes "\","
    ++ codes "\"url\":\""
    ++ json_escape info.url
    ++ codes "\","
    ++ codes "\"viewers\":"
    ++ to_string info.viewers
    ++ codes ","
    ++ codes "\"cpuPercent\":"
    ++ print_double info.cpu_percent
    ++ codes ","
    ++ codes "\"lastError\":\""
    ++ json_escape info.last_error
    ++ codes "\""
    ++ codes "}"
