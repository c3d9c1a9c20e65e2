-- ===== src/Protocol.antt =====
-- common/Protocol.hpp: ports, paths and state names of the control and the media plane.
pub mod Routes
mod Tests
use camera_platform.Prelude.{ℕ, Bytes, codes, [], ◌∷◌, ◌++◌}
use camera_platform.Prelude.Decimal.{to_string}

abbrev pub control_port : ℕ
control_port = 8080

abbrev pub rtsp_port : ℕ
rtsp_port = 8554

abbrev pub rtsp_scheme : Bytes
rtsp_scheme = codes "rtsp"

abbrev pub loopback : Bytes
loopback = codes "127.0.0.1"

-- `rtspUrlFor`
unfoldable pub rtsp_url_for : ℕ → Bytes → Bytes → Bytes
rtsp_url_for port mount host =
    rtsp_scheme ++ codes "://" ++ host ++ codes ":" ++ to_string port ++ codes "/" ++ mount

abbrev pub api_profiles : Bytes
api_profiles = codes "/api/profiles"

abbrev pub action_on : Bytes
action_on = codes "/on"

abbrev pub action_off : Bytes
action_off = codes "/off"

-- `profileActionPath`
pub profile_action_path : Bytes → Bytes → Bytes
profile_action_path name action = api_profiles ++ codes "/" ++ name ++ action

abbrev pub state_off : Bytes
state_off = codes "off"

abbrev pub state_ready : Bytes
state_ready = codes "ready"

abbrev pub state_live : Bytes
state_live = codes "live"

abbrev pub state_error : Bytes
state_error = codes "error"
