-- ===== src/Model/Tests.antt =====
-- The JSON of the value types at concrete records.
use camera_platform.Model.Json.Bounds.{Escaped, json_escape-Escaped}
use camera_platform.Prelude.{Bytes, codes, some, [], ◌∷◌, ◌++◌, ◌≡◌}
use camera_platform.Prelude.Decimal.{to_string}
use camera_platform.Model.Json.{quote, json_escape}
use camera_platform.Model.Json.RoundTrip.{read_literal, read_literal-json_escape}
use camera_platform.Model.Json.Object.{read_object, text, to_string-IsRaw}
use camera_platform.Model.Profile.{ProfileInfo, default_profile, profile_to_json}
use camera_platform.Model.Profile.Wire.{profile_members, read_object-profile_to_json}
use camera_platform.Model.Status.{
  network_name, default_status, status_to_json, status_members, read_object-status_to_json,
}

abbrev hostile : Bytes
hostile = codes "a\",\"b\\\n"

read_literal-json_escape_example :
    read_literal (json_escape hostile ++ quote ∷ codes "}") ≡ some (hostile, codes "}")
read_literal-json_escape_example = read_literal-json_escape hostile (codes "}")

abbrev broken : ProfileInfo
broken = record default_profile { name = hostile; width = 1920; last_error = hostile }

-- A stream that prints every pattern as its number.
read_object-profile_to_json_example :
    read_object (profile_to_json to_string broken ++ codes "]")
    ≡ some ((codes "name", text hostile) ∷ profile_members to_string broken, codes "]")
read_object-profile_to_json_example =
    read_object-profile_to_json to_string broken (codes "]") to_string-IsRaw

read_object-status_to_json_example :
    read_object (status_to_json to_string default_status ++ [])
    ≡ some (
      (codes "network", text (network_name default_status.network))
          ∷ status_members to_string default_status,
      [],
    )
read_object-status_to_json_example =
    read_object-status_to_json to_string default_status [] to_string-IsRaw

json_escape-Escaped_example : Escaped (codes "a\"b\n") (json_escape (codes "a\"b\n"))
json_escape-Escaped_example = json_escape-Escaped (codes "a\"b\n")
