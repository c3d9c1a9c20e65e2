-- ===== src/Model/Profile/Wire.antt =====
-- What a client reads from the JSON of a profile.
use camera_platform.Prelude.{ℕ, Bytes, codes, List, some, [], ◌∷◌, ◌++◌, append_assoc, ◌≡◌}
use camera_platform.Prelude.Decimal.{to_string}
use camera_platform.Model.Json.{json_escape}
use camera_platform.Model.Json.Object.{
  Value, text, raw, IsRaw, to_string-IsRaw, object_text, read_object, read_object-object_text,
}
use camera_platform.Model.Profile.{ProfileInfo, profile_to_json}

-- The members of the object, in the order of the wire.
abbrev pub profile_members : (ℕ → Bytes) → ProfileInfo → List (Bytes × Value)
profile_members print_double info =
    (codes "width", raw (to_string info.width))
    ∷ (codes "height", raw (to_string info.height))
    ∷ (codes "fps", raw (to_string info.fps))
    ∷ (codes "bitrateKbps", raw (to_string info.bitrate_kbps))
    ∷ (codes "state", text info.state)
    ∷ (codes "url", text info.url)
    ∷ (codes "viewers", raw (to_string info.viewers))
    ∷ (codes "cpuPercent", raw (print_double info.cpu_percent))
    ∷ (codes "lastError", text info.last_error)
    ∷ []

profile_to_json-object_text :
    (print_double : ℕ → Bytes) (info : ProfileInfo)
    → profile_to_json print_double info
      ≡ object_text (codes "name", text info.name) (profile_members print_double info)
unfolding profile_to_json json_escape
profile_to_json-object_text print_double info = simp append_assoc

-- A JSON reader finds in the text of a profile exactly the members of the wire format, in order, with
-- the strings as they are in the record whatever bytes they hold, and leaves what follows the object,
-- if the stream prints a `double` as a token with no quote in front and no comma or brace in it.
pub read_object-profile_to_json :
    (print_double : ℕ → Bytes) (info : ProfileInfo) (rest : Bytes)
    → ((d : ℕ) → IsRaw (print_double d))
    → read_object (profile_to_json print_double info ++ rest)
      ≡ some ((codes "name", text info.name) ∷ profile_members print_double info, rest)
read_object-profile_to_json print_double info rest h = rw profile_to_json-object_text (
    read_object-object_text (codes "name", text info.name) (profile_members print_double info) rest
      tt
      (
        to_string-IsRaw info.width,
        (
          to_string-IsRaw info.height,
          (
            to_string-IsRaw info.fps,
            (
              to_string-IsRaw info.bitrate_kbps,
              (tt, (tt, (to_string-IsRaw info.viewers, (h info.cpu_percent, (tt, tt))))),
            ),
          ),
        ),
      ))
