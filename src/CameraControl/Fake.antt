-- ===== src/CameraControl/Fake.antt =====
-- The fake of tests/web/test_apicontroller.cpp as an implementation of web/CameraControl.hpp.
use camera_platform.Prelude.{
  Bool, true, false, ◌||◌, Bool-cases, inl, inr, Bytes, codes, equal, equal_iff, Option, none, some,
  List, [], ◌∷◌, ◌≡◌, refl, arith, if◌then◌else◌,
}
use camera_platform.Prelude.Map.{StringMap, insert, lookup, lookup-insert}
use camera_platform.Protocol.{
  rtsp_url_for, rtsp_port, loopback, state_ready, state_off, state_error,
}
use camera_platform.Model.Profile.{ProfileInfo, default_profile}
use camera_platform.Model.Status.{SystemStatus, default_status, wireless}
use camera_platform.Server.Host.Control.Catalog.{known, state_of, state_for}
use camera_platform.CameraControl.{CameraControl}

-- `m_enabled`
abbrev pub FakeControl : Type 0
FakeControl = StringMap Bool

abbrev pub or_false : Option Bool → Bool
or_false none = false
or_false (some enabled) = enabled

-- `enabled`: whether the map has the name, with `true`
abbrev pub is_enabled : Bytes → FakeControl → Bool
is_enabled name m = or_false (lookup name m)

pub system_status : FakeControl → SystemStatus
system_status m = record default_status { network = wireless; ip_address = codes "192.168.1.20" }

hd_profile : FakeControl → ProfileInfo
unfolding rtsp_url_for
hd_profile m = record default_profile {
  name = codes "hd";
  width = 1920;
  height = 1080;
  fps = 30;
  bitrate_kbps = 4000;
  url = rtsp_url_for rtsp_port (codes "/hd") loopback;
  state = if is_enabled (codes "hd") m then state_ready else state_off;
}

low_profile : ProfileInfo
unfolding rtsp_url_for
low_profile = record default_profile {
  name = codes "low";
  width = 854;
  height = 480;
  fps = 30;
  bitrate_kbps = 800;
  url = rtsp_url_for rtsp_port (codes "/low") loopback;
  state = state_error;
  last_error = codes "simulated branch failure";
}

pub profiles : FakeControl → List ProfileInfo
unfolding hd_profile low_profile
profiles m = hd_profile m ∷ low_profile ∷ []

pub set_profile_enabled : Bytes → Bool → FakeControl → Bool × FakeControl
set_profile_enabled name enabled m =
    if equal (codes "hd") name || equal (codes "low") name
    then (true, insert name enabled m)
    else (false, m)

-- Its catalog has two names, whatever was switched.
pub known-profiles :
    (name : Bytes) (m : FakeControl)
    → known name (profiles m) ≡ equal (codes "hd") name || equal (codes "low") name
unfolding profiles hd_profile low_profile
known-profiles name m = ground arith

pub answer_lem :
    (name : Bytes) (enabled : Bool) (m : FakeControl)
    → (set_profile_enabled name enabled m).0 ≡ known name (profiles m)
unfolding set_profile_enabled
answer_lem name enabled m = rw (known-profiles name m) (ground arith)

pub unknown_lem :
    (name : Bytes) (enabled : Bool) (m : FakeControl)
    → known name (profiles m) ≡ false
    → (set_profile_enabled name enabled m).1 ≡ m
unfolding set_profile_enabled
unknown_lem name enabled m h = rw (rw (known-profiles name m) at h)

pub kept_lem :
    (other name : Bytes) (enabled : Bool) (m : FakeControl)
    → known other (profiles (set_profile_enabled name enabled m).1) ≡ known other (profiles m)
kept_lem other name enabled m =
    rw (known-profiles other m, known-profiles other (set_profile_enabled name enabled m).1)

lookup-insert-insert :
    (key name : Bytes) (enabled : Bool) (m : FakeControl)
    → lookup key (insert name enabled (insert name enabled m)) ≡ lookup key (insert name enabled m)
lookup-insert-insert key name enabled m = elim (Bool-cases (equal name key)) [
  | inl e ↦
      rw (
        lookup-insert name key enabled (insert name enabled m),
        lookup-insert name key enabled m,
        e,
      )
  | inr e ↦
      rw (
        lookup-insert name key enabled (insert name enabled m),
        lookup-insert name key enabled m,
        e,
      )
]

profiles-insert :
    (name : Bytes) (enabled : Bool) (m : FakeControl)
    → profiles (insert name enabled (insert name enabled m)) ≡ profiles (insert name enabled m)
unfolding profiles hd_profile
profiles-insert name enabled m = rw (lookup-insert-insert (codes "hd") name enabled m)

pub repeated_lem :
    (name : Bytes) (enabled : Bool) (m : FakeControl)
    → profiles (set_profile_enabled name enabled (set_profile_enabled name enabled m).1).1
      ≡ profiles (set_profile_enabled name enabled m).1
unfolding set_profile_enabled
repeated_lem name enabled m =
    elim (Bool-cases (equal (codes "hd") name || equal (codes "low") name)) [
      | inl e ↦ rw e (profiles-insert name enabled m)
      | inr e ↦ rw e
    ]

abbrev pub fake_control : CameraControl FakeControl
fake_control = record {
  system_status = system_status;
  profiles = profiles;
  set_profile_enabled = set_profile_enabled;
  answers_known = answer_lem;
  unknown_unchanged = unknown_lem;
  repeated_unchanged = repeated_lem;
  names_kept = kept_lem;
}

-- The state that the fake reports for hd is the one that was asked for last.
pub state_of-profiles :
    (m : FakeControl) → state_of (codes "hd") (profiles m) ≡ state_for (is_enabled (codes "hd") m)
unfolding profiles hd_profile
state_of-profiles m = refl

pub is_enabled-set_profile_enabled :
    (name : Bytes) (enabled : Bool) (m : FakeControl)
    → is_enabled (codes "hd") (set_profile_enabled name enabled m).1
      ≡ (if equal (codes "hd") name then enabled else is_enabled (codes "hd") m)
unfolding set_profile_enabled
is_enabled-set_profile_enabled name enabled m = ground (
  arith,
  equal_iff (codes "hd") name,
  equal_iff name (codes "hd"),
  lookup-insert name (codes "hd") enabled m,
)
