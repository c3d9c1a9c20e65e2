-- ===== src/Server/Application/Controlled.antt =====
-- `Application` of server/Application.cpp as an implementation of web/CameraControl.hpp.
use camera_platform.Prelude.{Bool, false, Bool-cases, inl, inr, Bytes, ◌≡◌, if◌then◌else◌}
use camera_platform.Gst.{Trace}
use camera_platform.CameraControl.{CameraControl}
use camera_platform.Server.Host.Control.Catalog.{
  known, with_state, state_for, set_profile_enabled_lem, set_profile_enabled_last,
  set_profile_enabled_unknown, known-with_state,
}
use camera_platform.Server.Application.{Application, system_status, profiles, set_profile_enabled}

-- An application with the calls made so far
abbrev pub Running : Type 0
Running = Application × Trace

abbrev pub switch : Bytes → Bool → Running → Bool × Running
switch name enabled (a, t) = let r = set_profile_enabled name enabled a t in (r.0, (r.1, r.2))

pub switch-Outcome :
    (name : Bytes) (enabled : Bool) (r : Running)
    → ((switch name enabled r).0 ≡ known name (profiles r.0))
      × (profiles (switch name enabled r).1.0 ≡ (
          if known name (profiles r.0)
          then with_state name (state_for enabled) (profiles r.0)
          else profiles r.0))
unfolding set_profile_enabled profiles
switch-Outcome name enabled (a, t) = set_profile_enabled_lem name enabled a.host t

pub switch-unknown :
    (name : Bytes) (enabled : Bool) (r : Running)
    → known name (profiles r.0) ≡ false
    → (switch name enabled r).1 ≡ r
unfolding set_profile_enabled profiles
switch-unknown name enabled (a, t) h = rw (set_profile_enabled_unknown name enabled a.host t h)

pub switch-switch :
    (name : Bytes) (enabled : Bool) (r : Running)
    → profiles (switch name enabled (switch name enabled r).1).1.0
      ≡ profiles (switch name enabled r).1.0
unfolding set_profile_enabled profiles
switch-switch name enabled (a, t) = (set_profile_enabled_last name enabled enabled a.host t t).0

pub known-switch :
    (other name : Bytes) (enabled : Bool) (r : Running)
    → known other (profiles (switch name enabled r).1.0) ≡ known other (profiles r.0)
known-switch other name enabled r =
    let o = switch-Outcome name enabled r in
    elim (Bool-cases (known name (profiles r.0))) [
      | inl k ↦ rw (o.1, k, known-with_state)
      | inr k ↦ rw (o.1, k)
    ]

-- The contract of the interface holds of the application.
abbrev pub application_control : CameraControl Running
application_control = record {
  system_status = λ r. system_status r.0;
  profiles = λ r. profiles r.0;
  set_profile_enabled = switch;
  answers_known = λ name enabled r. (switch-Outcome name enabled r).0;
  unknown_unchanged = switch-unknown;
  repeated_unchanged = switch-switch;
  names_kept = known-switch;
}
