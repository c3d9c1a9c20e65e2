-- ===== src/CameraControl.antt =====
-- web/CameraControl.hpp: what the control plane may do to the server, with the contract that the header
-- states for every implementation.
pub mod Client
pub mod Fake
pub mod Served
mod Tests
use camera_platform.Prelude.{Bool, false, Bytes, List, ◌≡◌}
use camera_platform.Model.Profile.{ProfileInfo}
use camera_platform.Model.Status.{SystemStatus}
use camera_platform.Server.Host.Control.Catalog.{known}

-- An implementation whose objects are of the type `S`. `false` says that the profile is unknown, and
-- nothing has changed then; a call that is repeated changes nothing; and the catalog keeps its names.
pub record CameraControl (S : Type 0) : Type 0 where
  pub system_status : S → SystemStatus
  pub profiles : S → List ProfileInfo
  pub set_profile_enabled : Bytes → Bool → S → Bool × S
  pub answers_known :
      (name : Bytes) (enabled : Bool) (s : S)
      → (set_profile_enabled name enabled s).0 ≡ known name (profiles s)
  pub unknown_unchanged :
      (name : Bytes) (enabled : Bool) (s : S)
      → known name (profiles s) ≡ false
      → (set_profile_enabled name enabled s).1 ≡ s
  pub repeated_unchanged :
      (name : Bytes) (enabled : Bool) (s : S)
      → profiles (set_profile_enabled name enabled (set_profile_enabled name enabled s).1).1
        ≡ profiles (set_profile_enabled name enabled s).1
  pub names_kept :
      (other name : Bytes) (enabled : Bool) (s : S)
      → known other (profiles (set_profile_enabled name enabled s).1) ≡ known other (profiles s)
