-- ===== src/CameraControl/Client.antt =====
-- What a client sees of any implementation of web/CameraControl.hpp.
use camera_platform.Prelude.{Bool, Bytes, List, [], ◌∷◌, map, ◌≡◌, refl}
use camera_platform.Server.Host.Control.Catalog.{known}
use camera_platform.Server.Application.Switches.{Switch}
use camera_platform.CameraControl.{CameraControl}

module _ {S : Type 0} (c : CameraControl S) where
  open c use {profiles, set_profile_enabled, answers_known, names_kept}

  -- The calls in order, and what they answer
  unfoldable pub ask_all : List Switch → S → List Bool × S
  ask_all [] s = ([], s)
  ask_all ((name, enabled) ∷ xs) s =
      let r = set_profile_enabled name enabled s in
      let rest = ask_all xs r.1 in (r.0 ∷ rest.0, rest.1)

  -- The answers say which names the catalog had at first.
  pub ask_all-known :
      (xs : List Switch) (has : Bytes → Bool) (s : S)
      → ((name : Bytes) → known name (profiles s) ≡ has name)
      → (ask_all xs s).0 ≡ map (λ (x : Switch). has x.0) xs
  unfolding ask_all
  ask_all-known [] has s same = refl
  ask_all-known ((name, enabled) ∷ xs) has s same =
      let r = set_profile_enabled name enabled s in
      rw (
        answers_known name enabled s,
        same name,
        ask_all-known xs has r.1 (λ other. rw (names_kept other name enabled s) (same other)),
      )
