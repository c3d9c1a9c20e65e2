-- ===== src/CameraControl/Served.antt =====
-- The fake of tests/web/test_apicontroller.cpp against `Application`, as clients of web/CameraControl.hpp
-- see them, each from the state in which it is constructed.
use camera_platform.Prelude.{
  Bool, true, not, ◌||◌, ◌&&◌, codes, equal, List, [], ◌∷◌, map, ◌≡◌, refl, sym, ap, ◌∙◌, arith,
}
use camera_platform.Prelude.Map.{lookup}
use camera_platform.Gst.{Trace}
use camera_platform.Server.Host.Control.Catalog.{known, state_of, state_for}
use camera_platform.Server.Application
use camera_platform.Server.Application.{Application, new_application, default_catalog, profiles}
use camera_platform.Server.Application.Switches.{
  Switch, switch_all, wanted, switch_all-new_application, known-default_catalog, state_of-reported,
}
use camera_platform.Server.Application.Controlled.{Running, application_control}
use camera_platform.CameraControl.Client.{ask_all, ask_all-known}
use camera_platform.CameraControl.Fake.{
  FakeControl, fake_control, is_enabled, known-profiles, set_profile_enabled,
  is_enabled-set_profile_enabled, state_of-profiles,
}

-- No call names one of the two profiles that the fake leaves out.
abbrev pub is_shared : List Switch → Bool
is_shared [] = true
is_shared ((name, enabled) ∷ xs) =
    not (equal (codes "sd") name || equal (codes "thumb") name) && is_shared xs

ask_all-switch_all :
    (xs : List Switch) (a : Application) (t : Trace)
    → let r = switch_all xs a t in ask_all application_control xs (a, t) ≡ (r.0, (r.1, r.2))
unfolding ask_all switch_all
ask_all-switch_all [] a t = refl
ask_all-switch_all ((name, enabled) ∷ xs) a t =
    let r = Application.set_profile_enabled name enabled a t in
    ap (λ (o : List Bool × Running). (r.0 ∷ o.0, o.1)) (ask_all-switch_all xs r.1 r.2)

-- What the fake has recorded for the name hd
is_enabled-ask_all :
    (xs : List Switch) (m : FakeControl)
    → is_enabled (codes "hd") (ask_all fake_control xs m).1
      ≡ wanted (is_enabled (codes "hd") m) (codes "hd") xs
unfolding ask_all
is_enabled-ask_all [] m = refl
is_enabled-ask_all ((name, enabled) ∷ xs) m =
    is_enabled-ask_all xs (set_profile_enabled name enabled m).1
    ∙ ap (λ b. wanted b (codes "hd") xs) (is_enabled-set_profile_enabled name enabled m)

-- The names that the two catalogs share are answered alike.
answers-agree :
    (xs : List Switch)
    → is_shared xs ≡ true
    → map (λ (x : Switch). known x.0 default_catalog) xs
      ≡ map (λ (x : Switch). equal (codes "hd") x.0 || equal (codes "low") x.0) xs
answers-agree [] h = refl
answers-agree ((name, enabled) ∷ xs) h =
    rw (known-default_catalog name) (ground (arith, answers-agree xs, h))

-- Each from the state in which it is constructed, the fake that stands in for the application in the tests
-- of the API answers any calls of setProfileEnabled as the application does, and reports hd in the same
-- state after them, if none of them names sd or thumb, which the fake leaves out.
pub ask_all-fake_control :
    (xs : List Switch)
    → is_shared xs ≡ true
    → let a = ask_all application_control xs (new_application, []) in
      let f = ask_all fake_control xs [] in
      (a.0 ≡ f.0)
      × (state_of (codes "hd") (application_control.profiles a.1)
          ≡ state_of (codes "hd") (fake_control.profiles f.1))
unfolding lookup
ask_all-fake_control xs h =
    let same = ask_all-switch_all xs new_application [] in
    let view = switch_all-new_application xs [] in
    let f = ask_all fake_control xs [] in
    (
      ap (λ (o : List Bool × Running). o.0) same
          ∙ view.0
          ∙ answers-agree xs h
          ∙ sym (
              ask_all-known fake_control xs
                (λ name. equal (codes "hd") name || equal (codes "low") name) []
                (λ name. known-profiles name [])),
      ap (λ (o : List Bool × Running). state_of (codes "hd") (application_control.profiles o.1))
            same
          ∙ ap (state_of (codes "hd")) view.1
          ∙ state_of-reported xs
          ∙ ap state_for (sym (is_enabled-ask_all xs []))
          ∙ sym (state_of-profiles f.1),
    )
