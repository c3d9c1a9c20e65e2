-- ===== src/CameraControl/Tests.antt =====
-- The application and the fake over some calls.
use camera_platform.Prelude.{true, false, codes, List, [], ◌∷◌, ◌≡◌, refl}
use camera_platform.Server.Host.Control.Catalog.{state_of}
use camera_platform.Server.Application.{new_application}
use camera_platform.Server.Application.Switches.{Switch}
use camera_platform.Server.Application.Controlled.{application_control}
use camera_platform.CameraControl.Client.{ask_all}
use camera_platform.CameraControl.Fake.{fake_control}
use camera_platform.CameraControl.Served.{ask_all-fake_control}

abbrev some_switches : List Switch
some_switches = (codes "hd", true) ∷ (codes "4k", true) ∷ (codes "low", false) ∷ []

ask_all-fake_control_example :
    let a = ask_all application_control some_switches (new_application, []) in
    let f = ask_all fake_control some_switches [] in
    (a.0 ≡ f.0)
    × (state_of (codes "hd") (application_control.profiles a.1)
        ≡ state_of (codes "hd") (fake_control.profiles f.1))
ask_all-fake_control_example = ask_all-fake_control some_switches refl
