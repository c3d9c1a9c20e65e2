-- ===== src/Server/Tests.antt =====
-- The control plane at concrete catalogs.
use camera_platform.Prelude.{none, some, true, false, codes, List, [], ◌∷◌, map, ◌≡◌, refl}
use camera_platform.Model.Profile.{default_profile}
use camera_platform.Gst.Elements.{Account}
use camera_platform.Gst.Observe.{one_if_some}
use camera_platform.Gst.Plain.{plain_gst, poor_gst}
use camera_platform.Server.Bin.{ProfileBin, new_bin, create_element, create_parts, make, all_made}
use camera_platform.Server.Bin.Losses.{left_behind, create_element-made}
use camera_platform.Server.Bin.Valve.{IsOpen, create_element-IsOpen}
use camera_platform.Server.Rtsp.{Mount, on_new_sample, new_server}
use camera_platform.Server.Rtsp.Mounts.{entry, expected, paths, published, new_server-mounts}
use camera_platform.Server.Rtsp.Relay.{Relayed, on_new_sample-Relayed}
use camera_platform.Server.Host.{ProfileHost, new_host}
use camera_platform.Server.Host.Control.{profiles}
use camera_platform.Server.Host.Control.Catalog.{known, Outcome, set_profile_enabled_lem}
use camera_platform.Server.Application
use camera_platform.Server.Application.{default_catalog, new_application}
use camera_platform.Server.Application.Switches.{
  Switch, switch_all, reported, switch_all-new_application,
}

abbrev small : ProfileHost
small = new_host (
    record default_profile { name = codes "hd" }
    ∷ record default_profile { name = codes "sd" }
    ∷ [])

set_profile_enabled_lem_example : Outcome (codes "sd") true small []
set_profile_enabled_lem_example = set_profile_enabled_lem (codes "sd") true small []

abbrev switches : List Switch
switches = (codes "hd", true) ∷ (codes "sd", true) ∷ (codes "uhd", true) ∷ (codes "hd", false) ∷ []

switch_all-new_application_example :
    ((switch_all switches new_application []).0
      ≡ map (λ (c : Switch). known c.0 default_catalog) switches)
    × (Application.profiles (switch_all switches new_application []).1
        ≡ map (reported switches) default_catalog)
switch_all-new_application_example = switch_all-new_application switches []

abbrev thumb : ProfileBin
thumb = new_bin (record default_profile { name = codes "thumb" })

three_left : left_behind poor_gst thumb [] ≡ 3
unfolding left_behind create_parts make all_made
three_left = refl

create_element-made_example :
    let r = create_element poor_gst thumb [] in
    Account poor_gst (left_behind poor_gst thumb []) 0 [] (one_if_some r.0) r.2
create_element-made_example = create_element-made poor_gst thumb []

create_element-IsOpen_example :
    IsOpen (create_element plain_gst thumb []).1.valve (create_element plain_gst thumb []).2
create_element-IsOpen_example = create_element-IsOpen plain_gst thumb []

abbrev mount : Mount
mount = record { name = codes "thumb"; app_sink = some 7; app_src = some 8; factory = none }

on_new_sample-Relayed_example : Relayed plain_gst 7 mount [] (on_new_sample plain_gst 7 mount [])
on_new_sample-Relayed_example = on_new_sample-Relayed plain_gst 7 mount []

new_server-mounts_example :
    (map entry (new_server plain_gst small 8554 []).0.mounts
      ≡ map (expected small) (profiles small))
    × (paths (new_server plain_gst small 8554 []).1 ≡ published (profiles small) (paths []))
new_server-mounts_example = new_server-mounts plain_gst small 8554 [] (λ t c. refl)
