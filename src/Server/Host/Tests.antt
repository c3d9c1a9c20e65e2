-- ===== src/Server/Host/Tests.antt =====
-- The set-up of a host with one branch, where every call succeeds.
use camera_platform.Prelude.{codes, some, [], ◌∷◌, refl}
use camera_platform.Model.Profile.{ProfileInfo, default_profile}
use camera_platform.Gst.Effects.{branch}
use camera_platform.Gst.Plain.{plain_gst}
use camera_platform.Video.Values.{test_source}
use camera_platform.Server.Host.{
  ProfileHost, new_host, setup_pipeline, with_source, build, create_elements, all_made, link_source,
}
use camera_platform.Server.Host.Whole.{IsWhole}
use camera_platform.Server.Host.Stuck.{setup_pipeline_stuck}
use camera_platform.Gst.{Gst, Trace, Call, object_get}
use camera_platform.Server.Host.Operations.Sources.{operate_all-HostHeld}
use camera_platform.Server.Host.Control.Sources.{HostHeld}
use camera_platform.Gst.Observe.{event_source, last_drop}
use camera_platform.Server.Bin.{new_bin}
use camera_platform.Server.Host.Operations.{
  Operation, operate_all, sets_source, sets_up, plays, stops, message, switches, attaches,
  operate_all-new_host,
}
use camera_platform.Server.Host.Control.{set_profile_enabled, profile_enabled}
use camera_platform.Server.Host.Control.Valves.{set_profile_enabled-profile_enabled}
use camera_platform.Prelude.{ℕ, List, Bool, Option, none, true, false, ◌≡◌, ◌≢◌, ap}
use camera_platform.Video.Values.{failure}

abbrev one_branch : ProfileHost
unfolding new_host
one_branch = record (new_host (record default_profile { name = codes "hd" } ∷ [])) {
  video_source = some test_source;
}

abbrev a_use : List Operation
a_use =
    sets_source (some test_source)
    ∷ sets_up
    ∷ attaches (some 3) (some 4)
    ∷ plays
    ∷ switches (codes "hd") false
    ∷ message
    ∷ attaches (some 3) (some 5)
    ∷ stops
    ∷ []

abbrev one_profile : List ProfileInfo
one_profile = record default_profile { name = codes "hd" } ∷ []

operate_all-new_host_example : IsWhole (operate_all plain_gst a_use (new_host one_profile) []).1
operate_all-new_host_example = operate_all-new_host plain_gst one_profile a_use []

operate_all-HostHeld_example :
    let used = operate_all plain_gst a_use (new_host one_profile) [] in
    HostHeld plain_gst event_source (new_host one_profile) [] used.1 used.2
operate_all-HostHeld_example =
    operate_all-HostHeld plain_gst event_source a_use (new_host one_profile) []

-- A GStreamer that answers for `drop` of every object what the object's was last set to.
abbrev last_or_open : Option Bool → Bool
last_or_open none = false
last_or_open (some d) = d

abbrev remembered : Trace → Call → Bool
remembered t (object_get v property) = last_or_open (last_drop v t)
remembered t c = true

abbrev remembering_gst : Gst
remembering_gst = record plain_gst { succeeds = remembered }

abbrev two_branches : ProfileHost
unfolding new_host
two_branches = record one_branch {
  bins =
      record (new_bin (record default_profile { name = codes "hd" })) { valve = some 7 }
      ∷ record (new_bin (record default_profile { name = codes "sd" })) { valve = some 8 }
      ∷ [];
}

set_profile_enabled-profile_enabled_example :
    let r = set_profile_enabled (codes "sd") false two_branches [] in
    ((profile_enabled remembering_gst (codes "sd") r.1 r.2).0 ≡ false)
    × (last_drop 8 r.2 ≡ some true)
    × ((w : ℕ) → w ≢ 8 → last_drop w r.2 ≡ last_drop w [])
unfolding two_branches
set_profile_enabled-profile_enabled_example =
    set_profile_enabled-profile_enabled remembering_gst (codes "sd") 8 false two_branches []
      (λ t v d e. ap last_or_open e) refl

-- A GStreamer that links nothing.
abbrev unlinked_gst : Gst
unlinked_gst = record plain_gst { succeeds = λ _ _. false }

setup_pipeline_stuck_example :
    setup_pipeline plain_gst (setup_pipeline unlinked_gst one_branch []).1 []
    ≡ (failure (codes "Pipeline already set up"), (setup_pipeline unlinked_gst one_branch []).1, [])
unfolding setup_pipeline with_source build create_elements all_made link_source branch new_host
setup_pipeline_stuck_example =
    setup_pipeline_stuck unlinked_gst plain_gst test_source one_branch [] [] refl refl
