-- ===== src/Labs/AsyncAppsink/Release.antt =====
-- The references that labs/lab-async-appsink.cpp takes and gives back.
use camera_platform.Prelude.{ℕ, Bool, not, Bytes, codes, equal, Option, ◌∷◌, arith}
use camera_platform.Gst.{Gst, Trace, parse_launch, gst_init}
use camera_platform.Gst.Effects.{branch}
use camera_platform.Labs.Branches.{watch_errors}
use camera_platform.Labs.References.{refs_taken, refs_given, Extra}
use camera_platform.Labs.PrerollStates
use camera_platform.Labs.PrerollStates.{Lab, on_probe}
use camera_platform.Labs.PrerollStates.Release
use camera_platform.Labs.PrerollStates.Release.{run_starved-gives, on_probe-Extra}
use camera_platform.Labs.AsyncAppsink.{description, run_timers, main}

watch_errors-Extra :
    (g : Gst) (p : Option ℕ) (l : Lab) (t : Trace) → Extra g 0 t (watch_errors g p l t).2
unfolding watch_errors refs_taken refs_given
watch_errors-Extra g p l t = ground arith

run_timers-Extra :
    (g : Gst) (closed : Bool) (l : Lab) (t : Trace) → Extra g 0 t (run_timers g closed l t).2
unfolding run_timers branch refs_taken refs_given
run_timers-Extra g closed l t = ground arith

main-Extra : (g : Gst) (variant : Bytes) (l : Lab) (t : Trace) → Extra g 0 t (main g variant l t).2
unfolding main refs_taken refs_given
main-Extra g variant l t =
    let asked = parse_launch description in
    let p = g.pointer (gst_init ∷ t) asked in
    let h =
      run_starved-gives g (watch_errors g) (run_timers g) (watch_errors-Extra g)
        (run_timers-Extra g) (not (equal variant (codes "open")))
        (not (equal variant (codes "closed-af"))) p (record l { pipeline = p })
        (asked ∷ gst_init ∷ t) in
    omega arith

-- `main` of either lab gives back every reference to an element, a bus or the pipeline that it takes, and
-- so does each `on_probe`, whatever the variant and whatever the libraries answer.
pub mains-Extra :
    (g : Gst) (variant : Bytes) (l : Lab) (t : Trace)
    → Extra g 0 t (PrerollStates.main g variant l t).2
      × Extra g 0 t (on_probe g l t).2
      × Extra g 0 t (main g variant l t).2
mains-Extra g variant l t =
    (PrerollStates.Release.main-Extra g variant l t, on_probe-Extra g l t, main-Extra g variant l t)
