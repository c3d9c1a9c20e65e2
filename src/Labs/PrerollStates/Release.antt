-- ===== src/Labs/PrerollStates/Release.antt =====
-- The references that labs/lab-preroll-states.cpp takes and gives back.
use camera_platform.Prelude.{
  ℕ, ◌+◌, Bool, not, Bytes, codes, equal, List, Option, [], ◌∷◌, ◌≡◌, arith,
}
use camera_platform.Gst.{Gst, Trace, parse_launch, gst_init, playing, set_state}
use camera_platform.Gst.Effects.{M, branch, call_some}
use camera_platform.Gst.Observe.{one_if_some}
use camera_platform.Labs.References.{refs_taken, refs_given, Extra, Extra-trans}
use camera_platform.Labs.PrerollStates.{
  Lab, probe_one, probe_names, on_probe, starve, watch_all, run_timers, release, run_starved, main,
  probe_named, description,
}

probe_named-Extra :
    (g : Gst) (p : Option ℕ) (n : Bytes) (l : Lab) (t : Trace)
    → Extra g 0 t (probe_named g p n l t).2
unfolding probe_named probe_one refs_taken refs_given
probe_named-Extra g p n l t = ground arith

probe_names-Extra :
    (g : Gst) (p : Option ℕ) (ns : List Bytes) (l : Lab) (t : Trace)
    → Extra g 0 t (probe_names g p ns l t).2
unfolding probe_names probe_named
probe_names-Extra g p [] l t = omega arith
probe_names-Extra g p (n ∷ ns) l t =
    let u = (probe_named g p n l t).2 in
    Extra-trans g 0 t u (probe_names g p ns l u).2 (probe_named-Extra g p n l t)
      (probe_names-Extra g p ns l u)

probe_one-Extra : (g : Gst) (p : Option ℕ) (l : Lab) (t : Trace) → Extra g 0 t (probe_one p l t).2
unfolding probe_one refs_taken refs_given
probe_one-Extra g p l t = ground arith

pub on_probe-Extra : (g : Gst) (l : Lab) (t : Trace) → Extra g 0 t (on_probe g l t).2
unfolding on_probe
on_probe-Extra g l t =
    let u = (probe_one l.pipeline l t).2 in
    Extra-trans g 0 t u (on_probe g l t).2 (probe_one-Extra g l.pipeline l t) (
      probe_names-Extra g l.pipeline (codes "src" ∷ codes "fsA" ∷ codes "bv" ∷ codes "as" ∷ []) l u)

starve-Extra :
    (g : Gst) (closed asynchronous : Bool) (p : Option ℕ) (l : Lab) (t : Trace)
    → let ends = starve g closed asynchronous p l t in
      Extra g (one_if_some ends.0.0 + one_if_some ends.0.1) t ends.2
unfolding starve refs_taken refs_given
starve-Extra g closed asynchronous p l t = ground arith

watch_all-Extra : (g : Gst) (p : Option ℕ) (l : Lab) (t : Trace) → Extra g 0 t (watch_all g p l t).2
unfolding watch_all refs_taken refs_given
watch_all-Extra g p l t = ground arith

run_timers-Extra :
    (g : Gst) (closed : Bool) (l : Lab) (t : Trace) → Extra g 0 t (run_timers g closed l t).2
unfolding run_timers branch refs_taken refs_given
run_timers-Extra g closed l t = ground arith

-- The valve, the sink and the pipeline are given back, each if it is there.
release-gives :
    (g : Gst) (v a p loop : Option ℕ) (l : Lab) (t : Trace)
    → let u = (release v a p loop l t).2 in
      refs_taken g u + refs_given t + (one_if_some v + one_if_some a + one_if_some p)
      ≡ refs_taken g t + refs_given u
unfolding release refs_taken refs_given
release-gives g v a p loop l t = ground arith

plays-Extra :
    (g : Gst) (p : Option ℕ) (l : Lab) (t : Trace)
    → Extra g 0 t (call_some (λ o. set_state o playing) p l t).2
unfolding refs_taken refs_given
plays-Extra g p l t = ground arith

pub run_starved-gives :
    (g : Gst) (watch : Option ℕ → M Lab (Unit {0})) (timers : Bool → M Lab (Option ℕ))
    → ((p : Option ℕ) (l : Lab) (t : Trace) → Extra g 0 t (watch p l t).2)
    → ((closed : Bool) (l : Lab) (t : Trace) → Extra g 0 t (timers closed l t).2)
    → (closed asynchronous : Bool) (p : Option ℕ) (l : Lab) (t : Trace)
    → let u = (run_starved g watch timers closed asynchronous p l t).2 in
      refs_taken g u + refs_given t + one_if_some p ≡ refs_taken g t + refs_given u
unfolding run_starved
run_starved-gives g watch timers watch-Extra timers-Extra closed asynchronous p l t =
    let ends = starve g closed asynchronous p l t in
    let watched = watch p ends.1 ends.2 in
    let plays = call_some (λ o. set_state o playing) p watched.1 watched.2 in
    let runs = timers closed plays.1 plays.2 in
    let a = starve-Extra g closed asynchronous p l t in
    let b = watch-Extra p ends.1 ends.2 in
    let c = plays-Extra g p watched.1 watched.2 in
    let d = timers-Extra closed plays.1 plays.2 in
    let e = release-gives g ends.0.0 ends.0.1 p runs.0 runs.1 runs.2 in omega arith

pub main-Extra :
    (g : Gst) (variant : Bytes) (l : Lab) (t : Trace) → Extra g 0 t (main g variant l t).2
unfolding main refs_taken refs_given
main-Extra g variant l t =
    let asked = parse_launch (description variant) in
    let p = g.pointer (gst_init ∷ t) asked in
    let h =
      run_starved-gives g (watch_all g) (run_timers g) (watch_all-Extra g) (run_timers-Extra g)
        (not (equal variant (codes "open"))) (not (equal variant (codes "closed-af"))) p
        (record l { pipeline = p }) (asked ∷ gst_init ∷ t) in
    omega arith
