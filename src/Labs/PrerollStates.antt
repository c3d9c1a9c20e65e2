-- ===== src/Labs/PrerollStates.antt =====
-- labs/lab-preroll-states.cpp: the states that a pipeline reports while a valve that starts closed starves a
-- sink. The clock, the names and the states that are only printed are left out, with `on_bus_message`,
-- which prints what it is given; so is the file that main removes first.
pub mod Release
use camera_platform.Prelude.{
  ℕ, ◌+◌, Bool, true, false, not, Bytes, codes, equal, List, Option, none, some, [], ◌∷◌, ◌++◌,
  if◌then◌else◌,
}
use camera_platform.Gst.{
  Gst, null, playing, object_set, flag, get_state, bus_signal_watch, bin_get_by_name,
  signal_connect, get_bus, set_state, object_unref, parse_launch, timeout_add, loop_new, loop_run,
  loop_quit, loop_unref, gst_init,
}
use camera_platform.Gst.Effects.{
  M, ◌>>=◌, ◌>>◌, pure, get, modify, branch, call, call_some, ask_pointer, ask_some,
}

-- The static variables
pub record Lab : Type 0 where
  pub loop : Option ℕ
  pub pipeline : Option ℕ
  pub sample_count : ℕ

abbrev pub fresh : Lab
fresh = record { loop = none; pipeline = none; sample_count = 0 }

unfoldable probe_one : Option ℕ → M Lab (Unit {0})
probe_one el = call_some get_state el

-- One round of the loop of `on_probe`
probe_named : Gst → Option ℕ → Bytes → M Lab (Unit {0})
unfolding probe_one
probe_named g pipeline n = do
  el ← ask_some g (λ p. bin_get_by_name p n) pipeline
  probe_one el
  call_some object_unref el

probe_names : Gst → Option ℕ → List Bytes → M Lab (Unit {0})
probe_names g pipeline [] = pure tt
probe_names g pipeline (n ∷ ns) = do probe_named g pipeline n; probe_names g pipeline ns

pub on_probe : Gst → M Lab (Unit {0})
unfolding probe_one probe_names
on_probe g = do
  l ← get
  probe_one l.pipeline
  probe_names g l.pipeline (codes "src" ∷ codes "fsA" ∷ codes "bv" ∷ codes "as" ∷ [])

unfoldable on_new_sample : M Lab (Unit {0})
on_new_sample = modify (λ l. record l { sample_count = l.sample_count + 1 })

unfoldable on_reopen : Option ℕ → M Lab (Unit {0})
on_reopen valve = call_some (λ v. object_set v (codes "drop") (flag false)) valve

unfoldable on_finish : Gst → M Lab (Unit {0})
on_finish g = do
  on_probe g
  l ← get
  call_some (λ p. set_state p null) l.pipeline
  call_some loop_quit l.loop

-- The text that `gst_parse_launch` is given
description : Bytes → Bytes
description variant =
    codes "videotestsrc is-live="
    ++ (if equal variant (codes "nonlive-at") then codes "false" else codes "true")
    ++ codes
        " name=src ! videoconvert ! video/x-raw,format=I420,width=320,height=240,framerate=30/1 ! tee name=t "
    ++ codes "t. ! queue ! x264enc speed-preset=ultrafast tune=zerolatency "
    ++ codes "! filesink name=fsA location=/tmp/cam-recon/probe-a.264 "
    ++ codes "t. ! queue ! valve name=bv ! appsink name=as emit-signals=true"

-- The valve and the sink of the pipeline, set up to start closed and to be asynchronous or not
unfoldable pub starve :
    Gst → (closed asynchronous : Bool) → (pipeline : Option ℕ) → M Lab (Option ℕ × Option ℕ)
starve g closed asynchronous pipeline = do
  valve ← ask_some g (λ p. bin_get_by_name p (codes "bv")) pipeline
  appsink ← ask_some g (λ p. bin_get_by_name p (codes "as")) pipeline
  call_some (λ v. object_set v (codes "drop") (flag closed)) valve
  call_some (λ a. object_set a (codes "async") (flag asynchronous)) appsink
  call_some (λ a. signal_connect a (codes "new-sample") []) appsink
  pure (valve, appsink)

-- The bus of the pipeline, with the callback for every message
watch_all : Gst → Option ℕ → M Lab (Unit {0})
watch_all g pipeline = do
  bus ← ask_some g get_bus pipeline
  call (bus_signal_watch bus)
  call_some (λ b. signal_connect b (codes "message") []) bus
  call_some object_unref bus

-- What `main` does once the main loop has returned
unfoldable pub release : (valve appsink pipeline loop : Option ℕ) → M Lab (Unit {0})
release valve appsink pipeline loop = do
  call_some loop_run loop
  call_some object_unref valve
  call_some object_unref appsink
  call_some (λ p. set_state p null) pipeline
  call_some object_unref pipeline
  call_some loop_unref loop

-- The main loop and its timers
run_timers : Gst → Bool → M Lab (Option ℕ)
run_timers g closed = do
  loop ← ask_pointer g (loop_new none)
  modify (λ l. record l { loop = loop })
  call (timeout_add 2000 (codes "on_probe"))
  branch closed (call (timeout_add 2100 (codes "on_reopen"))) (pure tt)
  call (timeout_add 4000 (codes "on_probe"))
  call (timeout_add 5000 (codes "on_finish"))
  pure loop

-- `main` from the valve on, with the calls that watch the bus and those that set the timers
unfoldable pub run_starved :
    Gst
    → (watch : Option ℕ → M Lab (Unit {0})) → (timers : Bool → M Lab (Option ℕ))
    → (closed asynchronous : Bool) → (pipeline : Option ℕ) → M Lab (Unit {0})
unfolding starve release
run_starved g watch timers closed asynchronous pipeline = do
  ends ← starve g closed asynchronous pipeline
  watch pipeline
  call_some (λ p. set_state p playing) pipeline
  loop ← timers closed
  release ends.0 ends.1 pipeline loop

-- `main`, with the variant that the command line asks for
pub main : Gst → Bytes → M Lab ℕ
unfolding description run_starved watch_all run_timers
main g variant = do
  call gst_init
  pipeline ← ask_pointer g (parse_launch (description variant))
  modify (λ l. record l { pipeline = pipeline })
  run_starved g (watch_all g) (run_timers g) (not (equal variant (codes "open")))
      (not (equal variant (codes "closed-af"))) pipeline
  pure 0
