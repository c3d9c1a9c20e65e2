-- ===== src/Labs/AsyncAppsink.antt =====
-- labs/lab-async-appsink.cpp: the same pipeline as in lab-preroll-states.cpp, whose code for the valve and the
-- sink and for the end of main it repeats, with errors watched and other timers. The file that main
-- removes and whose size is printed is left out, with the clock.
pub mod Release
use camera_platform.Prelude.{
  ℕ, ◌+◌, Bool, true, false, not, Bytes, codes, equal, Option, none, some, ◌++◌,
}
use camera_platform.Gst.{
  Gst, null, object_set, flag, set_state, parse_launch, timeout_add, loop_new, loop_quit, gst_init,
}
use camera_platform.Gst.Effects.{
  M, ◌>>=◌, ◌>>◌, pure, get, modify, branch, call, call_some, ask_pointer,
}
use camera_platform.Labs.Branches.{watch_errors}
use camera_platform.Labs.PrerollStates.{Lab, run_starved}

unfoldable on_new_sample : M Lab (Unit {0})
on_new_sample = modify (λ l. record l { sample_count = l.sample_count + 1 })

unfoldable on_reopen : Option ℕ → M Lab (Unit {0})
on_reopen valve = call_some (λ v. object_set v (codes "drop") (flag false)) valve

unfoldable on_finish : M Lab (Unit {0})
on_finish = do l ← get; call_some (λ p. set_state p null) l.pipeline; call_some loop_quit l.loop

unfoldable on_bus_error : M Lab (Unit {0})
on_bus_error = do l ← get; call_some loop_quit l.loop

-- The text that `gst_parse_launch` is given
abbrev description : Bytes
description =
    codes
      "videotestsrc is-live=true ! videoconvert ! video/x-raw,format=I420,width=320,height=240,framerate=30/1 ! tee name=t "
    ++ codes "t. ! queue ! x264enc speed-preset=ultrafast tune=zerolatency "
    ++ codes "! filesink location=/tmp/cam-recon/async-a.264 "
    ++ codes "t. ! queue ! valve name=bv ! appsink name=as emit-signals=true"

-- The main loop and its timers
run_timers : Gst → Bool → M Lab (Option ℕ)
run_timers g closed = do
  loop ← ask_pointer g (loop_new none)
  modify (λ l. record l { loop = loop })
  branch closed (call (timeout_add 2000 (codes "on_reopen"))) (pure tt)
  call (timeout_add 6000 (codes "on_finish"))
  pure loop

-- `main`, with the variant that the command line asks for
pub main : Gst → Bytes → M Lab ℕ
unfolding run_timers
main g variant = do
  call gst_init
  pipeline ← ask_pointer g (parse_launch description)
  modify (λ l. record l { pipeline = pipeline })
  run_starved g (watch_errors g) (run_timers g) (not (equal variant (codes "open")))
      (not (equal variant (codes "closed-af"))) pipeline
  pure 0
