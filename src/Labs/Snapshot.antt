-- ===== src/Labs/Snapshot.antt =====
-- labs/lab7-snapshot.cpp: snapshots from a branch whose valve is open only while one is awaited. The log
-- lines are left out, with the reading of the picture that only they use.
pub mod Account
use camera_platform.Prelude.{
  ℕ, ◌+◌, ◌-◌, ◌/◌, ◌%◌, Bool, true, false, not, ltb, codes, Option, none, some, [], ◌∷◌,
}
use camera_platform.Gst.{
  Gst, null, playing, object_set, flag, try_pull_sample, sample_unref, set_state, get_state,
  bin_get_by_name, object_unref, parse_launch, timeout_add, loop_new, loop_run, loop_quit,
  loop_unref, gst_init,
}
use camera_platform.Gst.Effects.{
  M, ◌>>=◌, ◌>>◌, pure, get, modify, branch, call, call_some, ask, ask_pointer, ask_some, now,
}
use camera_platform.Labs.Bridge.{bump}

-- The static variables
pub record Snapshots : Type 0 where
  pub pipeline : Option ℕ
  pub valve : Option ℕ
  pub snap_sink : Option ℕ
  pub loop : Option ℕ
  pub open_time : ℕ
  pub waiting : Bool
  -- `guint`
  pub snapshot_id : ℕ
  pub timeouts : ℕ

abbrev pub fresh : Snapshots
fresh = record {
  pipeline = none;
  valve = none;
  snap_sink = none;
  loop = none;
  open_time = 0;
  waiting = false;
  snapshot_id = 0;
  timeouts = 0;
}

-- `g_object_set(valve, "drop", …)`
set_drop : Bool → M Snapshots (Unit {0})
set_drop drop = do s ← get; call_some (λ v. object_set v (codes "drop") (flag drop)) s.valve

unfoldable pub request_snapshot : Gst → M Snapshots (Unit {0})
unfolding set_drop
request_snapshot g = do
  modify (λ s. record s { snapshot_id = bump s.snapshot_id; waiting = true })
  time ← now g
  modify (λ s. record s { open_time = time })
  set_drop false

-- The valve is closed and nothing is awaited.
settle : M Snapshots (Unit {0})
unfolding set_drop
settle = do set_drop true; modify (λ s. record s { waiting = false })

-- `poll_snapshot` with what the sink gave
with_sample : Gst → Option ℕ → M Snapshots (Unit {0})
unfolding settle
with_sample g (some sample) = do call (sample_unref sample); settle
with_sample g none = do
  s ← get
  time ← now g
  branch (ltb 1000 ((time - s.open_time) / 1000))
      (do modify (λ s. record s { timeouts = bump s.timeouts }); settle) (pure tt)

-- The source continues.
unfoldable pub poll_snapshot : Gst → M Snapshots Bool
unfolding with_sample
poll_snapshot g = do
  s ← get
  branch (not s.waiting) (pure true)
      (do sample ← ask_some g try_pull_sample s.snap_sink; with_sample g sample; pure true)

-- `snap1`, `snap2` and `snap3` are the same.
unfoldable snap1 : Gst → M Snapshots Bool
unfolding request_snapshot
snap1 g = do request_snapshot g; pure false

unfoldable quit : M Snapshots Bool
quit = do s ← get; call_some loop_quit s.loop; pure false

-- `main` from the main loop on
run : Gst → M Snapshots ℕ
run g = do
  s ← get
  call_some get_state s.valve
  loop ← ask_pointer g (loop_new none)
  modify (λ s. record s { loop = loop })
  call (timeout_add 10 (codes "poll_snapshot"))
  call (timeout_add 2000 (codes "snap1"))
  call (timeout_add 4000 (codes "snap2"))
  call (timeout_add 6000 (codes "snap3"))
  call (timeout_add 7000 (codes "quit"))
  call_some loop_run loop
  s ← get
  call_some (λ p. set_state p null) s.pipeline
  call_some object_unref s.valve
  call_some object_unref s.snap_sink
  call_some object_unref s.pipeline
  call_some loop_unref s.loop
  pure 0

-- `main` with a pipeline
with_pipeline : Gst → Option ℕ → M Snapshots ℕ
unfolding run set_drop
with_pipeline g none = pure 1
with_pipeline g (some p) = do
  valve ← ask_pointer g (bin_get_by_name p (codes "sv"))
  modify (λ s. record s { valve = valve })
  sink ← ask_pointer g (bin_get_by_name p (codes "a_snap"))
  modify (λ s. record s { snap_sink = sink })
  set_drop true
  call (set_state p playing)
  fits ← ask g (get_state p)
  branch fits (run g) (pure 1)

-- The exit code
unfoldable main : Gst → M Snapshots ℕ
unfolding with_pipeline
main g = do
  call gst_init
  pipeline ← ask_pointer g (
      parse_launch (
        codes
          "videotestsrc is-live=true pattern=smpte ! videoconvert ! video/x-raw,width=1280,height=720,framerate=30/1 ! tee name=et et. ! queue ! fakesink name=live_out sync=false et. ! queue ! valve name=sv drop=true ! jpegenc quality=85 ! appsink name=a_snap max-buffers=2 drop=true async=false sync=false"))
  modify (λ s. record s { pipeline = pipeline })
  with_pipeline g pipeline
