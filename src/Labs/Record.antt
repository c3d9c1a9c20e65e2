-- ===== src/Labs/Record.antt =====
-- labs/lab7-record.cpp: recordings as branches of a tee that are added to, and taken from, a pipeline
-- that plays. The log lines are left out.
pub mod Finish
pub mod Pads
use camera_platform.Prelude.{
  ℕ, ◌+◌, ◌/◌, ◌%◌, Bool, true, false, ltb, Bytes, codes, List, Option, none, some, [], ◌∷◌,
}
use camera_platform.Gst.{
  Gst, GstState, null, playing, object_set, flag, text, bin_new, factory_make, bin_add, link,
  static_pad, request_pad, ghost_pad, add_pad, add_probe, pad_link, pad_unlink, pad_unref,
  release_pad, send_eos, bin_remove, sync_state, get_bus, bus_unref, pop_error, message_unref,
  set_state, get_state, bin_get_by_name, object_unref, signal_connect, pull_sample, sample_unref,
  parse_launch, timeout_add, loop_new, loop_run, loop_unref, gst_init,
}
use camera_platform.Gst.Effects.{
  M, ◌>>=◌, ◌>>◌, pure, get, modify, branch, call, call_some, ask, ask_pointer, ask_some, now,
  until_null,
}
use camera_platform.Server.Rtsp.{FlowReturn, flow_ok}

pub record Rec : Type 0 where
  pub bin : Option ℕ
  pub tee_pad : Option ℕ
  -- milliseconds
  pub deadline : ℕ

-- The static variables
pub record Recorder : Type 0 where
  pub pipeline : Option ℕ
  pub tee : Option ℕ
  pub loop : Option ℕ
  pub rec : Rec
  pub rec_eos_seen : Bool
  pub rtsp_samples : ℕ

abbrev pub fresh : Recorder
fresh = record {
  pipeline = none;
  tee = none;
  loop = none;
  rec = record { bin = none; tee_pad = none; deadline = 0 };
  rec_eos_seen = false;
  rtsp_samples = 0;
}

-- `on_rtsp_sample` with the sample
count_sample : Option ℕ → M Recorder (Unit {0})
count_sample none = pure tt
count_sample (some sample) = do
  modify (λ r. record r { rtsp_samples = (r.rtsp_samples + 1) % 0x100000000 })
  call (sample_unref sample)

unfoldable pub on_rtsp_sample : Gst → ℕ → M Recorder FlowReturn
unfolding count_sample
on_rtsp_sample g sink = do
  sample ← ask_pointer g (pull_sample sink)
  count_sample sample
  pure flow_ok

-- `on_branch_event`: whether the event is EOS
unfoldable pub on_branch_event : Bool → M Recorder (Unit {0})
on_branch_event eos = branch eos (modify (λ r. record r { rec_eos_seen = true })) (pure tt)

unfoldable pub rec_teardown : M Recorder (Unit {0})
rec_teardown = do
  r ← get
  call_some (λ b. set_state b null) r.rec.bin
  call (bin_remove r.pipeline r.rec.bin)

-- `poll_finish` with the error message that the bus gave
with_message : Gst → Option ℕ → M Recorder Bool
unfolding rec_teardown
with_message g none = do
  r ← get
  time ← now g
  branch (ltb r.rec.deadline (time / 1000)) (do rec_teardown; pure false) (pure true)
with_message g (some msg) = do call (message_unref (some msg)); rec_teardown; pure false

-- Whether the source continues
unfoldable pub poll_finish : Gst → M Recorder Bool
unfolding with_message rec_teardown
poll_finish g = do
  r ← get
  branch r.rec_eos_seen (do rec_teardown; pure false)
      (do
        bus ← ask_some g get_bus r.pipeline
        msg ← ask_some g pop_error bus
        call (bus_unref bus)
        with_message g msg)

-- `gst_element_factory_make(…, NULL)`
make : Gst → Bytes → M Recorder (Option ℕ)
make g element = ask_pointer g (factory_make element [])

-- `rec_start` from the properties to `gst_element_link_many`
arrange : Bytes → Bool → (bin queue parse mux filesink : Option ℕ) → M Recorder (Unit {0})
arrange location faststart bin queue parse mux filesink = do
  call_some (λ o. object_set o (codes "location") (text location)) filesink
  call_some (λ o. object_set o (codes "faststart") (flag faststart)) mux
  call_some (λ b. bin_add b (until_null (queue ∷ parse ∷ mux ∷ filesink ∷ []))) bin
  call (link (until_null (queue ∷ parse ∷ mux ∷ filesink ∷ [])))

-- The probe and the ghost pad
expose : Gst → (bin queue filesink : Option ℕ) → M Recorder (Unit {0})
expose g bin queue filesink = do
  probed ← ask_some g (λ e. static_pad e (codes "sink")) filesink
  call (add_probe probed)
  sinkpad ← ask_some g (λ e. static_pad e (codes "sink")) queue
  ghost ← ask_pointer g (ghost_pad (codes "sink") sinkpad)
  call_some (λ b. add_pad b ghost) bin
  call (pad_unref sinkpad)

-- `rec_start` from the elements to the ghost pad
fill_bin : Gst → Bytes → Bool → Option ℕ → M Recorder (Unit {0})
unfolding make arrange expose
fill_bin g location faststart bin = do
  queue ← make g (codes "queue")
  parse ← make g (codes "h264parse")
  mux ← make g (codes "mp4mux")
  filesink ← make g (codes "filesink")
  arrange location faststart bin queue parse mux filesink
  expose g bin queue filesink

-- `rec_start` once the bin is filled
attach_bin : Gst → M Recorder (Unit {0})
attach_bin g = do
  r ← get
  call_some (λ p. bin_add p (until_null (r.rec.bin ∷ []))) r.pipeline
  call_some sync_state r.rec.bin
  pad ← ask_some g (λ t. request_pad t (codes "src_%u")) r.tee
  modify (λ r. record r { rec = record r.rec { tee_pad = pad } })
  bin_pad ← ask_some g (λ b. static_pad b (codes "sink")) r.rec.bin
  call (pad_link pad bin_pad)
  call (pad_unref bin_pad)

unfoldable pub rec_start : Gst → Bytes → Bool → M Recorder (Unit {0})
unfolding fill_bin attach_bin
rec_start g location faststart = do
  modify (λ r. record r { rec_eos_seen = false })
  bin ← ask_pointer g (bin_new (codes "recbin"))
  modify (λ r. record r { rec = record r.rec { bin = bin } })
  fill_bin g location faststart bin
  attach_bin g

unfoldable pub rec_stop : Gst → M Recorder (Unit {0})
rec_stop g = do
  r ← get
  bin_pad ← ask_some g (λ b. static_pad b (codes "sink")) r.rec.bin
  call (pad_unlink r.rec.tee_pad bin_pad)
  call (release_pad r.tee r.rec.tee_pad)
  call (pad_unref r.rec.tee_pad)
  call (send_eos bin_pad)
  call (pad_unref bin_pad)
  time ← now g
  modify (λ r. record r { rec = record r.rec { deadline = time / 1000 + 2500 } })
  call (timeout_add 25 (codes "poll_finish"))

unfoldable start1 : Gst → M Recorder Bool
unfolding rec_start
start1 g = do rec_start g (codes "/home/phong/cam-recon/rec1.mp4") false; pure false

unfoldable stop1 : Gst → M Recorder Bool
unfolding rec_stop
stop1 g = do rec_stop g; pure false

unfoldable start2 : Gst → M Recorder Bool
unfolding rec_start
start2 g = do rec_start g (codes "/home/phong/cam-recon/rec2.mp4") true; pure false

unfoldable stop2 : Gst → M Recorder Bool
unfolding rec_stop
stop2 g = do rec_stop g; pure false

unfoldable start3 : Gst → M Recorder Bool
unfolding rec_start
start3 g = do rec_start g (codes "/home/phong/cam-recon/rec_bad.mp4") false; pure false

reached : Gst → Option ℕ → M Recorder Bool
reached g none = pure false
reached g (some p) = ask g (get_state p)

-- `main` from the main loop on
run : Gst → M Recorder ℕ
run g = do
  loop ← ask_pointer g (loop_new none)
  modify (λ r. record r { loop = loop })
  call (timeout_add 2000 (codes "start1"))
  call (timeout_add 4000 (codes "stop1"))
  call (timeout_add 6000 (codes "start2"))
  call (timeout_add 8000 (codes "stop2"))
  call (timeout_add 10000 (codes "start3"))
  call_some loop_run loop
  r ← get
  call_some (λ p. set_state p null) r.pipeline
  call_some object_unref r.tee
  call_some object_unref r.pipeline
  call_some loop_unref r.loop
  pure 0

-- `main` with a pipeline
with_pipeline : Gst → Option ℕ → M Recorder ℕ
unfolding run reached
with_pipeline g none = pure 1
with_pipeline g (some p) = do
  tee ← ask_pointer g (bin_get_by_name p (codes "et"))
  modify (λ r. record r { tee = tee })
  sink ← ask_pointer g (bin_get_by_name p (codes "a_rtsp"))
  call_some (λ s. signal_connect s (codes "new-sample") []) sink
  call_some object_unref sink
  call (set_state p playing)
  fits ← reached g (some p)
  branch fits (run g) (pure 1)

-- The exit code
unfoldable main : Gst → M Recorder ℕ
unfolding with_pipeline
main g = do
  call gst_init
  pipeline ← ask_pointer g (
      parse_launch (
        codes
          "videotestsrc is-live=true pattern=smpte ! videoconvert ! video/x-raw,width=1280,height=720,framerate=30/1 ! x264enc speed-preset=ultrafast tune=zerolatency key-int-max=30 bitrate=2500 ! tee name=et et. ! queue ! appsink name=a_rtsp emit-signals=true sync=false"))
  modify (λ r. record r { pipeline = pipeline })
  with_pipeline g pipeline
