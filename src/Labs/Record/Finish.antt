-- ===== src/Labs/Record/Finish.antt =====
-- The end of a recording of labs/lab7-record.cpp.
use camera_platform.Prelude.{
  List, ◌∷◌, ℕ, ◌+◌, ◌/◌, Bool, true, false, Option, [], ◌∷◌, ◌≡◌, ◌≤◌, ◌⊎◌,
}
use camera_platform.Gst.{Gst, Trace, Call, bin_remove, timer_fired}
use camera_platform.Gst.Effects.{M, ◌>>=◌, ◌>>◌, pure, branch, call}
use camera_platform.Labs.Record.{on_rtsp_sample, on_branch_event, Recorder, poll_finish}

-- What the streaming threads may call while a recording ends: "new-sample", and the probe with an event
-- that is EOS or not
pub data Meanwhile : Type 0 where
  new_sample : ℕ → Meanwhile
  event_probed : Bool → Meanwhile

unfoldable pub meanwhile : Gst → Meanwhile → M Recorder (Unit {0})
unfolding on_rtsp_sample on_branch_event
meanwhile g (new_sample sink) = do _ ← on_rtsp_sample g sink; pure tt
meanwhile g (event_probed eos) = on_branch_event eos

unfoldable pub all_meanwhile : Gst → List Meanwhile → M Recorder (Unit {0})
unfolding meanwhile
all_meanwhile g [] = pure tt
all_meanwhile g (e ∷ es) = do meanwhile g e; all_meanwhile g es

-- The polls of a recording that was stopped, where no other is started or stopped: the main loop waits for
-- the timer and polls as long as the source continues, with what is called before each poll. The answer is
-- whether the source still continues.
unfoldable pub polls : Gst → List (List Meanwhile) → M Recorder Bool
unfolding branch all_meanwhile
polls g [] = pure true
polls g (es ∷ rest) = do
  all_meanwhile g es
  call timer_fired
  again ← poll_finish g
  branch again (polls g rest) (pure false)

-- The last call took the recording's bin out of the pipeline.
abbrev pub TornDown : Option ℕ → Option ℕ → Trace → Type 0
TornDown pipeline bin [] = ⊥
TornDown pipeline bin (c ∷ t) = c ≡ bin_remove pipeline bin

-- What the clock does: a call takes no negative time, and the timer waits its 25 ms.
abbrev pub TimersWait : Gst → Type 0
TimersWait g =
    ((t : Trace) (c : Call) → g.clock t ≤ g.clock (c ∷ t))
    × ((t : Trace) → g.clock t + 25000 ≤ g.clock (timer_fired ∷ t))

-- What a poll leaves: the bin is out, or the program is as it was and its deadline is not over.
abbrev Polled : Gst → Recorder → Trace → Bool × Recorder × Trace → Type 0
Polled g r t x =
    ((x.0 ≡ false) × TornDown r.pipeline r.rec.bin x.2)
    ⊎ ((x.0 ≡ true) × (x.1 ≡ r) × (g.clock t ≤ g.clock x.2) × (g.clock x.2 / 1000 ≤ r.rec.deadline))

-- What is called meanwhile changes neither the recording nor the pipeline, and takes no negative time.
abbrev Steady : Gst → Recorder → Trace → Recorder → Trace → Type 0
Steady g r t q u = (q.pipeline ≡ r.pipeline) × (q.rec ≡ r.rec) × (g.clock t ≤ g.clock u)

-- What the polls are to come to: they have ended, and the last call took the bin out.
abbrev pub Ended : Recorder → Bool × Recorder × Trace → Type 0
Ended r x = (x.0 ≡ false) × TornDown r.pipeline r.rec.bin x.2
