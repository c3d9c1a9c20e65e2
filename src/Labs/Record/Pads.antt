-- ===== src/Labs/Record/Pads.antt =====
-- The references to pads that a recording of labs/lab7-record.cpp takes and gives back.
use camera_platform.Prelude.{
  ℕ, ◌+◌, Bool, true, false, Bytes, codes, List, Option, [], ◌∷◌, ◌≡◌, arith,
}
use camera_platform.Gst.{Gst, Trace, add_probe, bin_new, timer_fired}
use camera_platform.Gst.Effects.{M, ◌>>◌, branch, pure}
use camera_platform.Gst.Observe.{one_if_some, pads_taken, pads_given, taken, given}
use camera_platform.Labs.Record.Finish.{
  Meanwhile, new_sample, event_probed, meanwhile, all_meanwhile, polls,
}
use camera_platform.Labs.Record.{
  Recorder, on_rtsp_sample, on_branch_event, count_sample, fill_bin, arrange, expose, attach_bin,
  rec_start, rec_stop, make, with_message, poll_finish, rec_teardown,
}

-- The pads that a probe was put on
pub probed : Trace → ℕ
probed [] = 0
probed (add_probe p ∷ t) = one_if_some p + probed t
probed (c ∷ t) = probed t

-- Between the two traces the references taken and not given back are `extra` and those of probed pads.
abbrev pub Kept : Gst → ℕ → Trace → Trace → Type 0
Kept g extra t u =
    pads_taken g u + pads_given t + probed t ≡ pads_taken g t + pads_given u + probed u + extra

Kept-trans : (g : Gst) (m : ℕ) (t u v : Trace) → Kept g 0 t u → Kept g m u v → Kept g m t v
Kept-trans g m t u v h k = omega arith

arrange-Kept :
    (g : Gst) (location : Bytes) (faststart : Bool) (bin queue parse mux filesink : Option ℕ)
    (r : Recorder) (t : Trace)
    → Kept g 0 t (arrange location faststart bin queue parse mux filesink r t).2
unfolding arrange taken given probed
arrange-Kept g location faststart bin queue parse mux filesink r t = ground arith

expose-Kept :
    (g : Gst) (bin queue filesink : Option ℕ) (r : Recorder) (t : Trace)
    → Kept g 0 t (expose g bin queue filesink r t).2
unfolding expose taken given probed
expose-Kept g bin queue filesink r t = ground arith

fill_bin-Kept :
    (g : Gst) (location : Bytes) (faststart : Bool) (bin : Option ℕ) (r : Recorder) (t : Trace)
    → Kept g 0 t (fill_bin g location faststart bin r t).2
unfolding fill_bin make taken given probed
fill_bin-Kept g location faststart bin r t =
    let queue = make g (codes "queue") r t in
    let parse = make g (codes "h264parse") r queue.2 in
    let mux = make g (codes "mp4mux") r parse.2 in
    let sink = make g (codes "filesink") r mux.2 in
    let u = arrange location faststart bin queue.0 parse.0 mux.0 sink.0 r sink.2 in
    Kept-trans g 0 t u.2 (expose g bin queue.0 sink.0 u.1 u.2).2
      (arrange-Kept g location faststart bin queue.0 parse.0 mux.0 sink.0 r sink.2)
      (expose-Kept g bin queue.0 sink.0 u.1 u.2)

attach_bin-Kept :
    (g : Gst) (r : Recorder) (t : Trace)
    → Kept g (one_if_some (attach_bin g r t).1.rec.tee_pad) t (attach_bin g r t).2
unfolding attach_bin taken given probed
attach_bin-Kept g r t = ground arith

rec_stop-Kept :
    (g : Gst) (r : Recorder) (t : Trace)
    → (pads_taken g (rec_stop g r t).2 + pads_given t + one_if_some r.rec.tee_pad
        ≡ pads_taken g t + pads_given (rec_stop g r t).2)
      × (probed (rec_stop g r t).2 ≡ probed t)
unfolding rec_stop taken given probed
rec_stop-Kept g r t = ground arith

rec_start-Kept :
    (g : Gst) (location : Bytes) (faststart : Bool) (r : Recorder) (t : Trace)
    → Kept g
        (one_if_some (rec_start g location faststart r t).1.rec.tee_pad)
        t
        (rec_start g location faststart r t).2
unfolding rec_start taken given probed
rec_start-Kept g location faststart r t =
    let bin = g.pointer t (bin_new (codes "recbin")) in
    let s = record r { rec = record r.rec { bin = bin }; rec_eos_seen = false } in
    let filled = fill_bin g location faststart bin s (bin_new (codes "recbin") ∷ t) in
    Kept-trans g (one_if_some (attach_bin g filled.1 filled.2).1.rec.tee_pad) t filled.2
      (attach_bin g filled.1 filled.2).2
      (fill_bin-Kept g location faststart bin s (bin_new (codes "recbin") ∷ t))
      (attach_bin-Kept g filled.1 filled.2)

poll_finish-Kept : (g : Gst) (r : Recorder) (t : Trace) → Kept g 0 t (poll_finish g r t).2
unfolding poll_finish with_message rec_teardown branch taken given probed
poll_finish-Kept g r t = ground arith

meanwhile-Kept :
    (g : Gst) (e : Meanwhile) (r : Recorder) (t : Trace) → Kept g 0 t (meanwhile g e r t).2
unfolding meanwhile on_rtsp_sample on_branch_event count_sample branch taken given probed
meanwhile-Kept g (new_sample sink) r t = ground arith
meanwhile-Kept g (event_probed eos) r t = ground arith

all_meanwhile-Kept :
    (g : Gst) (es : List Meanwhile) (r : Recorder) (t : Trace)
    → Kept g 0 t (all_meanwhile g es r t).2
unfolding all_meanwhile
all_meanwhile-Kept g [] r t = omega arith
all_meanwhile-Kept g (e ∷ es) r t =
    let a = meanwhile g e r t in
    Kept-trans g 0 t a.2 (all_meanwhile g es a.1 a.2).2 (meanwhile-Kept g e r t)
      (all_meanwhile-Kept g es a.1 a.2)

-- A recording: started, stopped, and polled until the source is removed or as often as the list says
pub recording : Gst → Bytes → Bool → List (List Meanwhile) → M Recorder Bool
recording g location faststart between = do
  rec_start g location faststart
  rec_stop g
  polls g between

poll-Kept : (g : Gst) (r : Recorder) (t : Trace) → Kept g 0 t (poll_finish g r (timer_fired ∷ t)).2
unfolding taken given probed
poll-Kept g r t = poll_finish-Kept g r (timer_fired ∷ t)

polls-Kept :
    (g : Gst) (between : List (List Meanwhile)) (r : Recorder) (t : Trace)
    → Kept g 0 t (polls g between r t).2
unfolding polls branch
polls-Kept g [] r t = omega arith
polls-Kept g (es ∷ rest) r t =
    let a = all_meanwhile g es r t in
    go (poll_finish g a.1 (timer_fired ∷ a.2))
      (Kept-trans g 0 t a.2 (poll_finish g a.1 (timer_fired ∷ a.2)).2 (all_meanwhile-Kept g es r t)
        (poll-Kept g a.1 a.2))
      (polls-Kept g rest)
  where
    go :
        (x : Bool × Recorder × Trace)
        → Kept g 0 t x.2
        → ((r : Recorder) (t : Trace) → Kept g 0 t (polls g rest r t).2)
        → Kept g 0 t (branch x.0 (polls g rest) (pure false) x.1 x.2).2
    go (true, s, u) h k = Kept-trans g 0 t u (polls g rest s u).2 h (k s u)
    go (false, s, u) h k = h

-- A recording gives back every pad reference that it takes but those of the pads it puts a probe on.
pub recording-pads :
    (g : Gst) (location : Bytes) (faststart : Bool) (between : List (List Meanwhile)) (r : Recorder)
    (t : Trace)
    → Kept g 0 t (recording g location faststart between r t).2
unfolding recording
recording-pads g location faststart between r t =
    let started = rec_start g location faststart r t in
    let stopped = rec_stop g started.1 started.2 in
    omega (
      arith,
      rec_start-Kept g location faststart r t,
      rec_stop-Kept g started.1 started.2,
      polls-Kept g between stopped.1 stopped.2,
    )
