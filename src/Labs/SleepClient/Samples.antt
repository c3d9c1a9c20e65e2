-- ===== src/Labs/SleepClient/Samples.antt =====
-- The samples that labs/lab5-rtsp-client.cpp counts.
use camera_platform.Prelude.{ℕ, Bytes, ◌+◌, ◌<◌, Option, none, some, List, [], ◌∷◌, refl, arith}
use camera_platform.Gst.{Gst, Trace, pull_sample, parse_launch, gst_init}
use camera_platform.Gst.Effects.{branch}
use camera_platform.Gst.Observe.{Kind, taken, given, one_if_some, samples_taken, samples_given}
use camera_platform.Labs.Counted.{
  Counted-lt, nothing, Accounted, Accounted-trans, quiet-Accounted, Accounted-frame, owns,
  asked-Accounted, initialised-Accounted,
}
use camera_platform.Labs.References.{refs_taken, refs_given}
use camera_platform.Labs.LoopClient
use camera_platform.Labs.LoopClient.{client_line}
use camera_platform.Labs.LoopClient.Samples
use camera_platform.Labs.SleepClient.{
  Client, on_new_sample, count_sample, call_back, call_back_all, fresh, start, wind_up,
  with_pipeline, with_arguments, main, on_eos, note_first, Callback, new_sample, eos,
}

on_new_sample-Accounted :
    (g : Gst) (k : Kind) (sink : ℕ) (c : Client) (t : Trace)
    → c.count < 0x100000000
    → let r = on_new_sample g sink c t in Accounted g k c.count nothing t r.1.count nothing r.2
unfolding on_new_sample count_sample note_first branch samples_taken samples_given refs_taken
    refs_given taken given
on_new_sample-Accounted g k sink c t h = record {
  counted =
      (one_if_some (g.pointer t (pull_sample sink)), ground arith, ground arith, ground arith);
  references = ground arith;
  objects = ground arith;
}

call_back-Accounted :
    (g : Gst) (k : Kind) (x : Callback) (c : Client) (t : Trace)
    → c.count < 0x100000000
    → let r = call_back g x c t in Accounted g k c.count nothing t r.1.count nothing r.2
unfolding call_back on_eos samples_taken samples_given refs_taken refs_given taken given
call_back-Accounted g k (new_sample sink) c t h = on_new_sample-Accounted g k sink c t h
call_back-Accounted g k eos c t h =
    quiet-Accounted g k c.count nothing nothing t (on_eos c t).2 h refl refl (omega arith)
      (omega arith)

call_back_all-Accounted :
    (g : Gst) (k : Kind) (xs : List Callback) (c : Client) (t : Trace)
    → c.count < 0x100000000
    → let r = call_back_all g xs c t in Accounted g k c.count nothing t r.1.count nothing r.2
unfolding call_back_all
call_back_all-Accounted g k [] c t h =
    quiet-Accounted g k c.count nothing nothing t t h refl refl (omega arith) (omega arith)
call_back_all-Accounted g k (x ∷ xs) c t h =
    let d = call_back g x c t in
    let e = call_back_all g xs d.1 d.2 in
    let first = call_back-Accounted g k x c t h in
    Accounted-trans g k c.count d.1.count e.1.count nothing nothing nothing t d.2 e.2 first
      (call_back_all-Accounted g k xs d.1 d.2 (Counted-lt g c.count d.1.count t d.2 first.counted))

start-Accounted :
    (g : Gst) (k : Kind) (n p : ℕ) (c : Client) (t : Trace)
    → c.count < 0x100000000
    → let r = start g n p c t in
      Accounted g k c.count (owns 1 0) t r.1.count (owns (1 + one_if_some r.0) 0) r.2
unfolding start samples_taken samples_given refs_taken refs_given taken given
start-Accounted g k n p c t h =
    let r = start g n p c t in
    quiet-Accounted g k c.count (owns 1 0) (owns (1 + one_if_some r.0) 0) t r.2 h (ground arith)
      (ground arith) (ground arith) (ground arith)

wind_up-Accounted :
    (g : Gst) (k : Kind) (sink : Option ℕ) (p : ℕ) (c : Client) (t : Trace)
    → c.count < 0x100000000
    → let r = wind_up sink p c t in
      Accounted g k c.count (owns (1 + one_if_some sink) 0) t r.1.count nothing r.2
unfolding wind_up samples_taken samples_given refs_taken refs_given taken given
wind_up-Accounted g k sink p c t h =
    quiet-Accounted g k c.count (owns (1 + one_if_some sink) 0) nothing t (wind_up sink p c t).2 h
      (ground arith) (ground arith) (ground arith) (ground arith)

with_pipeline-Accounted :
    (g : Gst) (k : Kind) (n : ℕ) (xs : List Callback) (p : Option ℕ) (c : Client) (t : Trace)
    → c.count < 0x100000000
    → let r = with_pipeline g n xs p c t in
      Accounted g k c.count (owns (one_if_some p) 0) t r.1.count nothing r.2
unfolding with_pipeline
with_pipeline-Accounted g k n xs none c t h =
    quiet-Accounted g k c.count nothing nothing t t h refl refl (omega arith) (omega arith)
with_pipeline-Accounted g k n xs (some p) c t h =
    let started = start g n p c t in
    let held = owns (1 + one_if_some started.0) 0 in
    let called = call_back_all g xs started.1 started.2 in
    let ended = wind_up started.0 p called.1 called.2 in
    let a = start-Accounted g k n p c t h in
    let b =
      call_back_all-Accounted g k xs started.1 started.2
        (Counted-lt g c.count started.1.count t started.2 a.counted) in
    let d =
      wind_up-Accounted g k started.0 p called.1 called.2
        (Counted-lt g started.1.count called.1.count started.2 called.2 b.counted) in
    Accounted-trans g k c.count started.1.count ended.1.count (owns 1 0) held nothing t started.2
      ended.2 a
      (Accounted-trans g k started.1.count called.1.count ended.1.count held held nothing started.2
        called.2 ended.2
        (Accounted-frame g k started.1.count called.1.count held started.2 called.2 b) d)

with_arguments-Accounted :
    (g : Gst) (k : Kind) (n : ℕ) (xs : List Callback) (arguments : List Bytes) (c : Client)
    (t : Trace)
    → c.count < 0x100000000
    → let r = with_arguments g n xs arguments c t in
      Accounted g k c.count nothing t r.1.count nothing r.2
unfolding with_arguments
with_arguments-Accounted g k n xs [] c t h =
    quiet-Accounted g k c.count nothing nothing t t h refl refl (omega arith) (omega arith)
with_arguments-Accounted g k n xs (l ∷ []) c t h =
    quiet-Accounted g k c.count nothing nothing t t h refl refl (omega arith) (omega arith)
with_arguments-Accounted g k n xs (l ∷ s ∷ more) c t h =
    let line = parse_launch (client_line l) in
    let p = g.pointer t line in
    let r = with_pipeline g n xs p c (line ∷ t) in
    Accounted-trans g k c.count c.count r.1.count nothing (owns (one_if_some p) 0) nothing t
      (line ∷ t) r.2 (asked-Accounted g k c.count (client_line l) t h)
      (with_pipeline-Accounted g k n xs p c (line ∷ t) h)

main-Accounted :
    (g : Gst) (k : Kind) (n : ℕ) (xs : List Callback) (arguments : List Bytes) (c : Client)
    (t : Trace)
    → c.count < 0x100000000
    → let r = main g n xs arguments c t in Accounted g k c.count nothing t r.1.count nothing r.2
unfolding main
main-Accounted g k n xs arguments c t h =
    let r = with_arguments g n xs arguments c (gst_init ∷ t) in
    Accounted-trans g k c.count c.count r.1.count nothing nothing nothing t (gst_init ∷ t) r.2
      (initialised-Accounted g k c.count t h)
      (with_arguments-Accounted g k n xs arguments c (gst_init ∷ t) h)

-- Both viewers count the samples that they pull, on 32 bits, and release each; and their `main` gives
-- back every reference to an element and every main loop that it takes, whatever is called back meanwhile,
-- whatever arguments it has, and whatever the libraries answer.
pub mains-Accounted :
    (g : Gst) (k : Kind) (n : ℕ) (xs : List Callback) (ys : List LoopClient.Callback)
    (arguments : List Bytes) (t : Trace)
    → let sleeps = main g n xs arguments fresh t in
      let loops = LoopClient.main g n ys arguments LoopClient.fresh t in
      Accounted g k 0 nothing t sleeps.1.count nothing sleeps.2
      × Accounted g k 0 nothing t loops.1.count nothing loops.2
mains-Accounted g k n xs ys arguments t = (
  main-Accounted g k n xs arguments fresh t (omega arith),
  LoopClient.Samples.main-Accounted g k n ys arguments LoopClient.fresh t (omega arith),
)
