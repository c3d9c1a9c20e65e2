-- ===== src/Labs/LoopClient/Samples.antt =====
-- The samples that labs/lab8-rtsp-client.cpp counts.
use camera_platform.Prelude.{ℕ, Bytes, ◌<◌, Option, none, some, List, [], ◌∷◌, refl, arith}
use camera_platform.Gst.{Gst, Trace, pull_sample, parse_launch, gst_init}
use camera_platform.Gst.Observe.{
  Kind, taken, given, of_main_loop, one_if_some, samples_taken, samples_given,
}
use camera_platform.Labs.Counted.{
  Counted-lt, nothing, Accounted, Accounted-trans, quiet-Accounted, Accounted-frame, owns,
  asked-Accounted, initialised-Accounted,
}
use camera_platform.Labs.References.{refs_taken, refs_given}
use camera_platform.Labs.LoopClient.{
  Client, on_new_sample, count_sample, call_back, call_back_all, connect_sink, start_loop, wind_up,
  with_pipeline, with_arguments, main, client_line, on_eos, quit_loop, Callback, new_sample, eos,
  quit_after_eos, quit_timeout,
}

on_new_sample-Accounted :
    (g : Gst) (k : Kind) (sink : ℕ) (c : Client) (t : Trace)
    → c.count < 0x100000000
    → let r = on_new_sample g sink c t in Accounted g k c.count nothing t r.1.count nothing r.2
unfolding on_new_sample count_sample samples_taken samples_given refs_taken refs_given taken given
on_new_sample-Accounted g k sink c t h = record {
  counted =
      (one_if_some (g.pointer t (pull_sample sink)), ground arith, ground arith, ground arith);
  references = ground arith;
  objects = ground arith;
}

quit_loop-Accounted :
    (g : Gst) (k : Kind) (c : Client) (t : Trace)
    → c.count < 0x100000000
    → let r = quit_loop c t in Accounted g k c.count nothing t r.1.count nothing r.2
unfolding quit_loop samples_taken samples_given refs_taken refs_given taken given
quit_loop-Accounted g k c t h =
    quiet-Accounted g k c.count nothing nothing t (quit_loop c t).2 h (ground arith) (ground arith)
      (ground arith) (ground arith)

call_back-Accounted :
    (g : Gst) (k : Kind) (x : Callback) (c : Client) (t : Trace)
    → c.count < 0x100000000
    → let r = call_back g x c t in Accounted g k c.count nothing t r.1.count nothing r.2
unfolding call_back on_eos samples_taken samples_given refs_taken refs_given taken given
call_back-Accounted g k (new_sample sink) c t h = on_new_sample-Accounted g k sink c t h
call_back-Accounted g k eos c t h =
    quiet-Accounted g k c.count nothing nothing t (on_eos c t).2 h refl refl (omega arith)
      (omega arith)
call_back-Accounted g k quit_after_eos c t h = quit_loop-Accounted g k c t h
call_back-Accounted g k quit_timeout c t h = quit_loop-Accounted g k c t h

call_back_all-Accounted :
    (g : Gst) (k : Kind) (xs : List Callback) (c : Client) (t : Trace)
    → c.count < 0x100000000
    → let r = call_back_all g xs c t in Accounted g k c.count nothing t r.1.count nothing r.2
unfolding call_back_all
call_back_all-Accounted g k [] c t h =
    quiet-Accounted g k c.count nothing nothing t t h refl refl (omega arith) (omega arith)
call_back_all-Accounted g k (x ∷ xs) c t h =
    let d = call_back g x c t in
    let e = call_back_all g xs d.1 d.2 in
    let first = call_back-Accounted g k x c t h in
    Accounted-trans g k c.count d.1.count e.1.count nothing nothing nothing t d.2 e.2 first
      (call_back_all-Accounted g k xs d.1 d.2 (Counted-lt g c.count d.1.count t d.2 first.counted))

connect_sink-Accounted :
    (g : Gst) (k : Kind) (p : ℕ) (c : Client) (t : Trace)
    → c.count < 0x100000000
    → let r = connect_sink g p c t in Accounted g k c.count (owns 1 0) t r.1.count (owns 1 0) r.2
unfolding connect_sink samples_taken samples_given refs_taken refs_given taken given
connect_sink-Accounted g k p c t h =
    quiet-Accounted g k c.count (owns 1 0) (owns 1 0) t (connect_sink g p c t).2 h (ground arith)
      (ground arith) (ground arith) (ground arith)

start_loop-Accounted :
    (g : Gst) (k : Kind) (n p : ℕ) (c : Client) (t : Trace)
    → c.count < 0x100000000
    → let r = start_loop g n p c t in
      Accounted g k c.count (owns 1 0) t r.1.count (owns 1 (of_main_loop k (one_if_some r.0))) r.2
unfolding start_loop samples_taken samples_given refs_taken refs_given taken given
start_loop-Accounted g k n p c t h =
    let r = start_loop g n p c t in
    quiet-Accounted g k c.count (owns 1 0) (owns 1 (of_main_loop k (one_if_some r.0))) t r.2 h
      (ground arith) (ground arith) (ground arith) (ground arith)

wind_up-Accounted :
    (g : Gst) (k : Kind) (loop : Option ℕ) (p : ℕ) (c : Client) (t : Trace)
    → c.count < 0x100000000
    → let r = wind_up loop p c t in
      Accounted g k c.count (owns 1 (of_main_loop k (one_if_some loop))) t r.1.count nothing r.2
unfolding wind_up samples_taken samples_given refs_taken refs_given taken given
wind_up-Accounted g k loop p c t h =
    quiet-Accounted g k c.count (owns 1 (of_main_loop k (one_if_some loop))) nothing t
      (wind_up loop p c t).2 h (ground arith) (ground arith) (ground arith) (ground arith)

with_pipeline-Accounted :
    (g : Gst) (k : Kind) (n : ℕ) (xs : List Callback) (p : Option ℕ) (c : Client) (t : Trace)
    → c.count < 0x100000000
    → let r = with_pipeline g n xs p c t in
      Accounted g k c.count (owns (one_if_some p) 0) t r.1.count nothing r.2
unfolding with_pipeline
with_pipeline-Accounted g k n xs none c t h =
    quiet-Accounted g k c.count nothing nothing t t h refl refl (omega arith) (omega arith)
with_pipeline-Accounted g k n xs (some p) c t h =
    let sink = connect_sink g p c t in
    let started = start_loop g n p sink.1 sink.2 in
    let held = owns 1 (of_main_loop k (one_if_some started.0)) in
    let called = call_back_all g xs started.1 started.2 in
    let ended = wind_up started.0 p called.1 called.2 in
    let a = connect_sink-Accounted g k p c t h in
    let b =
      start_loop-Accounted g k n p sink.1 sink.2
        (Counted-lt g c.count sink.1.count t sink.2 a.counted) in
    let below = Counted-lt g sink.1.count started.1.count sink.2 started.2 b.counted in
    let d = call_back_all-Accounted g k xs started.1 started.2 below in
    let e =
      wind_up-Accounted g k started.0 p called.1 called.2
        (Counted-lt g started.1.count called.1.count started.2 called.2 d.counted) in
    Accounted-trans g k c.count sink.1.count ended.1.count (owns 1 0) (owns 1 0) nothing t sink.2
      ended.2 a
      (Accounted-trans g k sink.1.count started.1.count ended.1.count (owns 1 0) held nothing sink.2
        started.2 ended.2 b
        (Accounted-trans g k started.1.count called.1.count ended.1.count held held nothing
          started.2 called.2 ended.2
          (Accounted-frame g k started.1.count called.1.count held started.2 called.2 d) e))

with_arguments-Accounted :
    (g : Gst) (k : Kind) (n : ℕ) (xs : List Callback) (arguments : List Bytes) (c : Client)
    (t : Trace)
    → c.count < 0x100000000
    → let r = with_arguments g n xs arguments c t in
      Accounted g k c.count nothing t r.1.count nothing r.2
unfolding with_arguments
with_arguments-Accounted g k n xs [] c t h =
    quiet-Accounted g k c.count nothing nothing t t h refl refl (omega arith) (omega arith)
with_arguments-Accounted g k n xs (l ∷ []) c t h =
    quiet-Accounted g k c.count nothing nothing t t h refl refl (omega arith) (omega arith)
with_arguments-Accounted g k n xs (l ∷ s ∷ more) c t h =
    let line = parse_launch (client_line l) in
    let p = g.pointer t line in
    let r = with_pipeline g n xs p c (line ∷ t) in
    Accounted-trans g k c.count c.count r.1.count nothing (owns (one_if_some p) 0) nothing t
      (line ∷ t) r.2 (asked-Accounted g k c.count (client_line l) t h)
      (with_pipeline-Accounted g k n xs p c (line ∷ t) h)

pub main-Accounted :
    (g : Gst) (k : Kind) (n : ℕ) (xs : List Callback) (arguments : List Bytes) (c : Client)
    (t : Trace)
    → c.count < 0x100000000
    → let r = main g n xs arguments c t in Accounted g k c.count nothing t r.1.count nothing r.2
unfolding main
main-Accounted g k n xs arguments c t h =
    let r = with_arguments g n xs arguments c (gst_init ∷ t) in
    Accounted-trans g k c.count c.count r.1.count nothing nothing nothing t (gst_init ∷ t) r.2
      (initialised-Accounted g k c.count t h)
      (with_arguments-Accounted g k n xs arguments c (gst_init ∷ t) h)
