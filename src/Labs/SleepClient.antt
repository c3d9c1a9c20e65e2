-- ===== src/Labs/SleepClient.antt =====
-- labs/lab5-rtsp-client.cpp: a viewer that sleeps while its samples are counted. The log lines are left out.
pub mod Samples
use camera_platform.Prelude.{
  ℕ, ◌+◌, ◌-◌, ◌%◌, ◌==◌, Bool, true, false, Bytes, codes, List, Option, none, some, [], ◌∷◌,
}
use camera_platform.Gst.{
  Gst, null, playing, pull_sample, sample_unref, bin_get_by_name, signal_connect, set_state,
  object_unref, parse_launch, sleep, gst_init,
}
use camera_platform.Gst.Effects.{
  M, ◌>>=◌, ◌>>◌, pure, get, modify, branch, call, call_some, ask_pointer, now,
}
use camera_platform.Labs.Bridge.{bump}
use camera_platform.Labs.LoopClient.{client_line}

-- The static variables; `first_sample_us` is `none` for -1.
pub record Client : Type 0 where
  pub count : ℕ
  pub eos_seen : Bool
  pub start_us : ℕ
  pub first_sample_us : Option ℕ

abbrev pub fresh : Client
fresh = record { count = 0; eos_seen = false; start_us = 0; first_sample_us = none }

-- The time of the first sample since the start; the clock does not go back.
note_first : Gst → M Client (Unit {0})
note_first g = do
  time ← now g
  modify (λ c. record c { first_sample_us = some (time - c.start_us) })

-- `on_new_sample` with the sample
count_sample : Gst → Option ℕ → M Client (Unit {0})
unfolding note_first
count_sample g none = pure tt
count_sample g (some sample) = do
  c ← get
  branch (c.count == 0) (note_first g) (pure tt)
  modify (λ c. record c { count = bump c.count })
  call (sample_unref sample)

pub on_new_sample : Gst → ℕ → M Client (Unit {0})
unfolding count_sample
on_new_sample g sink = do sample ← ask_pointer g (pull_sample sink); count_sample g sample

pub on_eos : M Client (Unit {0})
on_eos = modify (λ c. record c { eos_seen = true })

-- What is called back while `main` sleeps
pub data Callback : Type 0 where
  new_sample : ℕ → Callback
  eos : Callback

pub call_back : Gst → Callback → M Client (Unit {0})
call_back g (new_sample sink) = on_new_sample g sink
call_back g eos = on_eos

pub call_back_all : Gst → List Callback → M Client (Unit {0})
call_back_all g [] = pure tt
call_back_all g (x ∷ xs) = do call_back g x; call_back_all g xs

-- `main` from the sink up to the sleep
start : Gst → ℕ → ℕ → M Client (Option ℕ)
start g microseconds pipeline = do
  sink ← ask_pointer g (bin_get_by_name pipeline (codes "sink"))
  call_some (λ s. signal_connect s (codes "new-sample") []) sink
  call_some (λ s. signal_connect s (codes "eos") []) sink
  time ← now g
  modify (λ c. record c { start_us = time })
  call (set_state pipeline playing)
  call (sleep microseconds)
  pure sink

-- `main` behind the sleep
wind_up : Option ℕ → ℕ → M Client ℕ
wind_up sink pipeline = do
  call (set_state pipeline null)
  call_some object_unref sink
  call (object_unref pipeline)
  pure 0

-- `main` with what `gst_parse_launch` has made
with_pipeline : Gst → ℕ → List Callback → Option ℕ → M Client ℕ
with_pipeline g microseconds callbacks none = pure 1
with_pipeline g microseconds callbacks (some pipeline) = do
  sink ← start g microseconds pipeline
  call_back_all g callbacks
  wind_up sink pipeline

-- `main` with the arguments behind the name of the program; the second, times 1000000, is an argument
-- as a number, since `atof` reads it.
with_arguments : Gst → ℕ → List Callback → List Bytes → M Client ℕ
unfolding with_pipeline
with_arguments g microseconds callbacks [] = pure 1
with_arguments g microseconds callbacks (location ∷ []) = pure 1
with_arguments g microseconds callbacks (location ∷ seconds ∷ more) = do
  pipeline ← ask_pointer g (parse_launch (client_line location))
  with_pipeline g microseconds callbacks pipeline

-- The exit code
pub main : Gst → ℕ → List Callback → List Bytes → M Client ℕ
unfolding with_arguments
main g microseconds callbacks arguments = do
  call gst_init
  with_arguments g microseconds callbacks arguments
