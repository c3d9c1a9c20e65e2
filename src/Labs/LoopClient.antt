-- ===== src/Labs/LoopClient.antt =====
-- labs/lab8-rtsp-client.cpp: a viewer that counts the samples it receives until a timer ends its main loop.
-- The log lines, with the timer that only prints, are left out. The parts that
-- labs/lab5-rtsp-client.cpp repeats are used in SleepClient.
pub mod Samples
use camera_platform.Prelude.{
  ℕ, ◌+◌, ◌%◌, Bool, true, false, Bytes, codes, List, Option, none, some, [], ◌∷◌, ◌++◌,
}
use camera_platform.Gst.{
  Gst, null, playing, pull_sample, sample_unref, bin_get_by_name, signal_connect, set_state,
  object_unref, parse_launch, timeout_add, loop_new, loop_run, loop_quit, loop_unref, gst_init,
}
use camera_platform.Gst.Effects.{M, ◌>>=◌, ◌>>◌, pure, get, modify, call, call_some, ask_pointer}
use camera_platform.Labs.Bridge.{bump}

-- The static variables
pub record Client : Type 0 where
  pub count : ℕ
  pub eos_seen : Bool
  pub loop : Option ℕ

abbrev pub fresh : Client
fresh = record { count = 0; eos_seen = false; loop = none }

-- `on_new_sample` with the sample
count_sample : Option ℕ → M Client (Unit {0})
count_sample none = pure tt
count_sample (some sample) = do
  modify (λ c. record c { count = bump c.count })
  call (sample_unref sample)

pub on_new_sample : Gst → ℕ → M Client (Unit {0})
unfolding count_sample
on_new_sample g sink = do sample ← ask_pointer g (pull_sample sink); count_sample sample

-- `quit_after_eos` and `quit_timeout`
pub quit_loop : M Client (Unit {0})
quit_loop = do c ← get; call_some loop_quit c.loop

pub on_eos : M Client (Unit {0})
on_eos = do
  modify (λ c. record c { eos_seen = true })
  call (timeout_add 200 (codes "quit_after_eos"))

-- What is called back while the main loop runs
pub data Callback : Type 0 where
  new_sample : ℕ → Callback
  eos quit_after_eos quit_timeout : Callback

pub call_back : Gst → Callback → M Client (Unit {0})
call_back g (new_sample sink) = on_new_sample g sink
call_back g eos = on_eos
call_back g quit_after_eos = quit_loop
call_back g quit_timeout = quit_loop

pub call_back_all : Gst → List Callback → M Client (Unit {0})
call_back_all g [] = pure tt
call_back_all g (x ∷ xs) = do call_back g x; call_back_all g xs

-- The text that `gst_parse_launch` is given for an address
abbrev pub client_line : Bytes → Bytes
client_line location =
    codes "rtspsrc location="
    ++ location
    ++ codes
        " latency=0 protocols=tcp ! rtph264depay ! h264parse ! appsink emit-signals=true sync=false name=sink"

-- `main` on the sink
connect_sink : Gst → ℕ → M Client (Unit {0})
connect_sink g pipeline = do
  sink ← ask_pointer g (bin_get_by_name pipeline (codes "sink"))
  call_some (λ s. signal_connect s (codes "new-sample") []) sink
  call_some (λ s. signal_connect s (codes "eos") []) sink
  call_some object_unref sink

-- `main` from the making of the main loop up to its run
start_loop : Gst → ℕ → ℕ → M Client (Option ℕ)
start_loop g milliseconds pipeline = do
  loop ← ask_pointer g (loop_new none)
  modify (λ c. record c { loop = loop })
  call (timeout_add 500 (codes "report"))
  call (timeout_add milliseconds (codes "quit_timeout"))
  call (set_state pipeline playing)
  call_some loop_run loop
  pure loop

-- `main` behind the main loop
wind_up : Option ℕ → ℕ → M Client ℕ
wind_up loop pipeline = do
  call_some loop_unref loop
  call (set_state pipeline null)
  call (object_unref pipeline)
  pure 0

-- `main` with what `gst_parse_launch` has made
with_pipeline : Gst → ℕ → List Callback → Option ℕ → M Client ℕ
with_pipeline g milliseconds callbacks none = pure 1
with_pipeline g milliseconds callbacks (some pipeline) = do
  connect_sink g pipeline
  loop ← start_loop g milliseconds pipeline
  call_back_all g callbacks
  wind_up loop pipeline

-- `main` with the arguments behind the name of the program; the second, times 1000, is an argument
-- as a number, since `atof` reads it.
with_arguments : Gst → ℕ → List Callback → List Bytes → M Client ℕ
unfolding with_pipeline
with_arguments g milliseconds callbacks [] = pure 1
with_arguments g milliseconds callbacks (location ∷ []) = pure 1
with_arguments g milliseconds callbacks (location ∷ seconds ∷ more) = do
  pipeline ← ask_pointer g (parse_launch (client_line location))
  with_pipeline g milliseconds callbacks pipeline

-- The exit code
pub main : Gst → ℕ → List Callback → List Bytes → M Client ℕ
unfolding with_arguments
main g milliseconds callbacks arguments = do
  call gst_init
  with_arguments g milliseconds callbacks arguments
