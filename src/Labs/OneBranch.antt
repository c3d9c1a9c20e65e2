-- ===== src/Labs/OneBranch.antt =====
-- labs/lab3-profile-bin.cpp: one source and one branch behind a valve, which is closed after three
-- seconds. What it has in common with labs/lab4-profile-host.cpp is in Labs/Branches; the printing of
-- file sizes is left out.
pub mod Pads
use camera_platform.Prelude.{ℕ, true, codes, Option, none}
use camera_platform.Gst.{
  Gst, null, playing, pipeline_new, set_state, timeout_add, loop_new, loop_quit, gst_init,
}
use camera_platform.Gst.Effects.{M, ◌>>=◌, ◌>>◌, pure, get, modify, call, call_some, ask_pointer}
use camera_platform.Labs.Branches.{
  ProfileCfg, build_source, attach_branch, set_drop, watch_errors, wind_up,
}

-- `g_pipeline`, `loop` and the bin that `main` gives to `on_drop`
pub record Lab : Type 0 where
  pub loop : Option ℕ
  pub pipeline : Option ℕ
  pub bin : Option ℕ

abbrev pub fresh : Lab
fresh = record { loop = none; pipeline = none; bin = none }

-- The arguments of `profile_bin_new` in `build_host`
unfoldable only_profile : ProfileCfg
only_profile = record {
  name = codes "hd";
  width = 1280;
  height = 720;
  kbps = 2500;
  out = codes "/tmp/cam-recon/lab3-out.264";
}

unfoldable pub build_host : Gst → M Lab (Unit {0})
unfolding only_profile
build_host g = do
  pipeline ← ask_pointer g (pipeline_new (codes "host"))
  tee ← build_source g pipeline
  profile ← attach_branch g pipeline tee only_profile
  modify (λ l. record l { pipeline = pipeline; bin = profile })

unfoldable on_drop : Gst → M Lab (Unit {0})
on_drop g = do l ← get; set_drop g l.bin true

-- `on_finish`; `on_check` only prints.
unfoldable on_finish : M Lab (Unit {0})
on_finish = do l ← get; call_some (λ p. set_state p null) l.pipeline; call_some loop_quit l.loop

unfoldable on_bus_error : M Lab (Unit {0})
on_bus_error = do l ← get; call_some loop_quit l.loop

unfoldable main : Gst → M Lab ℕ
unfolding build_host
main g = do
  call gst_init
  build_host g
  l ← get
  watch_errors g l.pipeline
  call_some (λ p. set_state p playing) l.pipeline
  loop ← ask_pointer g (loop_new none)
  modify (λ l. record l { loop = loop })
  call (timeout_add 3000 (codes "on_drop"))
  call (timeout_add 5000 (codes "on_check"))
  call (timeout_add 6000 (codes "on_finish"))
  wind_up l.pipeline loop
  pure 0
