-- ===== src/Labs/Branches.antt =====
-- labs/lab4-profile-host.cpp: one source and two branches behind valves. labs/lab3-profile-bin.cpp has
-- the same code with one branch; its own part is in Labs/OneBranch. The files that it removes and
-- whose sizes it prints are left out.
pub mod Callbacks
pub mod Pads
pub mod Valves
use camera_platform.Prelude.{
  ℕ, ◌+◌, Bool, true, false, Bytes, codes, List, Option, none, some, [], ◌∷◌, ◌++◌,
}
use camera_platform.Prelude.Decimal.{to_string}
use camera_platform.Gst.{
  Gst, null, playing, object_set, flag, number, text, bin_new, pipeline_new, factory_make, bin_add,
  link, static_pad, request_pad, ghost_pad, add_pad, no_more_pads, pad_link, pad_unref, get_bus,
  bus_signal_watch, bin_get_by_name, signal_connect, set_state, object_unref, timeout_add, loop_new,
  loop_run, loop_quit, loop_unref, gst_init,
}
use camera_platform.Gst.Effects.{
  M, ◌>>=◌, ◌>>◌, pure, get, modify, branch, call, call_some, ask, ask_pointer, ask_some,
  until_null,
}

-- `ProfileCfg`
pub record ProfileCfg : Type 0 where
  pub name : Bytes
  pub width : ℕ
  pub height : ℕ
  pub kbps : ℕ
  pub out : Bytes

-- `kProfiles`
unfoldable hd_profile : ProfileCfg
hd_profile = record {
  name = codes "hd";
  width = 1280;
  height = 720;
  kbps = 2500;
  out = codes "/tmp/cam-recon/lab4-hd.264";
}

unfoldable sd_profile : ProfileCfg
sd_profile = record {
  name = codes "sd";
  width = 854;
  height = 480;
  kbps = 1200;
  out = codes "/tmp/cam-recon/lab4-sd.264";
}

-- The text that `gst_caps_from_string` reads.
caps_text : ProfileCfg → Bytes
caps_text cfg =
    codes "video/x-raw,format=I420,width="
    ++ to_string cfg.width
    ++ codes ",height="
    ++ to_string cfg.height
    ++ codes ",framerate=30/1"

-- The properties of the filter, the encoder and the sink
set_properties : {S : Type 0} → ProfileCfg → (filter enc sink : Option ℕ) → M S (Unit {0})
unfolding caps_text
set_properties cfg filter enc sink = do
  call_some (λ o. object_set o (codes "caps") (text (caps_text cfg))) filter
  call_some (λ o. object_set o (codes "speed-preset") (text (codes "ultrafast"))) enc
  call_some (λ o. object_set o (codes "tune") (text (codes "zerolatency"))) enc
  call_some (λ o. object_set o (codes "key-int-max") (number 30)) enc
  call_some (λ o. object_set o (codes "bitrate") (number cfg.kbps)) enc
  call_some (λ o. object_set o (codes "location") (text cfg.out)) sink

-- The bin's ghost pad
expose : {S : Type 0} → Gst → (bin queue : Option ℕ) → M S (Option ℕ)
expose g bin queue = do
  pad ← ask_some g (λ e. static_pad e (codes "sink")) queue
  ghost ← ask_pointer g (ghost_pad (codes "sink") pad)
  call (pad_unref pad)
  call_some (λ b. add_pad b ghost) bin
  call_some no_more_pads bin
  pure bin

-- `profile_bin_new`: the bin, or null.
unfoldable pub profile_bin_new : {S : Type 0} → Gst → ProfileCfg → M S (Option ℕ)
unfolding set_properties expose
profile_bin_new g cfg = do
  bin ← ask_pointer g (bin_new cfg.name)
  queue ← ask_pointer g (factory_make (codes "queue") (codes "pq"))
  valve ← ask_pointer g (factory_make (codes "valve") (codes "pvalve"))
  scale ← ask_pointer g (factory_make (codes "videoscale") (codes "pscale"))
  filter ← ask_pointer g (factory_make (codes "capsfilter") (codes "pcaps"))
  enc ← ask_pointer g (factory_make (codes "x264enc") (codes "penc"))
  sink ← ask_pointer g (factory_make (codes "filesink") (codes "psink"))
  set_properties cfg filter enc sink
  call_some (λ b. bin_add b (until_null (queue ∷ valve ∷ scale ∷ filter ∷ enc ∷ sink ∷ []))) bin
  linked ← ask g (link (until_null (queue ∷ valve ∷ scale ∷ filter ∷ enc ∷ sink ∷ [])))
  branch linked (expose g bin queue) (pure none)

-- The properties of the source and its chain
fill_source : {S : Type 0} → (pipeline src capsf : Option ℕ) → List ℕ → M S (Unit {0})
fill_source pipeline src capsf chain = do
  call_some (λ o. object_set o (codes "is-live") (flag true)) src
  call_some
      (λ o.
        object_set o (codes "caps")
          (text (codes "video/x-raw,format=I420,width=1280,height=720,framerate=30/1")))
      capsf
  call_some (λ p. bin_add p chain) pipeline
  call (link chain)

-- `build_host` up to the branches: the tee.
unfoldable pub build_source : {S : Type 0} → Gst → Option ℕ → M S (Option ℕ)
unfolding fill_source
build_source g pipeline = do
  src ← ask_pointer g (factory_make (codes "videotestsrc") (codes "src"))
  conv ← ask_pointer g (factory_make (codes "videoconvert") (codes "conv"))
  capsf ← ask_pointer g (factory_make (codes "capsfilter") (codes "srccaps"))
  tee ← ask_pointer g (factory_make (codes "tee") (codes "tee"))
  fill_source pipeline src capsf (until_null (src ∷ conv ∷ capsf ∷ tee ∷ []))
  pure tee

-- The bin behind the tee
link_branch : {S : Type 0} → Gst → (pipeline tee profile : Option ℕ) → M S (Option ℕ)
link_branch g pipeline tee profile = do
  call_some (λ p. bin_add p (until_null (profile ∷ []))) pipeline
  tee_pad ← ask_some g (λ t. request_pad t (codes "src_%u")) tee
  bin_pad ← ask_some g (λ b. static_pad b (codes "sink")) profile
  call (pad_link tee_pad bin_pad)
  call (pad_unref tee_pad)
  call (pad_unref bin_pad)
  pure profile

-- One round of the loop of `build_host`
unfoldable pub attach_branch :
    {S : Type 0} → Gst → (pipeline tee : Option ℕ) → ProfileCfg → M S (Option ℕ)
unfolding profile_bin_new link_branch
attach_branch g pipeline tee cfg = do
  profile ← profile_bin_new g cfg
  link_branch g pipeline tee profile

-- The static variables; `g_bins[0]` is `hd` and `g_bins[1]` is `sd`.
pub record Host : Type 0 where
  pub loop : Option ℕ
  pub pipeline : Option ℕ
  pub hd : Option ℕ
  pub sd : Option ℕ

abbrev pub fresh : Host
fresh = record { loop = none; pipeline = none; hd = none; sd = none }

unfoldable pub build_host : Gst → M Host (Unit {0})
unfolding build_source attach_branch hd_profile sd_profile
build_host g = do
  pipeline ← ask_pointer g (pipeline_new (codes "host"))
  tee ← build_source g pipeline
  hd ← attach_branch g pipeline tee hd_profile
  sd ← attach_branch g pipeline tee sd_profile
  modify (λ h. record h { pipeline = pipeline; hd = hd; sd = sd })

-- `set_drop` on the bin `g_bins[i]`, which may be null
unfoldable pub set_drop : {S : Type 0} → Gst → Option ℕ → Bool → M S (Unit {0})
set_drop g bin drop = do
  valve ← ask_some g (λ b. bin_get_by_name b (codes "pvalve")) bin
  call_some (λ v. object_set v (codes "drop") (flag drop)) valve
  call_some object_unref valve

-- The bus of the pipeline, with the callback for errors
unfoldable pub watch_errors : {S : Type 0} → Gst → Option ℕ → M S (Unit {0})
watch_errors g pipeline = do
  bus ← ask_some g get_bus pipeline
  call (bus_signal_watch bus)
  call_some (λ b. signal_connect b (codes "message::error") []) bus
  call_some object_unref bus

-- What `main` does with the pipeline and the main loop in the end
unfoldable pub wind_up : {S : Type 0} → (pipeline loop : Option ℕ) → M S (Unit {0})
wind_up pipeline loop = do
  call_some loop_run loop
  call_some (λ p. set_state p null) pipeline
  call_some object_unref pipeline
  call_some loop_unref loop

unfoldable main : Gst → M Host ℕ
unfolding build_host watch_errors wind_up
main g = do
  call gst_init
  build_host g
  h ← get
  watch_errors g h.pipeline
  call_some (λ p. set_state p playing) h.pipeline
  loop ← ask_pointer g (loop_new none)
  modify (λ h. record h { loop = loop })
  call (timeout_add 3000 (codes "on_drop_sd"))
  call (timeout_add 5000 (codes "on_mid"))
  call (timeout_add 6000 (codes "on_resume_sd"))
  call (timeout_add 9000 (codes "on_finish"))
  wind_up h.pipeline loop
  pure 0
