-- ===== src/Labs/Stall.antt =====
-- labs/lab-stall-mechanism.cpp: buffers counted at the queues and at the valve of a branch that may start
-- closed. The log lines and the clock that they print are left out; the name of an object is an
-- argument, since the library gives it.
pub mod References
use camera_platform.Prelude.{
  ℕ, ◌+◌, Bool, true, false, not, Bytes, codes, equal, List, Option, none, some, [], ◌∷◌, ◌++◌,
  if◌then◌else◌,
}
use camera_platform.Prelude.Search.{starts_with}
use camera_platform.Gst.{
  Gst, Trace, null, playing, object_set, object_get, flag, static_pad, pad_peer, pad_parent,
  add_probe, pad_unref, bin_get_by_name, signal_connect, get_bus, set_state, object_unref,
  parse_launch, timeout_add, loop_new, loop_quit, gst_init,
}
use camera_platform.Gst.Effects.{
  M, ◌>>=◌, ◌>>◌, pure, get, modify, branch, call, call_some, ask_pointer, ask_some,
}
use camera_platform.Labs.Branches.{watch_errors, wind_up}

-- The static variables
pub record Stall : Type 0 where
  pub loop : Option ℕ
  pub pipeline : Option ℕ
  pub qa : Option ℕ
  pub qb : Option ℕ
  pub valve : Option ℕ
  pub qa_n : ℕ
  pub qb_n : ℕ
  pub vin_n : ℕ
  pub vout_n : ℕ
  pub samples : ℕ

abbrev pub fresh : Stall
fresh = record {
  loop = none;
  pipeline = none;
  qa = none;
  qb = none;
  valve = none;
  qa_n = 0;
  qb_n = 0;
  vin_n = 0;
  vout_n = 0;
  samples = 0;
}

-- The counter that a probe is given
pub data Counter : Type 0 where
  qa_counter qb_counter vin_counter vout_counter : Counter

-- `count_cb`
unfoldable count_cb : Counter → M Stall (Unit {0})
count_cb qa_counter = modify (λ s. record s { qa_n = s.qa_n + 1 })
count_cb qb_counter = modify (λ s. record s { qb_n = s.qb_n + 1 })
count_cb vin_counter = modify (λ s. record s { vin_n = s.vin_n + 1 })
count_cb vout_counter = modify (λ s. record s { vout_n = s.vout_n + 1 })

unfoldable attach_probe : Gst → Option ℕ → Bytes → M Stall (Unit {0})
attach_probe g none padname = pure tt
attach_probe g (some el) padname = do
  pad ← ask_pointer g (static_pad el padname)
  call (add_probe pad)
  call (pad_unref pad)

-- `qlevel` asks the queue; the level is only printed.
qlevel : Option ℕ → M Stall (Unit {0})
qlevel q = call_some (λ q. object_get q (codes "current-level-buffers")) q

-- The name of an object after the calls made so far
abbrev pub Names : Type 0
Names = Trace → ℕ → Bytes

-- The parent is there and its name begins with `x264enc`.
abbrev is_encoder : Names → Trace → Option ℕ → Bool
is_encoder name t none = false
is_encoder name t (some parent) = starts_with (codes "x264enc") (name t parent)

-- Whether the element behind the queue `q` is the encoder
pub feeds_encoder : Gst → Names → ℕ → M Stall Bool
feeds_encoder g name q s t =
    let sp = g.pointer t (static_pad q (codes "src")) in
    let peer = ask_some g pad_peer sp s (static_pad q (codes "src") ∷ t) in
    let parent = ask_some g pad_parent peer.0 s peer.2 in
    (
      is_encoder name parent.2 parent.0,
      s,
      (call_some object_unref parent.0 s (pad_unref peer.0 ∷ pad_unref sp ∷ parent.2)).2,
    )

-- The queue that was found is kept, or given back before the rest of the loop.
keep_or : Bool → ℕ → M Stall (Option ℕ) → M Stall (Option ℕ)
keep_or true q rest = pure (some q)
keep_or false q rest = do call (object_unref q); rest

-- One round of the loop of `find_queue`, with the rest of the loop
try_queue : Gst → Names → Bool → Option ℕ → M Stall (Option ℕ) → M Stall (Option ℕ)
unfolding keep_or
try_queue g name want none rest = rest
try_queue g name want (some q) rest = do
  is_enc ← feeds_encoder g name q
  keep_or (if is_enc then want else not want) q rest

search : Gst → Names → Bool → Option ℕ → List Bytes → M Stall (Option ℕ)
unfolding try_queue
search g name want pipeline [] = pure none
search g name want pipeline (n ∷ ns) = do
  q ← ask_some g (λ p. bin_get_by_name p n) pipeline
  try_queue g name want q (search g name want pipeline ns)

pub find_queue : Gst → Names → Bool → M Stall (Option ℕ)
unfolding search
find_queue g name want = do
  s ← get
  search g name want s.pipeline (codes "queue0" ∷ codes "queue1" ∷ [])

unfoldable on_probe : M Stall (Unit {0})
unfolding qlevel
on_probe = do s ← get; qlevel s.qa; qlevel s.qb

unfoldable on_new_sample : M Stall (Unit {0})
on_new_sample = modify (λ s. record s { samples = s.samples + 1 })

-- `g_object_set(valve, "drop", …)`
set_drop : Bool → M Stall (Unit {0})
set_drop drop = do s ← get; call_some (λ v. object_set v (codes "drop") (flag drop)) s.valve

unfoldable on_reopen : M Stall (Unit {0})
unfolding set_drop
on_reopen = set_drop false

unfoldable on_finish : M Stall (Unit {0})
on_finish = do
  on_probe
  s ← get
  call_some (λ p. set_state p null) s.pipeline
  call_some loop_quit s.loop

unfoldable on_bus_error : M Stall (Unit {0})
on_bus_error = do s ← get; call_some loop_quit s.loop

-- The text that `gst_parse_launch` is given
description : Bytes → Bytes
description variant =
    codes "videotestsrc is-live="
    ++ (if equal variant (codes "nonlive-at") then codes "false" else codes "true")
    ++ codes
        " name=src ! videoconvert ! video/x-raw,format=I420,width=320,height=240,framerate=30/1 ! tee name=t "
    ++ (if equal variant (codes "single-at")
        then []
        else codes "t. ! queue ! x264enc speed-preset=ultrafast tune=zerolatency ! "
          ++ (if equal variant (codes "closed-at-fakeA")
              then codes "fakesink name=fsA"
              else codes "filesink name=fsA location=/tmp/cam-recon/stall-a.264")
          ++ codes " ")
    ++ codes "t. ! queue ! valve name=bv ! appsink name=as emit-signals=true"

-- `main` up to the bus: the pipeline, the valve, the queues and the probes
prepare : Gst → Names → Bytes → M Stall (Unit {0})
unfolding description set_drop
prepare g name variant = do
  pipeline ← ask_pointer g (parse_launch (description variant))
  valve ← ask_some g (λ p. bin_get_by_name p (codes "bv")) pipeline
  appsink ← ask_some g (λ p. bin_get_by_name p (codes "as")) pipeline
  modify (λ s. record s { pipeline = pipeline; valve = valve })
  set_drop (not (equal variant (codes "open")))
  call_some (λ a. object_set a (codes "async") (flag (not (equal variant (codes "closed-af")))))
      appsink
  call_some (λ a. signal_connect a (codes "new-sample") []) appsink
  qa ← branch (equal variant (codes "single-at")) (pure none) (find_queue g name true)
  modify (λ s. record s { qa = qa })
  qb ← find_queue g name false
  modify (λ s. record s { qb = qb })
  attach_probe g qa (codes "sink")
  attach_probe g qb (codes "sink")
  attach_probe g valve (codes "sink")
  attach_probe g valve (codes "src")

-- `main`, with the variant that the command line asks for
unfoldable main : Gst → Names → Bytes → M Stall ℕ
unfolding prepare
main g name variant = do
  call gst_init
  prepare g name variant
  s ← get
  watch_errors g s.pipeline
  call_some (λ p. set_state p playing) s.pipeline
  loop ← ask_pointer g (loop_new none)
  modify (λ s. record s { loop = loop })
  call (timeout_add 1000 (codes "on_probe"))
  call (timeout_add 2000 (codes "on_probe"))
  branch (equal variant (codes "open")) (pure tt) (call (timeout_add 2100 (codes "on_reopen")))
  call (timeout_add 4000 (codes "on_probe"))
  call (timeout_add 5000 (codes "on_finish"))
  wind_up s.pipeline loop
  pure 0
