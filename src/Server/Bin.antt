-- ===== src/Server/Bin.antt =====
-- server/ProfileBin.cpp: one encoded branch behind the tee.
pub mod Creation
pub mod Losses
pub mod Pads
pub mod Valve
use camera_platform.Prelude.{
  ℕ, ◌-◌, Bool, true, false, ◌||◌, ◌&&◌, Bytes, codes, equal, List, Option, none, some, [], ◌∷◌,
  ◌++◌, if◌then◌else◌, ltb,
}
use camera_platform.Prelude.Int.{ℤ, pos, negsuc}
use camera_platform.Protocol.{state_off, state_ready, state_live, state_error}
use camera_platform.Model.Profile.{ProfileInfo}
use camera_platform.Gst.{
  Gst, Setting, Caps, bin_new, factory_make, object_set, object_get, flag, number, text, caps,
  bin_add, link, static_pad, ghost_pad, add_pad, pad_unref, no_more_pads, object_ref_sink,
  object_unref,
}
use camera_platform.Gst.Effects.{
  M, ◌>>=◌, ◌>>◌, pure, get, modify, branch, call, call_some, ask, ask_pointer,
}
use camera_platform.Video.Pipeline.{is_some}

pub record ProfileBin : Type 0 where
  pub profile : ProfileInfo
  pub bin : Option ℕ
  pub valve : Option ℕ
  pub app_sink : Option ℕ

-- The constructor
abbrev pub new_bin : ProfileInfo → ProfileBin
new_bin info = record { profile = info; bin = none; valve = none; app_sink = none }

-- A `std::uint32_t` that a variadic call reads as a `gint`.
abbrev gint_of : ℕ → ℤ
gint_of n = if ltb n 0x80000000 then pos n else negsuc (0xffffffff - n)

-- `setDrop`
unfoldable pub set_drop : Bool → M ProfileBin (Unit {0})
set_drop drop = do b ← get; call_some (λ v. object_set v (codes "drop") (flag drop)) b.valve

ask_drop : Gst → Option ℕ → M ProfileBin Bool
ask_drop g none = pure false
ask_drop g (some v) = ask g (object_get v (codes "drop"))

-- `isDropped`
unfoldable pub is_dropped : Gst → M ProfileBin Bool
unfolding ask_drop
is_dropped g = do b ← get; ask_drop g b.valve

abbrev pub is_state : Bytes → Bool
is_state state =
    equal state state_off
    || equal state state_ready
    || equal state state_live
    || equal state state_error

-- `setState`
unfoldable pub set_state : Bytes → Bytes → M ProfileBin Bool
set_state state last_error = do
  b ← get
  branch (is_state state)
      (do
        modify (λ b. record b {
          profile = record b.profile { state = state; last_error = last_error };
        })
        pure true)
      (pure false)

-- The elements of a branch beside the three that the object keeps.
pub record Parts : Type 0 where
  pub queue : Option ℕ
  pub scale : Option ℕ
  pub caps_filter : Option ℕ
  pub enc : Option ℕ

unfoldable pub make : Gst → Bytes → Bytes → M ProfileBin (Option ℕ)
make g element name = ask_pointer g (factory_make element name)

-- `createElement` up to the test of what was made
unfoldable pub create_parts : Gst → M ProfileBin Parts
unfolding make
create_parts g = do
  b ← get
  bin ← ask_pointer g (bin_new (codes "profile-" ++ b.profile.name))
  valve ← make g (codes "valve") (codes "valve")
  sink ← make g (codes "appsink") (codes "app-sink")
  modify (λ b. record b { bin = bin; valve = valve; app_sink = sink })
  queue ← make g (codes "queue") (codes "queue")
  scale ← make g (codes "videoscale") (codes "scale")
  filter ← make g (codes "capsfilter") (codes "caps-filter")
  enc ← make g (codes "x264enc") (codes "enc")
  pure (record { queue = queue; scale = scale; caps_filter = filter; enc = enc })

unfoldable pub all_made : ProfileBin → Parts → Bool
all_made b p =
    is_some b.bin
    && is_some b.valve
    && is_some b.app_sink
    && is_some p.queue
    && is_some p.scale
    && is_some p.caps_filter
    && is_some p.enc

-- The caps of the branch
abbrev pub branch_caps : ProfileInfo → Caps
branch_caps info = record {
  format = codes "I420";
  width = gint_of info.width;
  height = gint_of info.height;
  fps_num = gint_of info.fps;
  fps_denom = pos 1;
}

set_some : Option ℕ → Bytes → Setting → M ProfileBin (Unit {0})
set_some p property value = call_some (λ o. object_set o property value) p

-- From the caps to `setDrop(false)`
pub configure : Parts → M ProfileBin (Unit {0})
unfolding set_some
configure p = do
  b ← get
  set_some p.caps_filter (codes "caps") (caps (branch_caps b.profile))
  set_some p.enc (codes "speed-preset") (text (codes "ultrafast"))
  set_some p.enc (codes "tune") (text (codes "zerolatency"))
  set_some p.enc (codes "key-int-max") (number b.profile.fps)
  set_some p.enc (codes "bitrate") (number b.profile.bitrate_kbps)
  set_some b.app_sink (codes "emit-signals") (flag true)
  set_drop false

cons_some : Option ℕ → List ℕ → List ℕ
cons_some none ps = ps
cons_some (some p) ps = p ∷ ps

-- queue, valve, scale, capsfilter, encoder and sink, in the order of the chain
branch_chain : ProfileBin → Parts → List ℕ
unfolding cons_some
branch_chain b p = cons_some p.queue (
    cons_some b.valve
      (cons_some p.scale (cons_some p.caps_filter (cons_some p.enc (cons_some b.app_sink [])))))

-- From the ghost pad to the end
expose : Gst → Parts → M ProfileBin (Option ℕ)
expose g p = do
  b ← get
  pad ← ask_static p.queue
  ghost ← ask_pointer g (ghost_pad (codes "sink") pad)
  call_some (λ o. add_pad o ghost) b.bin
  call (pad_unref pad)
  call_some no_more_pads b.bin
  call_some object_ref_sink b.bin
  pure b.bin
  where
    ask_static : Option ℕ → M ProfileBin (Option ℕ)
    ask_static none = pure none
    ask_static (some q) = ask_pointer g (static_pad q (codes "sink"))

-- `g_clear_object(&m_bin)`, and the pointers into it.
drop_bin : M ProfileBin (Option ℕ)
drop_bin = do
  b ← get
  call_some object_unref b.bin
  modify (λ b. record b { bin = none; valve = none; app_sink = none })
  pure none

-- `g_clear_object` of the three that the object keeps.
clear_parts : M ProfileBin (Option ℕ)
clear_parts = do
  b ← get
  call_some object_unref b.bin
  call_some object_unref b.valve
  call_some object_unref b.app_sink
  modify (λ b. record b { bin = none; valve = none; app_sink = none })
  pure none

-- `createElement` once the elements are made
assemble : Gst → Parts → M ProfileBin (Option ℕ)
unfolding configure
assemble g p = do
  configure p
  b ← get
  call_some (λ o. bin_add o (branch_chain b p)) b.bin
  linked ← ask g (link (branch_chain b p))
  branch linked (expose g p) drop_bin

-- `createElement`: the bin, or null.
unfoldable pub create_element : Gst → M ProfileBin (Option ℕ)
unfolding create_parts assemble clear_parts branch_chain expose drop_bin
create_element g = do p ← create_parts g; b ← get; branch (all_made b p) (assemble g p) clear_parts

-- The destructor
unfoldable pub destroy_bin : M ProfileBin (Unit {0})
destroy_bin = do
  b ← get
  branch (is_some b.bin)
      (do call_some object_unref b.bin; modify (λ b. record b { valve = none; app_sink = none }))
      (pure tt)
  c ← get
  call_some object_unref c.valve
  call_some object_unref c.app_sink
