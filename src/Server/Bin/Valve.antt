-- ===== src/Server/Bin/Valve.antt =====
-- The valve that `ProfileBin::createElement` leaves.
use camera_platform.Prelude.{List, ℕ, false, Option, none, some, ◌∷◌, ◌≡◌, arith}
use camera_platform.Gst.{Gst, Trace, bin_add, link}
use camera_platform.Gst.Observe.{last_drop}
use camera_platform.Gst.Effects.{branch-outcome, call_some}
use camera_platform.Server.Bin.{
  ProfileBin, Parts, set_some, set_drop, configure, expose, drop_bin, clear_parts, create_parts,
  assemble, create_element,
}

-- The valve of the object, if it has one, was last set open.
abbrev pub IsOpen : Option ℕ → Trace → Type 0
IsOpen none t = Unit
IsOpen (some v) t = last_drop v t ≡ some false

configure-IsOpen : (p : Parts) (b : ProfileBin) (t : Trace) → IsOpen b.valve (configure p b t).2
unfolding configure set_some set_drop last_drop
configure-IsOpen p b t = ground arith

-- None of the later calls sets a property.
expose-IsOpen :
    (g : Gst) (p : Parts) (b : ProfileBin) (t : Trace)
    → IsOpen b.valve t
    → IsOpen (expose g p b t).1.valve (expose g p b t).2
unfolding expose last_drop
expose-IsOpen g p b t h = ground arith

drop_bin-IsOpen : (b : ProfileBin) (t : Trace) → IsOpen (drop_bin b t).1.valve (drop_bin b t).2
unfolding drop_bin
drop_bin-IsOpen b t = ground arith

clear_parts-IsOpen :
    (b : ProfileBin) (t : Trace) → IsOpen (clear_parts b t).1.valve (clear_parts b t).2
unfolding clear_parts
clear_parts-IsOpen b t = ground arith

-- Nor does adding the elements to the bin and linking them.
link-IsOpen :
    (w p : Option ℕ) (ps qs : List ℕ) (b : ProfileBin) (t : Trace)
    → IsOpen w t
    → IsOpen w (link qs ∷ (call_some (λ o. bin_add o ps) p b t).2)
unfolding last_drop
link-IsOpen w p ps qs b t h = ground arith

abbrev LeavesOpen : Option ℕ × ProfileBin × Trace → Type 0
LeavesOpen r = IsOpen r.1.valve r.2

assemble-LeavesOpen :
    (g : Gst) (p : Parts) (b : ProfileBin) (t : Trace) → LeavesOpen (assemble g p b t)
unfolding assemble configure set_some set_drop
assemble-LeavesOpen g p b t =
    branch-outcome LeavesOpen _ _ _ b _
      (λ _. expose-IsOpen g p b _ (link-IsOpen b.valve _ _ _ b _ (configure-IsOpen p b t)))
      (λ _. drop_bin-IsOpen b _)

-- A valve that `createElement` leaves was last set open by it, whatever state the profile of the branch
-- reports, `off` included, and whatever GStreamer answers.
pub create_element-IsOpen :
    (g : Gst) (b : ProfileBin) (t : Trace)
    → IsOpen (create_element g b t).1.valve (create_element g b t).2
unfolding create_element create_parts
create_element-IsOpen g b t =
    branch-outcome LeavesOpen _ _ _ _ _
      (λ _.
        assemble-LeavesOpen g (create_parts g b t).0 (create_parts g b t).1 (create_parts g b t).2)
      (λ _. clear_parts-IsOpen (create_parts g b t).1 (create_parts g b t).2)
