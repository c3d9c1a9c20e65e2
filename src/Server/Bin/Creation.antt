-- ===== src/Server/Bin/Creation.antt =====
-- What `ProfileBin::createElement` leaves in the object.
use camera_platform.Prelude.{ℕ, true, Option, none, ◌≡◌, ◌⊎◌, arith}
use camera_platform.Model.Profile.{ProfileInfo}
use camera_platform.Gst.{Gst, Trace}
use camera_platform.Gst.Effects.{branch-outcome}
use camera_platform.Video.Pipeline.{is_some}
use camera_platform.Server.Bin.{
  ProfileBin, Parts, all_made, set_some, set_drop, configure, expose, drop_bin, clear_parts,
  create_parts, assemble, create_element,
}

-- Nothing is left of the branch.
abbrev pub IsBare : ProfileBin → Type 0
IsBare b = (b.bin ≡ none) × (b.valve ≡ none) × (b.app_sink ≡ none)

-- The branch has its bin, its valve and its sink.
abbrev pub IsBuilt : ProfileBin → Type 0
IsBuilt b = (is_some b.bin ≡ true) × (is_some b.valve ≡ true) × (is_some b.app_sink ≡ true)

-- The object after the call, and the bin that the call answers.
abbrev pub Created : ProfileInfo → Option ℕ × ProfileBin × Trace → Type 0
Created info r = (r.1.profile ≡ info) × (r.0 ≡ r.1.bin) × (IsBare r.1 ⊎ IsBuilt r.1)

expose-Created :
    (g : Gst) (p : Parts) (b : ProfileBin) (t : Trace)
    → IsBuilt b
    → Created b.profile (expose g p b t)
unfolding expose
expose-Created g p b t h = ground arith

drop_bin-Created : (b : ProfileBin) (t : Trace) → Created b.profile (drop_bin b t)
unfolding drop_bin
drop_bin-Created b t = ground arith

clear_parts-Created : (b : ProfileBin) (t : Trace) → Created b.profile (clear_parts b t)
unfolding clear_parts
clear_parts-Created b t = ground arith

all_made-IsBuilt : (b : ProfileBin) (p : Parts) → all_made b p ≡ true → IsBuilt b
unfolding all_made
all_made-IsBuilt b p h = ground arith

assemble-Created :
    (g : Gst) (p : Parts) (b : ProfileBin) (t : Trace)
    → IsBuilt b
    → Created b.profile (assemble g p b t)
unfolding assemble configure set_some set_drop
assemble-Created g p b t h =
    branch-outcome (Created b.profile) _ _ _ b _ (λ _. expose-Created g p b _ h)
      (λ _. drop_bin-Created b _)

-- `createElement` leaves the profile as it is and answers the bin that the object then holds: either
-- with a valve and a sink, or, where an element could not be made or linked, null with none of the
-- three left, whatever GStreamer answers.
create_element-Created :
    (g : Gst) (b : ProfileBin) (t : Trace) → Created b.profile (create_element g b t)
unfolding create_element create_parts
create_element-Created g b t =
    branch-outcome (Created b.profile) _ _ _ _ _
      (λ e.
        assemble-Created g (create_parts g b t).0 (create_parts g b t).1 (create_parts g b t).2
          (all_made-IsBuilt (create_parts g b t).1 (create_parts g b t).0 e))
      (λ _. clear_parts-Created (create_parts g b t).1 (create_parts g b t).2)
