-- ===== src/Server/Bin/Pads.antt =====
-- The pads, contexts, loops and sources that server/ProfileBin.cpp takes and gives back.
use camera_platform.Prelude.{ℕ, Option, List, ◌∷◌, arith}
use camera_platform.Gst.{Gst, Trace, link, bin_add}
use camera_platform.Gst.Effects.{branch-outcome, call_some}
use camera_platform.Gst.Observe.{Kind, GivenBack, GivenBack-trans, taken, given}
use camera_platform.Server.Bin.{
  ProfileBin, Parts, create_element, create_parts, assemble, configure, set_some, set_drop, expose,
  drop_bin, clear_parts, branch_chain,
}

expose-GivenBack :
    (g : Gst) (k : Kind) (p : Parts) (b : ProfileBin) (t : Trace)
    → GivenBack g k t (expose g p b t).2
unfolding expose taken given
expose-GivenBack g k p b t = ground arith

drop_bin-GivenBack :
    (g : Gst) (k : Kind) (b : ProfileBin) (t : Trace) → GivenBack g k t (drop_bin b t).2
unfolding drop_bin taken given
drop_bin-GivenBack g k b t = ground arith

clear_parts-GivenBack :
    (g : Gst) (k : Kind) (b : ProfileBin) (t : Trace) → GivenBack g k t (clear_parts b t).2
unfolding clear_parts taken given
clear_parts-GivenBack g k b t = ground arith

configure-GivenBack :
    (g : Gst) (k : Kind) (p : Parts) (b : ProfileBin) (t : Trace)
    → GivenBack g k t (configure p b t).2
unfolding configure set_some set_drop taken given
configure-GivenBack g k p b t = ground arith

linked-GivenBack :
    (g : Gst) (k : Kind) (ps qs : List ℕ) (bin : Option ℕ) (b : ProfileBin) (t : Trace)
    → GivenBack g k t (link ps ∷ (call_some (λ o. bin_add o qs) bin b t).2)
unfolding taken given
linked-GivenBack g k ps qs bin b t = ground arith

assemble-GivenBack :
    (g : Gst) (k : Kind) (p : Parts) (b : ProfileBin) (t : Trace)
    → GivenBack g k t (assemble g p b t).2
unfolding assemble
assemble-GivenBack g k p b t =
    let c = configure p b t in
    let u =
      link (branch_chain c.1 p)
      ∷ (call_some (λ o. bin_add o (branch_chain c.1 p)) c.1.bin c.1 c.2).2 in
    let linked =
      GivenBack-trans g k t c.2 u (configure-GivenBack g k p b t)
        (linked-GivenBack g k (branch_chain c.1 p) (branch_chain c.1 p) c.1.bin c.1 c.2) in
    branch-outcome (λ x. GivenBack g k t x.2) _ _ _ c.1 u
      (λ _. GivenBack-trans g k t u (expose g p c.1 u).2 linked (expose-GivenBack g k p c.1 u))
      (λ _. GivenBack-trans g k t u (drop_bin c.1 u).2 linked (drop_bin-GivenBack g k c.1 u))

-- `createElement` gives back all that it takes of each kind, whatever GStreamer answers.
pub create_element-GivenBack :
    (g : Gst) (k : Kind) (b : ProfileBin) (t : Trace) → GivenBack g k t (create_element g b t).2
unfolding create_element create_parts taken given
create_element-GivenBack g k b t =
    branch-outcome (λ x. GivenBack g k t x.2) _ _ _ _ _
      (λ _.
        assemble-GivenBack g k (create_parts g b t).0 (create_parts g b t).1 (create_parts g b t).2)
      (λ _. clear_parts-GivenBack g k (create_parts g b t).1 (create_parts g b t).2)
