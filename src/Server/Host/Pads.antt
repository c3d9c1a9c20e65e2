-- ===== src/Server/Host/Pads.antt =====
-- What the set-up of server/ProfileHost.cpp takes to link its branches, and gives back.
use camera_platform.Prelude.{ℕ, true, Bytes, codes, Option, List, none, some, [], ◌∷◌, refl, arith}
use camera_platform.Gst.{Gst, Trace, link, bin_add, object_set, caps}
use camera_platform.Gst.Effects.{branch, branch-outcome, call_some}
use camera_platform.Gst.Observe.{Kind, pad, PadsGivenBack, GivenBack, GivenBack-trans, taken, given}
use camera_platform.Video.Values.{VideoSource, default_caps}
use camera_platform.Server.Bin.{ProfileBin, create_element}
use camera_platform.Server.Bin.Pads.{create_element-GivenBack}
use camera_platform.Server.Host.{
  ProfileHost, setup_pipeline, with_source, build, create_elements, link_source, add_all,
  finish_branches, cleanup, add_branches, add_branch, link_branch, source_chain,
}

add_branch-GivenBack :
    (g : Gst) (k : Kind) (pipeline tee made : Option ℕ) (t : Trace)
    → GivenBack g k t (add_branch g pipeline tee made [] t).2
unfolding add_branch link_branch taken given
add_branch-GivenBack g k pipeline tee made t = ground arith

add_branches-GivenBack :
    (g : Gst) (k : Kind) (pipeline tee : Option ℕ) (bs : List ProfileBin) (t : Trace)
    → GivenBack g k t (add_branches g pipeline tee bs t).2
unfolding add_branches
add_branches-GivenBack g k pipeline tee [] t = refl
add_branches-GivenBack g k pipeline tee (b ∷ bs) t =
    let made = create_element g b t in
    let added = add_branch g pipeline tee made.0 [] made.2 in
    let h =
      GivenBack-trans g k t made.2 added.2 (create_element-GivenBack g k b t)
        (add_branch-GivenBack g k pipeline tee made.0 made.2) in
    go (made.1) added.0 added.2 (add_branches g pipeline tee bs added.2) h (
      GivenBack-trans g k t added.2 (add_branches g pipeline tee bs added.2).2 h
        (add_branches-GivenBack g k pipeline tee bs added.2))
  where
    go :
        (made : ProfileBin) (reason : Option Bytes) (u : Trace)
        (rest : Option Bytes × List ProfileBin × Trace)
        → GivenBack g k t u
        → GivenBack g k t rest.2
        → GivenBack g k t
            (elim reason as (λ _. Option Bytes × List ProfileBin × Trace) [
              | some why ↦ (some why, made ∷ bs, u)
              | none ↦ (rest.0, made ∷ rest.1, rest.2)
            ]).2
    go made none u rest h k = k
    go made (some why) u rest h k = h

cleanup-GivenBack :
    (g : Gst) (k : Kind) (h : ProfileHost) (t : Trace) → GivenBack g k t (cleanup h t).2
unfolding cleanup branch taken given
cleanup-GivenBack g k h t = ground arith

finish_branches-GivenBack :
    (g : Gst) (k : Kind) (reason : Option Bytes) (h : ProfileHost) (t : Trace)
    → GivenBack g k t (finish_branches reason h t).2
unfolding finish_branches
finish_branches-GivenBack g k none h t = refl
finish_branches-GivenBack g k (some why) h t = cleanup-GivenBack g k h t

-- Giving the source its caps, adding the source chain to the pipeline and linking it take no pad.
linked-GivenBack :
    (g : Gst) (k : Kind) (filter pipeline : Option ℕ) (ps : List ℕ) (h : ProfileHost) (t : Trace)
    → GivenBack g k t (
        link ps
        ∷ (call_some
            (λ p. bin_add p ps)
            pipeline
            h
            (call_some (λ e. object_set e (codes "caps") (caps default_caps)) filter h t).2).2)
unfolding taken given
linked-GivenBack g k filter pipeline ps h t = ground arith

link_source-GivenBack :
    (g : Gst) (k : Kind) (h : ProfileHost) (t : Trace) → GivenBack g k t (link_source g h t).2
unfolding link_source add_all
link_source-GivenBack g k h t =
    let u =
      (call_some (λ p. bin_add p (source_chain h)) h.pipeline h
        (call_some (λ e. object_set e (codes "caps") (caps default_caps)) h.source_caps h t).2).2 in
    let linked = linked-GivenBack g k h.source_caps h.pipeline (source_chain h) h t in
    branch-outcome (λ x. GivenBack g k t x.2) _ _ _ h (link (source_chain h) ∷ u) (λ _. linked)
      λ _.
        let r = add_branches g h.pipeline h.tee h.bins (link (source_chain h) ∷ u) in
        GivenBack-trans g k t r.2 _
          (GivenBack-trans g k t (link (source_chain h) ∷ u) r.2 linked
            (add_branches-GivenBack g k h.pipeline h.tee h.bins (link (source_chain h) ∷ u)))
          (finish_branches-GivenBack g k r.0 (record h { is_linked = true; bins = r.1 }) r.2)

create_elements-GivenBack :
    (g : Gst) (k : Kind) (src : VideoSource) (h : ProfileHost) (t : Trace)
    → GivenBack g k t (create_elements g src h t).2
unfolding create_elements taken given
create_elements-GivenBack g k src h t = ground arith

build-GivenBack :
    (g : Gst) (k : Kind) (src : VideoSource) (h : ProfileHost) (t : Trace)
    → GivenBack g k t (build g src h t).2
unfolding build
build-GivenBack g k src h t =
    let made = create_elements g src h t in
    branch-outcome (λ x. GivenBack g k t x.2) _ _ _ made.1 made.2
      (λ _.
        GivenBack-trans g k t made.2 (cleanup made.1 made.2).2
          (create_elements-GivenBack g k src h t) (cleanup-GivenBack g k made.1 made.2))
      (λ _.
        GivenBack-trans g k t made.2 (link_source g made.1 made.2).2
          (create_elements-GivenBack g k src h t) (link_source-GivenBack g k made.1 made.2))

-- `setupPipeline` gives back all that it takes of each kind.
pub setup_pipeline-GivenBack :
    (g : Gst) (k : Kind) (h : ProfileHost) (t : Trace) → GivenBack g k t (setup_pipeline g h t).2
unfolding setup_pipeline with_source
setup_pipeline-GivenBack g k h t = go h.video_source
  where
    go : (src : Option VideoSource) → GivenBack g k t (with_source g src h t).2
    go none = refl
    go (some src) =
        branch-outcome (λ x. GivenBack g k t x.2) _ _ _ h t (λ _. refl)
          (λ _. build-GivenBack g k src h t)

-- `setupPipeline` gives back every pad that it takes, those of the tee and of the bins included, on each
-- of its paths and whatever GStreamer answers.
setup_pipeline-PadsGivenBack :
    (g : Gst) (h : ProfileHost) (t : Trace) → PadsGivenBack g t (setup_pipeline g h t).2
setup_pipeline-PadsGivenBack g h t = setup_pipeline-GivenBack g pad h t
