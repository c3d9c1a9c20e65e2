-- ===== src/Labs/Branches/Pads.antt =====
-- The pads of a branch of labs/lab3-profile-bin.cpp and labs/lab4-profile-host.cpp.
use camera_platform.Prelude.{ℕ, codes, Option, List, [], ◌∷◌, arith}
use camera_platform.Gst.{Gst, Trace, link, bin_add, factory_make, bin_new}
use camera_platform.Gst.Effects.{branch-outcome, call_some, ask_pointer, until_null}
use camera_platform.Gst.Observe.{PadsGivenBack, PadsGivenBack-trans, taken, given}
use camera_platform.Labs.Branches.{
  ProfileCfg, profile_bin_new, attach_branch, build_source, expose, set_properties, link_branch,
  fill_source,
}

set_properties-PadsGivenBack :
    {S : Type 0} (g : Gst) (cfg : ProfileCfg) (filter enc sink : Option ℕ) (l : S) (t : Trace)
    → PadsGivenBack g t (set_properties cfg filter enc sink l t).2
unfolding set_properties taken given
set_properties-PadsGivenBack g cfg filter enc sink l t = ground arith

expose-PadsGivenBack :
    {S : Type 0} (g : Gst) (bin queue : Option ℕ) (l : S) (t : Trace)
    → PadsGivenBack g t (expose g bin queue l t).2
unfolding expose taken given
expose-PadsGivenBack g bin queue l t = ground arith

filled-PadsGivenBack :
    {S : Type 0} (g : Gst) (ps qs : List ℕ) (bin : Option ℕ) (l : S) (t : Trace)
    → PadsGivenBack g t (link ps ∷ (call_some (λ b. bin_add b qs) bin l t).2)
unfolding taken given
filled-PadsGivenBack g ps qs bin l t = ground arith

profile_bin_new-PadsGivenBack :
    {S : Type 0} (g : Gst) (cfg : ProfileCfg) (l : S) (t : Trace)
    → PadsGivenBack g t (profile_bin_new g cfg l t).2
unfolding profile_bin_new taken given
profile_bin_new-PadsGivenBack g cfg l t =
    let bin = ask_pointer g (bin_new cfg.name) l t in
    let queue = ask_pointer g (factory_make (codes "queue") (codes "pq")) l bin.2 in
    let valve = ask_pointer g (factory_make (codes "valve") (codes "pvalve")) l queue.2 in
    let scale = ask_pointer g (factory_make (codes "videoscale") (codes "pscale")) l valve.2 in
    let filter = ask_pointer g (factory_make (codes "capsfilter") (codes "pcaps")) l scale.2 in
    let enc = ask_pointer g (factory_make (codes "x264enc") (codes "penc")) l filter.2 in
    let sink = ask_pointer g (factory_make (codes "filesink") (codes "psink")) l enc.2 in
    let ps = until_null (queue.0 ∷ valve.0 ∷ scale.0 ∷ filter.0 ∷ enc.0 ∷ sink.0 ∷ []) in
    let u = set_properties cfg filter.0 enc.0 sink.0 l sink.2 in
    let v = link ps ∷ (call_some (λ b. bin_add b ps) bin.0 u.1 u.2).2 in
    let filled =
      PadsGivenBack-trans g t u.2 v
        (set_properties-PadsGivenBack g cfg filter.0 enc.0 sink.0 l sink.2)
        (filled-PadsGivenBack g ps ps bin.0 u.1 u.2) in
    branch-outcome (λ x. PadsGivenBack g t x.2) _ _ _ u.1 v
      (λ _.
        PadsGivenBack-trans g t v (expose g bin.0 queue.0 u.1 v).2 filled
          (expose-PadsGivenBack g bin.0 queue.0 u.1 v))
      (λ _. filled)

-- Linking a bin behind the tee
linked-PadsGivenBack :
    {S : Type 0} (g : Gst) (pipeline tee profile : Option ℕ) (l : S) (t : Trace)
    → PadsGivenBack g t (link_branch g pipeline tee profile l t).2
unfolding link_branch taken given
linked-PadsGivenBack g pipeline tee profile l t = ground arith

pub attach_branch-PadsGivenBack :
    {S : Type 0} (g : Gst) (pipeline tee : Option ℕ) (cfg : ProfileCfg) (l : S) (t : Trace)
    → PadsGivenBack g t (attach_branch g pipeline tee cfg l t).2
unfolding attach_branch
attach_branch-PadsGivenBack g pipeline tee cfg l t =
    let made = profile_bin_new g cfg l t in
    PadsGivenBack-trans g t made.2 (link_branch g pipeline tee made.0 made.1 made.2).2
      (profile_bin_new-PadsGivenBack g cfg l t)
      (linked-PadsGivenBack g pipeline tee made.0 made.1 made.2)

fill_source-PadsGivenBack :
    {S : Type 0} (g : Gst) (pipeline src capsf : Option ℕ) (chain : List ℕ) (l : S) (t : Trace)
    → PadsGivenBack g t (fill_source pipeline src capsf chain l t).2
unfolding fill_source taken given
fill_source-PadsGivenBack g pipeline src capsf chain l t = ground arith

pub build_source-PadsGivenBack :
    {S : Type 0} (g : Gst) (pipeline : Option ℕ) (l : S) (t : Trace)
    → PadsGivenBack g t (build_source g pipeline l t).2
unfolding build_source taken given
build_source-PadsGivenBack g pipeline l t =
    let src = ask_pointer g (factory_make (codes "videotestsrc") (codes "src")) l t in
    let conv = ask_pointer g (factory_make (codes "videoconvert") (codes "conv")) l src.2 in
    let capsf = ask_pointer g (factory_make (codes "capsfilter") (codes "srccaps")) l conv.2 in
    let tee = ask_pointer g (factory_make (codes "tee") (codes "tee")) l capsf.2 in
    fill_source-PadsGivenBack g pipeline src.0 capsf.0
      (until_null (src.0 ∷ conv.0 ∷ capsf.0 ∷ tee.0 ∷ [])) l tee.2
