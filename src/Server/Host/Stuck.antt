-- ===== src/Server/Host/Stuck.antt =====
-- What a set-up of a host leaves where the source chain could not be linked.
use camera_platform.Prelude.{
  ℕ, Bool, true, false, not, Bytes, codes, equal, equal_self, List, Option, none, some, [], ◌∷◌,
  if◌then◌else◌, ◌≡◌, ◌≢◌, refl, sym, ap, ◌∙◌, arith,
}
use camera_platform.Gst.{Gst, Trace}
use camera_platform.Gst.Effects.{branch, branch-outcome}
use camera_platform.Video.Values.{VideoSource, PipelineOutcome, failure}
use camera_platform.Video.Pipeline.{is_some}
use camera_platform.Server.Bin.{ProfileBin, create_element}
use camera_platform.Server.Host.{
  ProfileHost, all_made, finish_branches, add_all, add_branches, add_branch, link_branch,
  link_source, build, create_elements, with_source, setup_pipeline,
}

abbrev pub link_message : Bytes
link_message = codes "Failed to link GStreamer elements"

-- Some other outcome, or the pipeline is still there and the source as before.
abbrev KeepsPipeline : Option VideoSource → PipelineOutcome × ProfileHost × Trace → Type 0
KeepsPipeline s r =
    equal r.0.error link_message ≡ true → (is_some r.1.pipeline ≡ true) × (r.1.video_source ≡ s)

abbrev IsOther : Option Bytes → Type 0
IsOther none = Unit
IsOther (some reason) = equal reason link_message ≡ false

add_branch-IsOther :
    (g : Gst) (pipeline tee bin : Option ℕ) (bs : List ProfileBin) (t : Trace)
    → IsOther (add_branch g pipeline tee bin bs t).0
unfolding add_branch link_branch
add_branch-IsOther g pipeline tee none bs t = refl
add_branch-IsOther g pipeline tee (some bin) bs t = linked _
  where
    linked :
        (b : Bool)
        → IsOther
            (if b then none else some (codes "Failed to link tee pad to profile bin sink pad"))
    linked true = tt
    linked false = refl

-- The first failure, or what the later branches come to.
add_branches-IsOther :
    (g : Gst) (pipeline tee : Option ℕ) (bs : List ProfileBin) (t : Trace)
    → IsOther (add_branches g pipeline tee bs t).0
unfolding add_branches
add_branches-IsOther g pipeline tee [] t = tt
add_branches-IsOther g pipeline tee (b ∷ bs) t =
    go _ _ _ _ _ _
      (add_branch-IsOther g pipeline tee (create_element g b t).0 [] (create_element g b t).2)
      (add_branches-IsOther g pipeline tee bs _)
  where
    go :
        (x y : List ProfileBin) (t u : Trace) (r added : Option Bytes)
        → IsOther added
        → IsOther r
        → IsOther
            (elim added as (λ _. Option Bytes × List ProfileBin × Trace) [
              | some reason ↦ (some reason, x, t)
              | none ↦ (r, y, u)
            ]).0
    go x y t u r none a o = o
    go x y t u r (some reason) a o = a

finish_branches-KeepsPipeline :
    (s : Option VideoSource) (reason : Option Bytes) (h : ProfileHost) (t : Trace)
    → IsOther reason
    → KeepsPipeline s (finish_branches reason h t)
unfolding finish_branches
finish_branches-KeepsPipeline s none h t o = λ e. cc
finish_branches-KeepsPipeline s (some reason) h t o = λ e. absurd (true_ne_false (sym e ∙ o))
  where
    true_ne_false : true ≢ false
    true_ne_false e = cc

link_source-KeepsPipeline :
    (g : Gst) (h : ProfileHost) (t : Trace)
    → all_made h ≡ true
    → KeepsPipeline h.video_source (link_source g h t)
unfolding link_source add_all
link_source-KeepsPipeline g h t e =
    branch-outcome (KeepsPipeline h.video_source) _ _ _ h _
      (λ _ _. (unfold all_made in ground arith, refl))
      (λ _. finish_branches-KeepsPipeline h.video_source _ _ _ (add_branches-IsOther g _ _ _ _))

build-KeepsPipeline :
    (g : Gst) (s : VideoSource) (h : ProfileHost) (t : Trace)
    → KeepsPipeline h.video_source (build g s h t)
unfolding build create_elements
build-KeepsPipeline g s h t =
    branch-outcome (KeepsPipeline h.video_source) _ _ _ _ _ (λ _ e. cc)
      (λ e.
        link_source-KeepsPipeline g (create_elements g s h t).1 (create_elements g s h t).2
          (made _ e))
  where
    made : (b : Bool) → not b ≡ false → b ≡ true
    made true e = refl
    made false e = cc

with_source-KeepsPipeline :
    (g : Gst) (s : Option VideoSource) (h : ProfileHost) (t : Trace)
    → KeepsPipeline h.video_source (with_source g s h t)
unfolding with_source
with_source-KeepsPipeline g none h t = λ e. cc
with_source-KeepsPipeline g (some s) h t =
    branch-outcome (KeepsPipeline h.video_source) (is_some h.pipeline) _ _ h t (λ _ k. cc)
      (λ _. build-KeepsPipeline g s h t)

-- with a source and a pipeline
with_source-refuses :
    (g : Gst) (s : VideoSource) (h : ProfileHost) (t : Trace)
    → is_some h.pipeline ≡ true
    → with_source g (some s) h t ≡ (failure (codes "Pipeline already set up"), h, t)
unfolding with_source branch
with_source-refuses g s h t p = rw p

-- Where `setupPipeline` on a host with a source fails because the source chain could not be linked,
-- every later call of it fails without a call of GStreamer and changes nothing, whatever GStreamer
-- would answer then: the half-built pipeline stays.
pub setup_pipeline_stuck :
    (g g' : Gst) (s : VideoSource) (h : ProfileHost) (t t' : Trace)
    → h.video_source ≡ some s
    → (setup_pipeline g h t).0.error ≡ link_message
    → setup_pipeline g' (setup_pipeline g h t).1 t'
      ≡ (failure (codes "Pipeline already set up"), (setup_pipeline g h t).1, t')
unfolding setup_pipeline
setup_pipeline_stuck g g' s h t t' e f =
    let kept =
      with_source-KeepsPipeline g h.video_source h t
        (ap (λ m. equal m link_message) f ∙ equal_self link_message) in
    ap (λ v. with_source g' v after t') (kept.1 ∙ e) ∙ with_source-refuses g' s after t' kept.0
  where
    after : ProfileHost
    after = (setup_pipeline g h t).1
