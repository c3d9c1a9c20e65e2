-- ===== src/Server/Host/Linked.antt =====
-- What a set-up of a host that succeeds has made.
use camera_platform.Prelude.{Bool, true, false, not, Bytes, Option, none, some, ◌≡◌, refl}
use camera_platform.Gst.{Gst, Trace}
use camera_platform.Gst.Effects.{branch-outcome}
use camera_platform.Video.Values.{VideoSource, PipelineOutcome}
use camera_platform.Server.Host.{
  ProfileHost, all_made, finish_branches, add_all, link_source, build, create_elements, with_source,
  setup_pipeline,
}
use camera_platform.Server.Host.Whole.{linked-IsMade}

-- The host has all five elements and is linked.
abbrev pub IsLinked : ProfileHost → Type 0
IsLinked h = (all_made h ≡ true) × (h.is_linked ≡ true)

abbrev LinksIfOk : PipelineOutcome × ProfileHost × Trace → Type 0
LinksIfOk r = r.0.ok ≡ true → IsLinked r.1

finish_branches-LinksIfOk :
    (reason : Option Bytes) (h : ProfileHost) (t : Trace)
    → IsLinked h
    → LinksIfOk (finish_branches reason h t)
unfolding finish_branches
finish_branches-LinksIfOk none h t l ok = l
finish_branches-LinksIfOk (some reason) h t l ok = cc

link_source-LinksIfOk :
    (g : Gst) (h : ProfileHost) (t : Trace) → all_made h ≡ true → LinksIfOk (link_source g h t)
unfolding link_source add_all
link_source-LinksIfOk g h t e =
    branch-outcome LinksIfOk _ _ _ h _ (λ _ ok. cc)
      (λ _. finish_branches-LinksIfOk _ _ _ (linked-IsMade h _ e, refl))

build-LinksIfOk :
    (g : Gst) (s : VideoSource) (h : ProfileHost) (t : Trace) → LinksIfOk (build g s h t)
unfolding build
build-LinksIfOk g s h t =
    branch-outcome LinksIfOk _ _ _ _ _ (λ _ ok. cc)
      (λ e.
        link_source-LinksIfOk g (create_elements g s h t).1 (create_elements g s h t).2 (made _ e))
  where
    made : (b : Bool) → not b ≡ false → b ≡ true
    made true e = refl
    made false e = cc

with_source-LinksIfOk :
    (g : Gst) (s : Option VideoSource) (h : ProfileHost) (t : Trace)
    → LinksIfOk (with_source g s h t)
unfolding with_source
with_source-LinksIfOk g none h t = λ ok. cc
with_source-LinksIfOk g (some s) h t =
    branch-outcome LinksIfOk _ _ _ _ _ (λ _ ok. cc) (λ _. build-LinksIfOk g s h t)

-- Where `setupPipeline` reports success, the host has all five elements of the source chain and is
-- linked, so that `play` and `stop` reach the pipeline.
pub setup_pipeline_ok :
    (g : Gst) (h : ProfileHost) (t : Trace)
    → (setup_pipeline g h t).0.ok ≡ true
    → IsLinked (setup_pipeline g h t).1
unfolding setup_pipeline
setup_pipeline_ok g h t ok = with_source-LinksIfOk g h.video_source h t ok
