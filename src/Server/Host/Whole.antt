-- ===== src/Server/Host/Whole.antt =====
-- What the set-up of a host leaves, on each of its branches.
use camera_platform.Prelude.{
  Bool, true, false, not, Bytes, List, Option, none, some, ◌≡◌, refl, ◌⊎◌, inl, inr, arith,
}
use camera_platform.Gst.{Gst, Trace}
use camera_platform.Gst.Effects.{branch-state}
use camera_platform.Server.Bin.{ProfileBin}
use camera_platform.Video.Values.{VideoSource}
use camera_platform.Server.Host.{
  ProfileHost, all_made, cleanup, finish_branches, add_all, link_source, build, create_elements,
  with_source, setup_pipeline,
}

-- Nothing is left of the pipeline.
abbrev pub IsCleared : ProfileHost → Type 0
IsCleared h =
    (h.pipeline ≡ none)
    × (h.source ≡ none)
    × (h.video_convert ≡ none)
    × (h.source_caps ≡ none)
    × (h.tee ≡ none)
    × (h.is_linked ≡ false)

-- All five elements are there, or nothing is left.
abbrev pub IsWhole : ProfileHost → Type 0
IsWhole h = (all_made h ≡ true) ⊎ IsCleared h

cleanup-IsCleared : (h : ProfileHost) (t : Trace) → IsCleared (cleanup h t).1
unfolding cleanup
cleanup-IsCleared h t = ground arith

pub linked-IsMade :
    (h : ProfileHost) (bins : List ProfileBin)
    → all_made h ≡ true
    → all_made (record h { is_linked = true; bins = bins }) ≡ true
unfolding all_made
linked-IsMade h bins e = e

finish_branches-IsWhole :
    (reason : Option Bytes) (h : ProfileHost) (t : Trace)
    → all_made h ≡ true
    → IsWhole (finish_branches reason h t).1
unfolding finish_branches
finish_branches-IsWhole none h t e = inl e
finish_branches-IsWhole (some reason) h t e = inr (cleanup-IsCleared h t)

link_source-IsWhole :
    (g : Gst) (h : ProfileHost) (t : Trace) → all_made h ≡ true → IsWhole (link_source g h t).1
unfolding link_source add_all
link_source-IsWhole g h t e =
    branch-state IsWhole _ _ _ h _ (λ _. inl e)
      (λ _. finish_branches-IsWhole _ _ _ (linked-IsMade h _ e))

build-IsWhole :
    (g : Gst) (s : VideoSource) (h : ProfileHost) (t : Trace) → IsWhole (build g s h t).1
unfolding build
build-IsWhole g s h t =
    branch-state IsWhole _ _ _ _ _ (λ _. inr (cleanup-IsCleared _ _))
      (λ e.
        link_source-IsWhole g (create_elements g s h t).1 (create_elements g s h t).2 (made _ e))
  where
    made : (b : Bool) → not b ≡ false → b ≡ true
    made true e = refl
    made false e = cc

with_source-IsWhole :
    (g : Gst) (s : Option VideoSource) (h : ProfileHost) (t : Trace)
    → IsWhole h
    → IsWhole (with_source g s h t).1
unfolding with_source
with_source-IsWhole g none h t w = w
with_source-IsWhole g (some s) h t w =
    branch-state IsWhole _ _ _ _ _ (λ _. w) (λ _. build-IsWhole g s h t)

-- `setupPipeline` leaves all five elements of the source chain or none of them, whatever GStreamer
-- answers, if the host was in one of these two states before; where none is left the host is not
-- linked.
pub setup_pipeline-IsWhole :
    (g : Gst) (h : ProfileHost) (t : Trace) → IsWhole h → IsWhole (setup_pipeline g h t).1
unfolding setup_pipeline
setup_pipeline-IsWhole g h t w = with_source-IsWhole g h.video_source h t w
