-- ===== src/Labs/OneBranch/Pads.antt =====
-- The pads of the pipeline of labs/lab3-profile-bin.cpp.
use camera_platform.Prelude.{codes, ◌∷◌}
use camera_platform.Gst.{Gst, Trace, pipeline_new}
use camera_platform.Gst.Observe.{PadsGivenBack, PadsGivenBack-trans, taken, given}
use camera_platform.Labs.Branches.{build_source, attach_branch}
use camera_platform.Labs.Branches.Pads.{build_source-PadsGivenBack, attach_branch-PadsGivenBack}
use camera_platform.Labs.OneBranch.{Lab, build_host, only_profile}

-- `build_host` of lab 3 gives back every pad that it takes, those of the tee and of the bin included,
-- whether or not the branch could be linked and whatever GStreamer answers.
build_host-PadsGivenBack : (g : Gst) (l : Lab) (t : Trace) → PadsGivenBack g t (build_host g l t).2
unfolding build_host taken given
build_host-PadsGivenBack g l t =
    let p = g.pointer t (pipeline_new (codes "host")) in
    let tee = build_source g p l (pipeline_new (codes "host") ∷ t) in
    PadsGivenBack-trans g t tee.2 (attach_branch g p tee.0 only_profile tee.1 tee.2).2
      (build_source-PadsGivenBack g p l (pipeline_new (codes "host") ∷ t))
      (attach_branch-PadsGivenBack g p tee.0 only_profile tee.1 tee.2)
