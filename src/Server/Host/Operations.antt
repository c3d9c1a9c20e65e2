-- ===== src/Server/Host/Operations.antt =====
-- Any use of a host of server/ProfileHost.cpp: its public operations and the messages of its bus, in any
-- order.
pub mod Sources
use camera_platform.Prelude.{
  ℕ, Bool, Bytes, List, Option, none, some, [], ◌∷◌, if◌then◌else◌, ◌≡◌, refl, sym, inr, subst,
}
use camera_platform.Gst.{Gst, GstState, Trace, set_state, create_watch, get_bus}
use camera_platform.Gst.Effects.{M, ◌>>=◌, ◌>>◌, pure, ask_some, branch-state}
use camera_platform.Model.Profile.{ProfileInfo}
use camera_platform.Video.Values.{VideoSource, PipelineOutcome, success, failure}
use camera_platform.Server.Bin.{ProfileBin}
use camera_platform.Server.Host.{ProfileHost, new_host, set_video_source, setup_pipeline, all_made}
use camera_platform.Server.Host.Whole.{IsWhole, setup_pipeline-IsWhole}
use camera_platform.Server.Host.Control.{
  set_profile_enabled, enabled_outcome, play, stop, change_state, attach_bus_watch,
  detach_bus_watch, detach_from, watch_bus, attach_source, on_bus_message, pop_message,
}

pub data Operation : Type 0 where
  sets_source : Option VideoSource → Operation
  sets_up plays stops detaches message : Operation
  switches : Bytes → Bool → Operation
  -- the context and the callback
  attaches : Option ℕ → Option ℕ → Operation

drop_result : {A : Type 0} → M ProfileHost A → M ProfileHost (Unit {0})
drop_result m = do x ← m; pure tt

unfoldable pub operate : Gst → Operation → M ProfileHost (Unit {0})
unfolding drop_result
operate g (sets_source s) = drop_result (set_video_source s)
operate g sets_up = drop_result (setup_pipeline g)
operate g plays = drop_result (play g)
operate g stops = drop_result (stop g)
operate g detaches = detach_bus_watch
operate g message = drop_result (on_bus_message g)
operate g (switches name enabled) = drop_result (set_profile_enabled name enabled)
operate g (attaches context callback) = drop_result (attach_bus_watch g context callback)

unfoldable pub operate_all : Gst → List Operation → M ProfileHost (Unit {0})
operate_all g [] = pure tt
operate_all g (o ∷ os) = do operate g o; operate_all g os

change_state-IsWhole :
    (g : Gst) (state : GstState) (reason : Bytes) (h : ProfileHost) (t : Trace)
    → IsWhole h
    → IsWhole (change_state g state reason h t).1
unfolding change_state
change_state-IsWhole g state reason h t w = go h.pipeline
  where
    go :
        (p : Option ℕ)
        → IsWhole
            (elim p as (λ _. PipelineOutcome × ProfileHost × Trace) [
              | none ↦ (failure reason, h, t)
              | some p ↦ (
                if g.succeeds t (set_state p state) then success else failure reason,
                h,
                set_state p state ∷ t,
              )
            ]).1
    go none = w
    go (some p) = w

detach_from-IsWhole :
    (p : Option ℕ) (h : ProfileHost) (t : Trace) → IsWhole h → IsWhole (detach_from p h t).1
unfolding detach_from all_made
detach_from-IsWhole none h t w = w
detach_from-IsWhole (some p) h t w = w

attach_source-IsWhole :
    (context callback bus : ℕ) (p : Option ℕ) (h : ProfileHost) (t : Trace)
    → IsWhole h
    → IsWhole (attach_source context callback bus p h t).1
unfolding attach_source all_made
attach_source-IsWhole context callback bus none h t w = w
attach_source-IsWhole context callback bus (some p) h t w = w

watch_bus-IsWhole :
    (g : Gst) (context callback : ℕ) (bus : Option ℕ) (h : ProfileHost) (t : Trace)
    → IsWhole h
    → IsWhole (watch_bus g context callback bus h t).1
unfolding watch_bus all_made
watch_bus-IsWhole g context callback none h t w = w
watch_bus-IsWhole g context callback (some bus) h t w =
    attach_source-IsWhole context callback bus (g.pointer t (create_watch bus))
      (record h { bus_source = g.pointer t (create_watch bus) }) (create_watch bus ∷ t) w

attach_bus_watch-IsWhole :
    (g : Gst) (context callback : Option ℕ) (h : ProfileHost) (t : Trace)
    → IsWhole h
    → IsWhole (attach_bus_watch g context callback h t).1
unfolding attach_bus_watch detach_bus_watch
attach_bus_watch-IsWhole g none callback h t w = w
attach_bus_watch-IsWhole g (some context) none h t w = w
attach_bus_watch-IsWhole g (some context) (some callback) h t w =
    branch-state IsWhole _ _ _ h t (λ _. w)
      λ _.
        let d = detach_from h.bus_source h t in
        watch_bus-IsWhole g context callback (ask_some g get_bus h.pipeline d.1 d.2).0 d.1 _
          (detach_from-IsWhole h.bus_source h t w)

pop_message-state :
    (g : Gst) (w : Option ℕ) (h : ProfileHost) (t : Trace) → (pop_message g w h t).1 ≡ h
unfolding pop_message
pop_message-state g none h t = refl
pop_message-state g (some w) h t = refl

enabled_outcome-IsWhole :
    (h : ProfileHost) (t : Trace) (r : Option (Bool × List ProfileBin × Trace))
    → IsWhole h
    → IsWhole (enabled_outcome h t r).1
unfolding enabled_outcome all_made
enabled_outcome-IsWhole h t none w = w
enabled_outcome-IsWhole h t (some r) w = w

operate-IsWhole :
    (g : Gst) (o : Operation) (h : ProfileHost) (t : Trace)
    → IsWhole h
    → IsWhole (operate g o h t).1
unfolding operate drop_result set_video_source play stop set_profile_enabled detach_bus_watch
    all_made on_bus_message pop_message
operate-IsWhole g (sets_source s) h t w = w
operate-IsWhole g sets_up h t w = setup_pipeline-IsWhole g h t w
operate-IsWhole g plays h t w =
    branch-state IsWhole _ _ _ h t (λ _. w) (λ _. change_state-IsWhole g _ _ h t w)
operate-IsWhole g stops h t w =
    branch-state IsWhole _ _ _ h t (λ _. w) (λ _. change_state-IsWhole g _ _ h t w)
operate-IsWhole g detaches h t w = detach_from-IsWhole h.bus_source h t w
operate-IsWhole g message h t w = subst IsWhole (sym (pop_message-state g h.bus_source h t)) w
operate-IsWhole g (switches name enabled) h t w = enabled_outcome-IsWhole h t _ w
operate-IsWhole g (attaches context callback) h t w =
    attach_bus_watch-IsWhole g context callback h t w

operate_all-IsWhole :
    (g : Gst) (os : List Operation) (h : ProfileHost) (t : Trace)
    → IsWhole h
    → IsWhole (operate_all g os h t).1
unfolding operate_all
operate_all-IsWhole g [] h t w = w
operate_all-IsWhole g (o ∷ os) h t w = operate_all-IsWhole g os _ _ (operate-IsWhole g o h t w)

-- After any sequence of the public operations and of bus messages on a new host, and whatever GStreamer
-- answers, the host has all five elements of the source chain, or it has none of them and is not linked.
pub operate_all-new_host :
    (g : Gst) (profiles : List ProfileInfo) (os : List Operation) (t : Trace)
    → IsWhole (operate_all g os (new_host profiles) t).1
unfolding new_host
operate_all-new_host g profiles os t =
    operate_all-IsWhole g os (new_host profiles) t (inr (refl, refl, refl, refl, refl, refl))
