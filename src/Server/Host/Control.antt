-- ===== src/Server/Host/Control.antt =====
-- server/ProfileHost.cpp: the operations on a host beside its set-up.
pub mod Catalog
pub mod Release
pub mod Sources
pub mod Valves
use camera_platform.Prelude.{
  ℕ, Bool, true, false, not, Bytes, codes, equal, List, Option, none, some, [], ◌∷◌, map,
  if◌then◌else◌,
}
use camera_platform.Protocol.{state_off, state_ready}
use camera_platform.Model.Profile.{ProfileInfo}
use camera_platform.Gst.{
  Gst, Trace, set_state, null, paused, playing, get_bus, create_watch, set_callback, source_attach,
  source_destroy, source_unref, bus_unref, bus_pop, message_unref, GstState,
}
use camera_platform.Gst.Effects.{
  M, ◌>>=◌, ◌>>◌, pure, get, modify, branch, call, ask, ask_pointer, ask_some,
}
use camera_platform.Video.Values.{
  PipelineOutcome, success, failure, PipelineEvent, handle_bus_message,
}
use camera_platform.Server.Bin.{ProfileBin, set_drop, is_dropped}
use camera_platform.Server.Bin
use camera_platform.Server.Host.{ProfileHost, cleanup}

-- What a search behind one branch found, with that branch put back.
put_back :
    {A : Type 0}
    → ProfileBin
    → Option (A × List ProfileBin × Trace)
    → Option (A × List ProfileBin × Trace)
put_back b none = none
put_back b (some (a, bs, t)) = some (a, b ∷ bs, t)

-- `std::find_if` for the profile, and an operation on the branch that it finds; `none` is `end()`.
unfoldable pub on_named :
    {A : Type 0}
    → Bytes
    → M ProfileBin A
    → List ProfileBin
    → Trace
    → Option (A × List ProfileBin × Trace)
unfolding put_back
on_named name m [] t = none
on_named name m (b ∷ bs) t =
    if equal b.profile.name name
    then some ((m b t).0, (m b t).1 ∷ bs, (m b t).2)
    else put_back b (on_named name m bs t)

-- The valve and the reported state of one branch
enable : Bool → M ProfileBin Bool
enable enabled = do
  set_drop (not enabled)
  Bin.set_state (if enabled then state_ready else state_off) []

-- The host with what became of its branches, or the failure.
unfoldable pub enabled_outcome :
    ProfileHost
    → Trace
    → Option (Bool × List ProfileBin × Trace)
    → PipelineOutcome × ProfileHost × Trace
enabled_outcome h t none = (failure (codes "Profile not found"), h, t)
enabled_outcome h t (some (_, bins, t')) = (success, record h { bins = bins }, t')

unfoldable pub set_profile_enabled : Bytes → Bool → M ProfileHost PipelineOutcome
unfolding enabled_outcome enable
set_profile_enabled name enabled h t = enabled_outcome h t (on_named name (enable enabled) h.bins t)

unfoldable pub open_valve :
    ProfileHost → Trace → Option (Bool × List ProfileBin × Trace) → Bool × ProfileHost × Trace
open_valve h t none = (false, h, t)
open_valve h t (some (dropped, _, t')) = (not dropped, h, t')

unfoldable pub profile_enabled : Gst → Bytes → M ProfileHost Bool
unfolding open_valve
profile_enabled g name h t = open_valve h t (on_named name (is_dropped g) h.bins t)

unfoldable pub profiles : ProfileHost → List ProfileInfo
profiles h = map (λ b. b.profile) h.bins

-- `appSinkForProfile`
unfoldable pub sink_named : Bytes → List ProfileBin → Option ℕ
sink_named name [] = none
sink_named name (b ∷ bs) = if equal b.profile.name name then b.app_sink else sink_named name bs

unfoldable pub app_sink_for_profile : ProfileHost → Bytes → Option ℕ
unfolding sink_named
app_sink_for_profile h name = sink_named name h.bins

-- The state change that `play` and `stop` ask for
unfoldable pub change_state : Gst → GstState → Bytes → M ProfileHost PipelineOutcome
change_state g state reason h t = elim h.pipeline [
  | none ↦ (failure reason, h, t)
  | some p ↦ (
    if g.succeeds t (set_state p state) then success else failure reason,
    h,
    set_state p state ∷ t,
  )
]

unfoldable pub play : Gst → M ProfileHost PipelineOutcome
unfolding change_state
play g = do
  h ← get
  branch (not h.is_linked) (pure (failure (codes "Pipeline not setup")))
      (change_state g playing (codes "Failed to set pipeline to PLAYING"))

unfoldable pub stop : Gst → M ProfileHost PipelineOutcome
unfolding change_state
stop g = do
  h ← get
  branch (not h.is_linked) (pure (failure (codes "Pipeline not setup")))
      (change_state g paused (codes "Failed to set pipeline to PAUSED"))

unfoldable pub detach_from : Option ℕ → M ProfileHost (Unit {0})
detach_from none = pure tt
detach_from (some w) = do
  call (source_destroy w)
  call (source_unref w)
  modify (λ h. record h { bus_source = none })

unfoldable pub detach_bus_watch : M ProfileHost (Unit {0})
unfolding detach_from
detach_bus_watch = do h ← get; detach_from h.bus_source

-- `attachBusWatch` from `gst_bus_create_watch` on
unfoldable pub attach_source : ℕ → ℕ → ℕ → Option ℕ → M ProfileHost PipelineOutcome
attach_source context callback bus none = pure (failure (codes "Failed to create bus watch"))
attach_source context callback bus (some w) = do
  modify (λ h. record h { app_callback = some callback })
  call (set_callback w)
  call (source_attach w context)
  call (bus_unref (some bus))
  pure success

-- `attachBusWatch` from `gst_element_get_bus` on
unfoldable pub watch_bus : Gst → ℕ → ℕ → Option ℕ → M ProfileHost PipelineOutcome
unfolding attach_source
watch_bus g context callback none = pure (failure (codes "Failed to get bus from pipeline"))
watch_bus g context callback (some bus) = do
  w ← ask_pointer g (create_watch bus)
  modify (λ h. record h { bus_source = w })
  attach_source context callback bus w

-- The context and the callback may be null.
unfoldable pub attach_bus_watch : Gst → Option ℕ → Option ℕ → M ProfileHost PipelineOutcome
unfolding watch_bus
attach_bus_watch g none callback = pure (failure (codes "Invalid context or callback"))
attach_bus_watch g (some context) none = pure (failure (codes "Invalid context or callback"))
attach_bus_watch g (some context) (some callback) = do
  h ← get
  branch (not h.is_linked) (pure (failure (codes "Pipeline is not setup")))
      (do detach_bus_watch; bus ← ask_some g get_bus h.pipeline; watch_bus g context callback bus)

-- `handleBusMessage` and `parseMessage`, word for word those of `VideoPipeline`
abbrev pub handle_message : Gst → Option ℕ → Option ℕ → Option (ℕ × PipelineEvent × Bytes)
handle_message = handle_bus_message

-- The body of `onBusMessageStatic` where there is a watch
unfoldable pub pop_message : Gst → Option ℕ → M ProfileHost (Option (ℕ × PipelineEvent × Bytes))
pop_message g none = pure none
pop_message g (some w) = do
  h ← get
  bus ← ask_some g get_bus h.pipeline
  msg ← ask_some g bus_pop bus
  call (bus_unref bus)
  call (message_unref msg)
  pure (handle_message g msg h.app_callback)

-- `onBusMessageStatic`: the event that reaches the callback, if any.
unfoldable pub on_bus_message : Gst → M ProfileHost (Option (ℕ × PipelineEvent × Bytes))
unfolding pop_message
on_bus_message g = do h ← get; pop_message g h.bus_source

-- The branches as the vector destroys them
destroy_bins : List ProfileBin → Trace → Trace
destroy_bins [] t = t
destroy_bins (b ∷ bs) t = let o = Bin.destroy_bin b t in destroy_bins bs o.2

-- The destructor, with that of the branches
pub destroy_host : M ProfileHost (Unit {0})
unfolding destroy_bins
destroy_host h t =
    let d = detach_bus_watch h t in
    let c = cleanup d.1 d.2 in (tt, record c.1 { bins = [] }, destroy_bins c.1.bins c.2)
