-- ===== src/Video/Pipeline/Bus.antt =====
-- video/VideoPipeline.cpp: the watch on the pipeline's bus and its messages.
use camera_platform.Prelude.{ℕ, not, Bytes, codes, Option, none, some}
use camera_platform.Gst.{
  Gst, get_bus, create_watch, set_callback, source_attach, bus_unref, bus_pop, message_unref,
}
use camera_platform.Gst.Effects.{M, ◌>>=◌, ◌>>◌, pure, get, modify, branch, call, ask_pointer}
use camera_platform.Video.Values.{
  PipelineOutcome, success, failure, PipelineEvent, handle_bus_message,
}
use camera_platform.Video.Pipeline.{VideoPipeline, is_pipeline_setup, detach_bus_watch}

-- `attachBusWatch` from `gst_bus_create_watch` on
unfoldable pub attach_source : Gst → ℕ → ℕ → ℕ → Option ℕ → M VideoPipeline PipelineOutcome
attach_source g context callback bus none = pure (failure (codes "Failed to create bus watch"))
attach_source g context callback bus (some w) = do
  modify (λ v. record v { app_callback = some callback })
  call (set_callback w)
  call (source_attach w context)
  call (bus_unref (some bus))
  pure success

-- `attachBusWatch` from `gst_element_get_bus` on
unfoldable pub watch_bus : Gst → ℕ → ℕ → Option ℕ → M VideoPipeline PipelineOutcome
unfolding attach_source
watch_bus g context callback none = pure (failure (codes "Failed to get bus from pipeline"))
watch_bus g context callback (some bus) = do
  w ← ask_pointer g (create_watch bus)
  modify (λ v. record v { bus_source = w })
  attach_source g context callback bus w

unfoldable pub ask_bus : Gst → Option ℕ → M VideoPipeline (Option ℕ)
ask_bus g none = pure none
ask_bus g (some p) = ask_pointer g (get_bus p)

-- The context and the callback may be null.
unfoldable pub attach_bus_watch : Gst → Option ℕ → Option ℕ → M VideoPipeline PipelineOutcome
unfolding ask_bus watch_bus
attach_bus_watch g none callback = pure (failure (codes "Invalid context or callback"))
attach_bus_watch g (some context) none = pure (failure (codes "Invalid context or callback"))
attach_bus_watch g (some context) (some callback) = do
  v ← get
  branch (not (is_pipeline_setup v)) (pure (failure (codes "Pipeline is not setup")))
      (do detach_bus_watch; bus ← ask_bus g v.pipeline; watch_bus g context callback bus)

unfoldable pub ask_message : Gst → Option ℕ → M VideoPipeline (Option ℕ)
ask_message g none = pure none
ask_message g (some bus) = ask_pointer g (bus_pop bus)

-- `onBusMessageStatic`: the event that reaches the callback, if any.
unfoldable pub on_bus_message : Gst → M VideoPipeline (Option (ℕ × PipelineEvent × Bytes))
unfolding ask_bus ask_message
on_bus_message g = do
  v ← get
  branch (not (is_pipeline_setup v)) (pure none) (do
    bus ← ask_bus g v.pipeline
    msg ← ask_message g bus
    call (bus_unref bus)
    call (message_unref msg)
    pure (handle_bus_message g msg v.app_callback))
