-- ===== src/Labs/Branches/Callbacks.antt =====
-- labs/lab4-profile-host.cpp: the callbacks, in any order.
use camera_platform.Prelude.{true, false, List, [], ◌∷◌}
use camera_platform.Gst.{Gst, null, set_state, loop_quit}
use camera_platform.Gst.Effects.{M, ◌>>=◌, ◌>>◌, pure, get, call_some}
use camera_platform.Labs.Branches.{Host, set_drop}

-- `on_drop_sd`, `on_mid`, `on_resume_sd`, `on_finish` and `on_bus_error`
pub data Callback : Type 0 where
  drop_sd mid resume_sd finish bus_error : Callback

unfoldable pub on_callback : Gst → Callback → M Host (Unit {0})
on_callback g drop_sd = do h ← get; set_drop g h.sd true
on_callback g mid = pure tt
on_callback g resume_sd = do h ← get; set_drop g h.sd false
on_callback g finish = do
  h ← get
  call_some (λ p. set_state p null) h.pipeline
  call_some loop_quit h.loop
on_callback g bus_error = do h ← get; call_some loop_quit h.loop

unfoldable pub on_callbacks : Gst → List Callback → M Host (Unit {0})
on_callbacks g [] = pure tt
on_callbacks g (c ∷ cs) = do on_callback g c; on_callbacks g cs
