-- ===== src/Labs/RtspRecover/Events.antt =====
-- The callbacks of labs/lab8-rtsp-recover.cpp in any order.
use camera_platform.Prelude.{ℕ, ◌+◌, Bool, false, List, [], ◌∷◌, if◌then◌else◌}
use camera_platform.Gst.{Gst}
use camera_platform.Gst.Effects.{M, ◌>>=◌, ◌>>◌, pure}
use camera_platform.Labs.RtspRecover.{
  Recover, on_producer_sample, on_producer_eos, on_media_configure, on_media_unprepared,
  on_watchdog, produce_start, producer_crash,
}

pub data Event : Type 0 where
  sample : ℕ → Event
  ended : Event
  arrives : ℕ → Event
  leaves tick : Event
  starts : ℕ → Event
  crashes : Event

-- One callback; whether the watchdog reports a dead source.
unfoldable pub handle : Gst → Event → M Recover Bool
handle g (sample sink) = do _ ← on_producer_sample g sink; pure false
handle g ended = do on_producer_eos; pure false
handle g (arrives media) = do on_media_configure g media; pure false
handle g leaves = do on_media_unprepared; pure false
handle g tick = on_watchdog g
handle g (starts n) = do produce_start g n; pure false
handle g crashes = do producer_crash; pure false

-- The callbacks in order, and how often the watchdog reports.
unfoldable pub handle_all : Gst → List Event → M Recover ℕ
unfolding handle
handle_all g [] = pure 0
handle_all g (e ∷ es) = do
  reported ← handle g e
  reports ← handle_all g es
  pure (if reported then 1 + reports else reports)

abbrev pub is_start : Event → ℕ
is_start (starts n) = 1
is_start e = 0

abbrev pub count_starts : List Event → ℕ
count_starts [] = 0
count_starts (e ∷ es) = is_start e + count_starts es
