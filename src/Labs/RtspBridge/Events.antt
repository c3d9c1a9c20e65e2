-- ===== src/Labs/RtspBridge/Events.antt =====
-- labs/lab6-rtsp-bridge.cpp: the callbacks of the two mounts, with their parts in any order.
use camera_platform.Prelude.{ℕ, List, [], ◌∷◌}
use camera_platform.Gst.{Gst}
use camera_platform.Gst.Effects.{M, ◌>>=◌, ◌>>◌, pure}
use camera_platform.Labs.RtspBridge.{
  Profile, Program, on_new_sample, arrive, open_valve, leave, close_valve, on_hd, on_sd,
}

-- The steps of the callbacks. "media-configure" with the media arrives, under the lock, and then opens;
-- "unprepared" leaves, under the lock, and then closes. The streaming threads may run other steps between
-- the two.
pub data Event : Type 0 where
  sample arrives opens : ℕ → Event
  leaves closes : Event

-- The mount whose callback runs
pub data Mount : Type 0 where
  hd sd : Mount

unfoldable pub handle : Gst → Event → M Profile (Unit {0})
unfolding on_new_sample arrive open_valve leave close_valve
handle g (sample sink) = do flow ← on_new_sample g sink; pure tt
handle g (arrives media) = arrive g media
handle g (opens media) = open_valve media
handle g leaves = leave
handle g closes = close_valve

-- A program's event: a step of a callback of one of the mounts
unfoldable pub dispatch : Gst → Mount → Event → M Program (Unit {0})
unfolding handle on_hd on_sd
dispatch g hd e = on_hd (handle g e)
dispatch g sd e = on_sd (handle g e)

unfoldable pub dispatch_all : Gst → List (Mount × Event) → M Program (Unit {0})
unfolding dispatch
dispatch_all g [] = pure tt
dispatch_all g (e ∷ es) = do dispatch g e.0 e.1; dispatch_all g es
