-- ===== src/Labs/RtspRecover/Watchdog.antt =====
-- The watchdog of labs/lab8-rtsp-recover.cpp: when it reports, and how often.
use camera_platform.Prelude.{ℕ, ◌+◌, ◌≤◌, Bool, List, [], ◌∷◌, ◌≡◌, if◌then◌else◌, arith}
use camera_platform.Gst.{Gst, Trace}
use camera_platform.Gst.Effects.{branch}
use camera_platform.Labs.RtspRecover.{
  Recover, fresh, on_producer_sample, with_sample, with_buffer, on_producer_eos, on_media_configure,
  configured, on_media_unprepared, on_watchdog, produce_start, producer_crash, on_bridge,
}
use camera_platform.Labs.RtspRecover.Events.{
  Event, sample, ended, arrives, leaves, tick, starts, crashes, handle, handle_all, count_starts,
  is_start,
}

-- The reports that are still possible before the next start.
abbrev open_reports : Recover → ℕ
open_reports r = if r.dead_logged then 0 else 1

abbrev one_if : Bool → ℕ
one_if b = if b then 1 else 0

handle-open_reports :
    (g : Gst) (e : Event) (r : Recover) (t : Trace)
    → one_if (handle g e r t).0 + open_reports (handle g e r t).1 ≤ open_reports r + is_start e
unfolding handle on_producer_sample with_sample with_buffer on_producer_eos on_media_configure
    configured on_media_unprepared on_watchdog produce_start producer_crash on_bridge branch
handle-open_reports g (sample sink) r t = ground arith
handle-open_reports g ended r t = ground arith
handle-open_reports g (arrives media) r t = ground arith
handle-open_reports g leaves r t = ground arith
handle-open_reports g tick r t = ground arith
handle-open_reports g (starts n) r t = ground arith
handle-open_reports g crashes r t = ground arith

handle_all-open_reports :
    (g : Gst) (es : List Event) (r : Recover) (t : Trace)
    → (handle_all g es r t).0 + open_reports (handle_all g es r t).1
      ≤ open_reports r + count_starts es
unfolding handle_all
handle_all-open_reports g [] r t = omega arith
handle_all-open_reports g (e ∷ es) r t = ground (
  arith,
  handle-open_reports g e r t,
  handle_all-open_reports g es (handle g e r t).1 (handle g e r t).2,
)

-- However the callbacks are ordered and whatever the clock says: among callbacks that start no producer,
-- those before the first start, between two starts or behind the last included, the watchdog reports a
-- dead source at most once; and in all it reports at most once more than producers are started.
pub reports-le :
    (g : Gst) (es rest : List Event) (t : Trace)
    → count_starts rest ≡ 0
    → let before = handle_all g es fresh t in
      ((handle_all g rest before.1 before.2).0 ≤ 1) × (before.0 ≤ count_starts es + 1)
reports-le g es rest t h =
    let before = handle_all g es fresh t in
    (
      ground (arith, handle_all-open_reports g rest before.1 before.2),
      omega (arith, handle_all-open_reports g es fresh t),
    )
