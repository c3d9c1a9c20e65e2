-- ===== src/Labs/Tests.antt =====
-- The labs on concrete runs.
use camera_platform.Prelude.{
  zero, none, Bytes, Bool, false, ℕ, ◌+◌, ◌*◌, ◌≤◌, suc, true, false, codes, some, List, [], ◌∷◌,
  ◌≡◌, ◌≢◌, refl, arith,
}
use camera_platform.Gst.{Gst, Trace, Call, rtsp_attach_to, object_set, flag}
use camera_platform.Gst.Plain.{plain_gst}
use camera_platform.Gst.Observe.{main_loop, last_drop}
use camera_platform.Labs.RtspRecover
use camera_platform.Labs.RtspRecover.Events
use camera_platform.Labs.RtspRecover.Watchdog.{reports-le}
use camera_platform.Labs.RtspBridge
use camera_platform.Labs.RtspBridge.{Program, empty_profile}
use camera_platform.Labs.RtspBridge.Events.{
  Event, Mount, sample, arrives, opens, leaves, closes, hd, sd, dispatch_all,
}
use camera_platform.Labs.RtspBridge.Valves.{settled, followed, dispatch_all-followed}
use camera_platform.Labs.Branches
use camera_platform.Labs.Branches.Callbacks.{on_callbacks, drop_sd, mid, resume_sd}
use camera_platform.Labs.Branches.Valves.{asked_last, on_callbacks-last_drop}
use camera_platform.Labs.Record
use camera_platform.Labs.Record.{Recorder}
use camera_platform.Labs.Record.Finish.{Meanwhile, new_sample, event_probed}
use camera_platform.Labs.Record.Pads.{Kept, recording, recording-pads}
use camera_platform.Labs.Stall
use camera_platform.Labs.Stall.{Stall, Names}
use camera_platform.Labs.References.{Extra}
use camera_platform.Labs.Counted.{Accounted, nothing}
use camera_platform.Labs.LoopClient
use camera_platform.Labs.SleepClient
use camera_platform.Labs.SleepClient.Samples.{mains-Accounted}
use camera_platform.Labs.LoopRefs
use camera_platform.Labs.LoopRefs.Account.{Balance, main-Balance}
use camera_platform.Labs.RtspServer
use camera_platform.Labs.RtspServer.Account.{Outcome, main-Outcome}
use camera_platform.Labs.PrerollStates
use camera_platform.Labs.PrerollStates.{on_probe}
use camera_platform.Labs.AsyncAppsink
use camera_platform.Labs.AsyncAppsink.Release.{mains-Extra}
use camera_platform.Labs.Snapshot
use camera_platform.Labs.Snapshot.{Snapshots}
use camera_platform.Labs.Snapshot.Account.{
  Account, request, poll, handle_all, requests, snapshots-Account,
}

abbrev recovery : List RtspRecover.Events.Event
recovery =
    RtspRecover.Events.starts 1
    ∷ RtspRecover.Events.sample 3
    ∷ RtspRecover.Events.arrives 4
    ∷ RtspRecover.Events.sample 3
    ∷ RtspRecover.Events.crashes
    ∷ RtspRecover.Events.tick
    ∷ []

abbrev silence : List RtspRecover.Events.Event
silence = RtspRecover.Events.tick ∷ RtspRecover.Events.crashes ∷ RtspRecover.Events.tick ∷ []

reports-le_example :
    let before = RtspRecover.Events.handle_all plain_gst recovery RtspRecover.fresh [] in
    ((RtspRecover.Events.handle_all plain_gst silence before.1 before.2).0 ≤ 1)
    × (before.0 ≤ RtspRecover.Events.count_starts recovery + 1)
reports-le_example = reports-le plain_gst recovery silence [] refl

abbrev hd_valve : ℕ
hd_valve = 7

abbrev sd_valve : ℕ
sd_valve = 8

abbrev two_mounts : Program
two_mounts = record RtspBridge.fresh {
  hd = record empty_profile { mount = codes "hd"; valve = some hd_valve };
  sd = record empty_profile { mount = codes "sd"; valve = some sd_valve };
}

abbrev viewers : List (Mount × Event)
viewers =
    (hd, arrives 4)
    ∷ (hd, opens 4)
    ∷ (sd, sample 2)
    ∷ (hd, leaves)
    ∷ (sd, arrives 5)
    ∷ (hd, arrives 6)
    ∷ (hd, opens 6)
    ∷ (hd, closes)
    ∷ (sd, opens 5)
    ∷ []

apart : hd_valve ≢ sd_valve
apart = λ e. omega arith

dispatch_all-followed_example :
    (last_drop hd_valve (dispatch_all plain_gst viewers two_mounts []).2
      ≡ followed hd viewers (last_drop hd_valve []))
    × (last_drop sd_valve (dispatch_all plain_gst viewers two_mounts []).2
        ≡ followed sd viewers (last_drop sd_valve []))
dispatch_all-followed_example =
    dispatch_all-followed plain_gst hd_valve sd_valve viewers two_mounts [] apart (refl, refl)

-- A viewer has arrived at hd before the last one's callback closed its valve.
left_closed : followed hd viewers none ≡ some true
unfolding followed settled
left_closed = refl

calls : Trace → ℕ
calls [] = 0
calls (c ∷ t) = suc (calls t)

-- Each call takes 25 ms.
abbrev slow_gst : Gst
slow_gst = record plain_gst { clock = λ t. 25000 * calls t }

abbrev recorder : Recorder
recorder = record Record.fresh { pipeline = some 1; tee = some 2 }

abbrev times : ℕ → List (List Meanwhile)
times zero = []
times (suc n) = (event_probed false ∷ new_sample 3 ∷ []) ∷ times n

recording-pads_example :
    Kept plain_gst 0 [] (recording plain_gst (codes "rec1.mp4") false (times 3) recorder []).2
recording-pads_example = recording-pads plain_gst (codes "rec1.mp4") false (times 3) recorder []

abbrev snapshots : Snapshots
snapshots = record Snapshot.fresh { valve = some 4; snap_sink = some 5 }

abbrev closed : Trace
closed = object_set 4 (codes "drop") (flag true) ∷ []

snapshots-Account_example :
    Account 4
      (requests (request ∷ poll ∷ request ∷ poll ∷ []))
      (handle_all plain_gst (request ∷ poll ∷ request ∷ poll ∷ []) snapshots closed).1
      (handle_all plain_gst (request ∷ poll ∷ request ∷ poll ∷ []) snapshots closed).2
unfolding last_drop
snapshots-Account_example =
    snapshots-Account 4 plain_gst (request ∷ poll ∷ request ∷ poll ∷ []) snapshots closed
      (omega arith) (refl, refl) (refl, refl, refl)

abbrev second_valve : ℕ
second_valve = 1

abbrev two_bins : Branches.Host
two_bins = record Branches.fresh { hd = some 5; sd = some 6 }

on_callbacks-last_drop_example :
    (last_drop second_valve (on_callbacks plain_gst (drop_sd ∷ mid ∷ resume_sd ∷ []) two_bins []).2
      ≡ asked_last (drop_sd ∷ mid ∷ resume_sd ∷ []) (last_drop second_valve []))
    × ((w : ℕ)
        → w ≢ second_valve
        → last_drop w (on_callbacks plain_gst (drop_sd ∷ mid ∷ resume_sd ∷ []) two_bins []).2
          ≡ last_drop w [])
on_callbacks-last_drop_example =
    on_callbacks-last_drop plain_gst 6 second_valve (drop_sd ∷ mid ∷ resume_sd ∷ []) two_bins []
      refl (λ t. refl)

abbrev built : Stall
built = record Stall.fresh { pipeline = some 1 }

abbrev encoders : Names
encoders t o = codes "x264enc0"

mains-Extra_example :
    Extra plain_gst 0 [] (PrerollStates.main plain_gst (codes "open") PrerollStates.fresh []).2
    × Extra plain_gst 0 [] (on_probe plain_gst PrerollStates.fresh []).2
    × Extra plain_gst 0 [] (AsyncAppsink.main plain_gst (codes "open") PrerollStates.fresh []).2
mains-Extra_example = mains-Extra plain_gst (codes "open") PrerollStates.fresh []

abbrev arguments : List Bytes
arguments = codes "rtsp://127.0.0.1:8554/hd" ∷ codes "5" ∷ []

abbrev slept_through : List SleepClient.Callback
slept_through = SleepClient.new_sample 2 ∷ SleepClient.new_sample 2 ∷ SleepClient.eos ∷ []

abbrev looped_through : List LoopClient.Callback
looped_through =
    LoopClient.new_sample 2
    ∷ LoopClient.eos
    ∷ LoopClient.quit_after_eos
    ∷ LoopClient.quit_timeout
    ∷ []

mains-Accounted_example :
    let sleeps = SleepClient.main plain_gst 5000 slept_through arguments SleepClient.fresh [] in
    let loops = LoopClient.main plain_gst 5000 looped_through arguments LoopClient.fresh [] in
    Accounted plain_gst main_loop 0 nothing [] sleeps.1.count nothing sleeps.2
    × Accounted plain_gst main_loop 0 nothing [] loops.1.count nothing loops.2
mains-Accounted_example =
    mains-Accounted plain_gst main_loop 5000 slept_through looped_through arguments []

main-Balance_example :
    Balance plain_gst (codes "extra") [] (LoopRefs.main plain_gst (codes "extra") tt []).2
main-Balance_example = main-Balance plain_gst (codes "extra") []

abbrev all_but_attach : Trace → Call → Bool
all_but_attach t (rtsp_attach_to server context) = false
all_but_attach t c = true

abbrev busy_gst : Gst
busy_gst = record plain_gst { succeeds = all_but_attach }

main-Outcome_example : Outcome busy_gst main_loop (RtspServer.main busy_gst tt [])
main-Outcome_example = main-Outcome busy_gst main_loop
