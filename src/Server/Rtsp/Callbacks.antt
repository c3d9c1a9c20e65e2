-- ===== src/Server/Rtsp/Callbacks.antt =====
-- What the callbacks of the mounts of server/RtspProfileServer.cpp leave alone.
use camera_platform.Prelude.{ℕ, zero, suc, List, [], ◌∷◌, arith}
use camera_platform.Gst.{Gst, Trace}
use camera_platform.Gst.Effects.{M}
use camera_platform.Gst.Observe.{Kind, taken, given, Held, quits, Asked}
use camera_platform.Server.Rtsp.Sources.{ServerHeld}
use camera_platform.Server.Rtsp.{
  RtspServer, Mount, in_place, on_mount, on_media_configure, on_media_unprepared, on_new_sample,
  with_sample, relay, forward,
}

in_place-relates :
    {A : Type 0} (R : Trace → Trace → Type 0) (n : ℕ) (f : M Mount A)
    → ((t : Trace) → R t t)
    → ((m : Mount) (t : Trace) → R t (f m t).2)
    → (ms : List Mount) (t : Trace) → R t (in_place n f ms t).1
unfolding in_place
in_place-relates R n f none_made h [] t = none_made t
in_place-relates R zero f none_made h (m ∷ ms) t = h m t
in_place-relates R (suc n) f none_made h (m ∷ ms) t = in_place-relates R n f none_made h ms t

-- What holds of the calls that a callback makes on every mount, and of no calls, holds of those that it
-- makes through the server.
on_mount-relates :
    {A : Type 0} (R : Trace → Trace → Type 0) (n : ℕ) (f : M Mount A)
    → ((t : Trace) → R t t)
    → ((m : Mount) (t : Trace) → R t (f m t).2)
    → (r : RtspServer) (t : Trace) → R t (on_mount n f r t).2
unfolding on_mount
on_mount-relates R n f none_made h r t = in_place-relates R n f none_made h r.mounts t

-- The callbacks of the mounts take nothing that is counted, and ask no main loop to return.
abbrev pub Quiet : Gst → Kind → Trace → Trace → Type 0
Quiet g k t u = Held g k 0 t 0 u × Asked 0 t u

Quiet-refl : (g : Gst) (k : Kind) (t : Trace) → Quiet g k t t
Quiet-refl g k t = omega arith

pub on_media_configure-Quiet :
    (g : Gst) (k : Kind) (n media : ℕ) (r : RtspServer) (t : Trace)
    → Quiet g k t (on_mount n (on_media_configure g media) r t).2
unfolding on_media_configure taken given quits
on_media_configure-Quiet g k n media =
    on_mount-relates (Quiet g k) n (on_media_configure g media) (Quiet-refl g k)
      (λ (m : Mount) (t : Trace). ground arith)

pub on_media_unprepared-Quiet :
    (g : Gst) (k : Kind) (n : ℕ) (r : RtspServer) (t : Trace)
    → Quiet g k t (on_mount n on_media_unprepared r t).2
unfolding on_media_unprepared taken given quits
on_media_unprepared-Quiet g k n =
    on_mount-relates (Quiet g k) n on_media_unprepared (Quiet-refl g k)
      (λ (m : Mount) (t : Trace). ground arith)

pub on_new_sample-Quiet :
    (g : Gst) (k : Kind) (n sink : ℕ) (r : RtspServer) (t : Trace)
    → Quiet g k t (on_mount n (on_new_sample g sink) r t).2
unfolding on_new_sample with_sample relay forward taken given quits
on_new_sample-Quiet g k n sink =
    on_mount-relates (Quiet g k) n (on_new_sample g sink) (Quiet-refl g k)
      (λ (m : Mount) (t : Trace). ground arith)

-- So the server owns what it owned before.
pub on_mount-ServerHeld :
    {A : Type 0} (g : Gst) (k : Kind) (n : ℕ) (f : M Mount A) (r : RtspServer) (t : Trace)
    → Quiet g k t (on_mount n f r t).2
    → ServerHeld g k r t (on_mount n f r t).1 (on_mount n f r t).2
unfolding on_mount
on_mount-ServerHeld g k n f r t q = omega (arith, q.0)
