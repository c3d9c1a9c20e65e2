-- ===== src/Server/Rtsp/Sources.antt =====
-- The source by which server/RtspProfileServer.cpp is attached to a main context.
use camera_platform.Prelude.{
  ℕ, Bytes, List, Option, none, some, [], ◌∷◌, ◌≡◌, refl, ap, arith, false,
}
use camera_platform.Gst.{Gst, Trace, rtsp_create_source, object_unref}
use camera_platform.Gst.Effects.{M, ◌>>=◌, ◌>>◌, pure, branch-outcome, call_some}
use camera_platform.Gst.Observe.{
  Kind, of_event_source, of_event_source-zero, one_if_some, taken, given, Held,
}
use camera_platform.Model.Profile.{ProfileInfo}
use camera_platform.Server.Host.{ProfileHost}
use camera_platform.Server.Host.Control.{profiles}
use camera_platform.Video.Pipeline.{is_some}
use camera_platform.Server.Rtsp.{
  RtspServer, attach, create_source, attach_source, detach, detach_from, add_mount, add_mounts,
  prepare_server, construct, new_server, destroy_server, empty_server,
}

-- The calls of a client: `attach` with the library's error text and the context, or `detach`
data Use : Type 0 where
  attaches : Bytes → ℕ → Use
  detaches : Use

use_server : Gst → Use → M RtspServer (Unit {0})
use_server g (attaches message context) = do _ ← attach g message context; pure tt
use_server g detaches = detach

use_all : Gst → List Use → M RtspServer (Unit {0})
use_all g [] = pure tt
use_all g (x ∷ xs) = do use_server g x; use_all g xs

-- What the server owns of a kind: the source by which it is attached
abbrev pub server_owns : Kind → RtspServer → ℕ
server_owns k r = of_event_source k (one_if_some r.source)

-- All that a run takes of a kind is given back, or the server comes to own it.
abbrev pub ServerHeld : Gst → Kind → RtspServer → Trace → RtspServer → Trace → Type 0
ServerHeld g k r t s u = Held g k (server_owns k r) t (server_owns k s) u

attach_source-ServerHeld :
    (g : Gst) (k : Kind) (context : ℕ) (message : Bytes) (w : Option ℕ) (r : RtspServer) (t : Trace)
    → r.source ≡ none
    → Held g k
        (of_event_source k (one_if_some w))
        t
        (server_owns k (attach_source context message w r t).1)
        (attach_source context message w r t).2
unfolding attach_source taken given
attach_source-ServerHeld g k context message w r t e = ground (arith, e)

detach_from-ServerHeld :
    (g : Gst) (k : Kind) (w : Option ℕ) (r : RtspServer) (t : Trace)
    → r.source ≡ w
    → ServerHeld g k r t (detach_from w r t).1 (detach_from w r t).2
unfolding detach_from taken given
detach_from-ServerHeld g k w r t e = ground (arith, e)

create_source-ServerHeld :
    (g : Gst) (k : Kind) (context : ℕ) (message : Bytes) (server : Option ℕ) (r : RtspServer)
    (t : Trace)
    → ServerHeld g k r t
        (create_source g context message server r t).1
        (create_source g context message server r t).2
unfolding create_source taken given
create_source-ServerHeld g k context message none r t = refl
create_source-ServerHeld g k context message (some s) r t =
    branch-outcome (λ x. ServerHeld g k r t x.1 x.2) _ _ _ r t (λ _. refl)
      λ e.
        let w = g.pointer t (rtsp_create_source s) in
        let h =
          attach_source-ServerHeld g k context message w r (rtsp_create_source s ∷ t)
            (not-held r.source e) in
        omega (
          arith,
          h,
          of_event_source-zero k,
          ap (λ (o : Option ℕ). of_event_source k (one_if_some o)) (not-held r.source e),
        )
  where
    not-held : (w : Option ℕ) → is_some w ≡ false → w ≡ none
    not-held none e = refl
    not-held (some w) e = cc

pub attach-ServerHeld :
    (g : Gst) (k : Kind) (message : Bytes) (context : ℕ) (r : RtspServer) (t : Trace)
    → ServerHeld g k r t (attach g message context r t).1 (attach g message context r t).2
unfolding attach
attach-ServerHeld g k message context r t =
    create_source-ServerHeld g k context message r.server r t

detach-ServerHeld :
    (g : Gst) (k : Kind) (r : RtspServer) (t : Trace)
    → ServerHeld g k r t (detach r t).1 (detach r t).2
unfolding detach
detach-ServerHeld g k r t = detach_from-ServerHeld g k r.source r t refl

use_server-ServerHeld :
    (g : Gst) (k : Kind) (x : Use) (r : RtspServer) (t : Trace)
    → ServerHeld g k r t (use_server g x r t).1 (use_server g x r t).2
unfolding use_server
use_server-ServerHeld g k (attaches message context) r t = attach-ServerHeld g k message context r t
use_server-ServerHeld g k detaches r t = detach-ServerHeld g k r t

-- Over any calls of `attach` and `detach`, and whatever the library answers, the sources made but not
-- given back grow by as many as the server comes to hold, which is one or none; and pads, main contexts
-- and main loops are given back as they are taken.
use_all-Held :
    (g : Gst) (k : Kind) (xs : List Use) (r : RtspServer) (t : Trace)
    → ServerHeld g k r t (use_all g xs r t).1 (use_all g xs r t).2
unfolding use_all
use_all-Held g k [] r t = refl
use_all-Held g k (x ∷ xs) r t =
    let s = use_server g x r t in
    omega (arith, use_server-ServerHeld g k x r t, use_all-Held g k xs s.1 s.2)

-- The constructor takes nothing that is counted, whatever the catalog of the host.
add_mount-keeps :
    (g : Gst) (k : Kind) (host : ProfileHost) (points : Option ℕ) (p : ProfileInfo) (r : RtspServer)
    (t : Trace)
    → Held g k 0 t 0 (add_mount g host points p r t).2
unfolding add_mount taken given
add_mount-keeps g k host points p r t = ground arith

add_mounts-keeps :
    (g : Gst) (k : Kind) (host : ProfileHost) (points : Option ℕ) (ps : List ProfileInfo)
    (r : RtspServer) (t : Trace)
    → Held g k 0 t 0 (add_mounts g host points ps r t).2
unfolding add_mounts
add_mounts-keeps g k host points [] r t = refl
add_mounts-keeps g k host points (p ∷ ps) r t =
    let s = add_mount g host points p r t in
    omega
      (arith, add_mount-keeps g k host points p r t, add_mounts-keeps g k host points ps s.1 s.2)

add_mounts-source :
    (g : Gst) (host : ProfileHost) (points : Option ℕ) (ps : List ProfileInfo) (r : RtspServer)
    (t : Trace)
    → (add_mounts g host points ps r t).1.source ≡ r.source
unfolding add_mounts add_mount
add_mounts-source g host points [] r t = refl
add_mounts-source g host points (p ∷ ps) r t = add_mounts-source g host points ps _ _

prepare_server-keeps :
    (g : Gst) (k : Kind) (r : RtspServer) (t : Trace) → Held g k 0 t 0 (prepare_server g r t).2
unfolding prepare_server taken given
prepare_server-keeps g k r t = ground arith

released-keeps :
    (g : Gst) (k : Kind) (o : Option ℕ) (r : RtspServer) (t : Trace)
    → Held g k 0 t 0 (call_some object_unref o r t).2
unfolding taken given
released-keeps g k o r t = ground arith

prepare_server-source :
    (g : Gst) (port : ℕ) (t : Trace) → (prepare_server g (empty_server port) t).1.source ≡ none
unfolding prepare_server
prepare_server-source g port t = refl

pub new_server-ServerHeld :
    (g : Gst) (k : Kind) (host : ProfileHost) (port : ℕ) (t : Trace)
    → Held g k 0 t (server_owns k (new_server g host port t).0) (new_server g host port t).1
unfolding new_server construct
new_server-ServerHeld g k host port t =
    let made = prepare_server g (empty_server port) t in
    let mounted = add_mounts g host made.0 (profiles host) made.1 made.2 in
    omega (
      arith,
      prepare_server-keeps g k (empty_server port) t,
      add_mounts-keeps g k host made.0 (profiles host) made.1 made.2,
      released-keeps g k made.0 mounted.1 mounted.2,
      of_event_source-zero k,
      ap (λ (o : Option ℕ). of_event_source k (one_if_some o))
          (add_mounts-source g host made.0 (profiles host) made.1 made.2),
      ap (λ (o : Option ℕ). of_event_source k (one_if_some o)) (prepare_server-source g port t),
    )

detach_from-none :
    (w : Option ℕ) (r : RtspServer) (t : Trace) → r.source ≡ w → (detach_from w r t).1.source ≡ none
unfolding detach_from
detach_from-none none r t e = e
detach_from-none (some w) r t e = refl

pub destroy_server-ServerHeld :
    (g : Gst) (k : Kind) (r : RtspServer) (t : Trace)
    → Held g k (server_owns k r) t 0 (destroy_server r t).2
unfolding destroy_server detach
destroy_server-ServerHeld g k r t =
    let d = detach r t in
    omega (
      arith,
      detach-ServerHeld g k r t,
      released-keeps g k d.1.server d.1 d.2,
      of_event_source-zero k,
      ap (λ (o : Option ℕ). of_event_source k (one_if_some o)) (detach_from-none r.source r t refl),
    )
