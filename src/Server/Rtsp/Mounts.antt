-- ===== src/Server/Rtsp/Mounts.antt =====
-- The mounts that the constructor of server/RtspProfileServer.cpp makes.
use camera_platform.Prelude.{
  ℕ, true, equal, if◌then◌else◌, Bool-cases, inl, inr, Bytes, codes, List, Option, none, some, [],
  ◌∷◌, ◌++◌, map, map-append, append_assoc, append-nil, ◌≡◌, ◌∙◌, refl, sym, ap, arith,
}
use camera_platform.Prelude.Decimal.{to_string}
use camera_platform.Model.Profile.{ProfileInfo}
use camera_platform.Gst.{
  Gst, Call, Trace, add_factory, media_factory_new, rtsp_mount_points, rtsp_server_new,
  rtsp_set_service, object_ref_sink, object_unref,
}
use camera_platform.Gst.Effects.{call_some, ask_some}
use camera_platform.Video.Pipeline.{is_some}
use camera_platform.Server.Bin.{ProfileBin}
use camera_platform.Server.Host.{ProfileHost}
use camera_platform.Server.Host.Control.{profiles, app_sink_for_profile, sink_named}
use camera_platform.Server.Rtsp.{
  Mount, RtspServer, add_mount, add_mounts, construct, new_server, empty_server,
}

-- The paths that factories were added under, the last one first
pub paths : Trace → List Bytes
paths [] = []
paths (add_factory m path f ∷ t) = path ∷ paths t
paths (c ∷ t) = paths t

-- `/` and the name of each profile, added in turn
pub published : List ProfileInfo → List Bytes → List Bytes
published [] ps = ps
published (p ∷ rest) ps = published rest ((codes "/" ++ p.name) ∷ ps)

-- What a mount is made of before a medium is connected
abbrev pub Entry : Type 0
Entry = Bytes × Option ℕ × Option ℕ

abbrev pub entry : Mount → Entry
entry m = (m.name, m.app_sink, m.app_src)

-- The branches whose profile has the name, in their order
pub of_name : Bytes → List ProfileBin → List ProfileBin
of_name name [] = []
of_name name (b ∷ bs) =
    let rest = of_name name bs in if equal b.profile.name name then b ∷ rest else rest

abbrev pub first_sink : List ProfileBin → Option ℕ
first_sink [] = none
first_sink (b ∷ bs) = b.app_sink

-- The mount of a profile is fed by the first of the branches of its name.
abbrev pub expected : ProfileHost → ProfileInfo → Entry
expected h p = (p.name, first_sink (of_name p.name h.bins), none)

sink_named-of_name :
    (name : Bytes) (bs : List ProfileBin) → sink_named name bs ≡ first_sink (of_name name bs)
unfolding sink_named of_name
sink_named-of_name name [] = refl
sink_named-of_name name (b ∷ bs) = elim (Bool-cases (equal b.profile.name name)) [
  | inl e ↦ rw e refl
  | inr e ↦ rw e (sink_named-of_name name bs)
]

-- GStreamer makes what it is asked for.
abbrev pub AnswersAll : Gst → Type 0
AnswersAll g = (t : Trace) (c : Call) → is_some (g.pointer t c) ≡ true

add_mount-entry :
    (g : Gst) (h : ProfileHost) (points : Option ℕ) (p : ProfileInfo) (r : RtspServer) (t : Trace)
    → map entry (add_mount g h points p r t).1.mounts ≡ map entry r.mounts ++ expected h p ∷ []
unfolding add_mount app_sink_for_profile
add_mount-entry g h points p r t =
    map-append entry r.mounts _
    ∙ ap (λ sink. map entry r.mounts ++ (p.name, sink, none) ∷ [])
        (sink_named-of_name p.name h.bins)

add_mount-paths :
    (g : Gst) (h : ProfileHost) (m : ℕ) (p : ProfileInfo) (r : RtspServer) (t : Trace)
    → AnswersAll g
    → paths (add_mount g h (some m) p r t).2 ≡ (codes "/" ++ p.name) ∷ paths t
unfolding add_mount paths
add_mount-paths g h m p r t a = ground (arith, a t media_factory_new)

add_mounts-entry :
    (g : Gst) (h : ProfileHost) (points : Option ℕ) (ps : List ProfileInfo) (r : RtspServer)
    (t : Trace)
    → map entry (add_mounts g h points ps r t).1.mounts ≡ map entry r.mounts ++ map (expected h) ps
unfolding add_mounts
add_mounts-entry g h points [] r t = sym (append-nil (map entry r.mounts))
add_mounts-entry g h points (p ∷ ps) r t =
    add_mounts-entry g h points ps (add_mount g h points p r t).1 (add_mount g h points p r t).2
    ∙ ap (λ es. es ++ map (expected h) ps) (add_mount-entry g h points p r t)
    ∙ append_assoc (map entry r.mounts) (expected h p ∷ []) (map (expected h) ps)

add_mounts-paths :
    (g : Gst) (h : ProfileHost) (points : Option ℕ) (ps : List ProfileInfo) (r : RtspServer)
    (t : Trace)
    → AnswersAll g
    → is_some points ≡ true
    → paths (add_mounts g h points ps r t).2 ≡ published ps (paths t)
unfolding add_mounts published
add_mounts-paths g h none ps r t a e = cc
add_mounts-paths g h (some m) [] r t a e = refl
add_mounts-paths g h (some m) (p ∷ ps) r t a e =
    let made = add_mount g h (some m) p r t in
    add_mounts-paths g h (some m) ps made.1 made.2 a e
    ∙ ap (published ps) (add_mount-paths g h m p r t a)

-- The calls around the loop add no factory.
opened-paths :
    (g : Gst) (service : Bytes) (server : Option ℕ) (r : RtspServer) (t : Trace)
    → let u = call_some object_ref_sink server r t in
      let v = call_some (λ s. rtsp_set_service s service) server r u.2 in
      (paths (ask_some g rtsp_mount_points server r v.2).2 ≡ paths t)
unfolding paths
opened-paths g service none r t = refl
opened-paths g service (some s) r t = refl

closed-paths :
    (points : Option ℕ) (r : RtspServer) (t : Trace)
    → paths (call_some object_unref points r t).2 ≡ paths t
unfolding paths
closed-paths none r t = refl
closed-paths (some p) r t = refl

-- There are mount points where there is a server.
points-there :
    (g : Gst) (server : Option ℕ) (r : RtspServer) (t : Trace)
    → AnswersAll g
    → is_some server ≡ true
    → is_some (ask_some g rtsp_mount_points server r t).0 ≡ true
points-there g none r t a e = e
points-there g (some s) r t a e = a t (rtsp_mount_points s)

-- The constructor makes one mount for each profile of the host, in the host's order, with the profile's
-- name and the sink of the first branch of that name and with no medium, and adds a factory under `/`
-- and the name of each in turn, where GStreamer makes what it is asked for.
pub new_server-mounts :
    (g : Gst) (h : ProfileHost) (port : ℕ) (t : Trace)
    → AnswersAll g
    → (map entry (new_server g h port t).0.mounts ≡ map (expected h) (profiles h))
      × (paths (new_server g h port t).1 ≡ published (profiles h) (paths t))
unfolding new_server construct paths
new_server-mounts g h port t a =
    let server = g.pointer t rtsp_server_new in
    let r = record (empty_server port) { server = server } in
    let u = (call_some object_ref_sink server r (rtsp_server_new ∷ t)).2 in
    let v = (call_some (λ s. rtsp_set_service s (to_string port)) server r u).2 in
    let points = ask_some g rtsp_mount_points server r v in
    let w = add_mounts g h points.0 (profiles h) r points.2 in
    (
      add_mounts-entry g h points.0 (profiles h) r points.2,
      closed-paths points.0 w.1 w.2
          ∙ add_mounts-paths g h points.0 (profiles h) r points.2 a
              (points-there g server r v a (a t rtsp_server_new))
          ∙ ap (published (profiles h))
              (opened-paths g (to_string port) server r (rtsp_server_new ∷ t)),
    )
