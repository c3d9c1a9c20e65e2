-- ===== src/Labs/RtspServer/Account.antt =====
-- What labs/lab5-rtsp-server.cpp has given back when it ends.
use camera_platform.Prelude.{
  Bool, true, false, not, [], ◌∙◌, ℕ, ◌+◌, Option, none, some, ◌∷◌, ◌≡◌, ◌⊎◌, inl, inr, refl, arith,
}
use camera_platform.Gst.{Gst, Trace, gst_init, context_new, loop_new, rtsp_attach_to}
use camera_platform.Gst.Effects.{branch-outcome}
use camera_platform.Gst.Observe.{
  Kind, of_context, of_main_loop, one_if_some, taken, given, Held, GivenBack,
}
use camera_platform.Labs.RtspServer.{main, mount_both, make_factory, attached, serve}

mount_both-keeps :
    (g : Gst) (k : Kind) (t : Trace)
    → (taken g k (mount_both g tt t).2 ≡ taken g k t) × (given k (mount_both g tt t).2 ≡ given k t)
unfolding mount_both make_factory taken given
mount_both-keeps g k t = ground arith

attached-keeps :
    (g : Gst) (k : Kind) (server context : Option ℕ) (t : Trace)
    → (taken g k (attached g server context tt t).2 ≡ taken g k t)
      × (given k (attached g server context tt t).2 ≡ given k t)
unfolding attached taken given
attached-keeps g k none context t = (refl, refl)
attached-keeps g k (some server) context t = (refl, refl)

serve-gives :
    (g : Gst) (k : Kind) (server context loop : Option ℕ) (t : Trace)
    → Held g k
        (of_context k (one_if_some context) + of_main_loop k (one_if_some loop))
        t
        0
        (serve server context loop tt t).2
unfolding serve taken given
serve-gives g k server context loop t = ground arith

opened-Held :
    (g : Gst) (k : Kind) (t : Trace)
    → let context = g.pointer t context_new in
      let loop = g.pointer (context_new ∷ t) (loop_new context) in
      Held g k 0 t
        (of_context k (one_if_some context) + of_main_loop k (one_if_some loop))
        (loop_new context ∷ context_new ∷ t)
      × (given k (loop_new context ∷ context_new ∷ t) ≡ given k t)
unfolding taken given
opened-Held g k t = (omega arith, refl)

init-keeps :
    (g : Gst) (k : Kind) (t : Trace)
    → (taken g k (gst_init ∷ t) ≡ taken g k t) × (given k (gst_init ∷ t) ≡ given k t)
unfolding taken given
init-keeps g k t = (refl, refl)

-- What the library last answered to `gst_rtsp_server_attach`; `false` where it was not called
unfoldable pub attach_answer : Gst → Trace → Bool
attach_answer g [] = false
attach_answer g (rtsp_attach_to s c ∷ t) = g.succeeds t (rtsp_attach_to s c)
attach_answer g (c ∷ t) = attach_answer g t

mount_both-attach_answer :
    (g : Gst) (t : Trace) → attach_answer g (mount_both g tt t).2 ≡ attach_answer g t
unfolding mount_both make_factory attach_answer
mount_both-attach_answer g t = ground arith

attached-attach_answer :
    (g : Gst) (server context : Option ℕ) (t : Trace)
    → attach_answer g t ≡ false
    → attach_answer g (attached g server context tt t).2 ≡ (attached g server context tt t).0
unfolding attached attach_answer
attached-attach_answer g none context t h = h
attached-attach_answer g (some server) context t h = refl

serve-attach_answer :
    (g : Gst) (server context loop : Option ℕ) (t : Trace)
    → attach_answer g (serve server context loop tt t).2 ≡ attach_answer g t
unfolding serve attach_answer
serve-attach_answer g server context loop t = ground arith

-- What a run of `main` comes to, by what the attachment of the server answers.
abbrev pub Outcome : Gst → Kind → ℕ × Unit {0} × Trace → Type 0
Outcome g k r =
    ((attach_answer g r.2 ≡ true) × (r.0 ≡ 0) × GivenBack g k [] r.2)
    ⊎ ((attach_answer g r.2 ≡ false) × (r.0 ≡ 1) × (given k r.2 ≡ 0))

not-true : (b : Bool) → not b ≡ true → b ≡ false
not-true true e = cc
not-true false e = refl

not-false : (b : Bool) → not b ≡ false → b ≡ true
not-false true e = refl
not-false false e = cc

-- Where the library answers an id to the attachment of the server, `main` ends with 0, and has then given
-- back every main context and main loop that it took, with every event source and pad; where it answers
-- none, or could make no server, `main` ends with 1 and has given back none of them.
pub main-Outcome : (g : Gst) (k : Kind) → Outcome g k (main g tt [])
unfolding main attach_answer given
main-Outcome g k =
    let t0 = gst_init ∷ [] in
    let mounted = mount_both g tt t0 in
    let context = g.pointer mounted.2 context_new in
    let loop = g.pointer (context_new ∷ mounted.2) (loop_new context) in
    let u = loop_new context ∷ context_new ∷ mounted.2 in
    let ok = attached g mounted.0 context tt u in
    let a = init-keeps g k [] in
    let b = mount_both-keeps g k t0 in
    let c = opened-Held g k mounted.2 in
    let d = attached-keeps g k mounted.0 context u in
    let answer = attached-attach_answer g mounted.0 context u (mount_both-attach_answer g t0) in
    branch-outcome (Outcome g k) _ _ _ tt ok.2
      (λ e. inr (answer ∙ not-true ok.0 e, refl, omega arith))
      (λ e. inl (
        serve-attach_answer g mounted.0 context loop ok.2 ∙ answer ∙ not-false ok.0 e,
        refl,
        omega (arith, serve-gives g k mounted.0 context loop ok.2),
      ))
