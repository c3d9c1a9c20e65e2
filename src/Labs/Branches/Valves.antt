-- ===== src/Labs/Branches/Valves.antt =====
-- The valves of labs/lab4-profile-host.cpp.
use camera_platform.Prelude.{
  ℕ, ◌==◌, ==_self, if◌then◌else◌, Bool, true, false, codes, Option, none, some, List, [], ◌∷◌, ◌≡◌,
  ◌≢◌, ◌∙◌, refl, ap, arith,
}
use camera_platform.Gst.{Gst, Trace, bin_get_by_name, set_state, null, loop_quit}
use camera_platform.Gst.Effects.{call_some}
use camera_platform.Gst.Observe.{last_drop}
use camera_platform.Labs.Branches.{Host, set_drop}
use camera_platform.Labs.Branches.Callbacks.{
  Callback, drop_sd, mid, resume_sd, finish, bus_error, on_callback, on_callbacks,
}

-- What a callback makes of the `drop` of the second valve
abbrev pub asked : Callback → Option Bool → Option Bool
asked drop_sd d = some true
asked resume_sd d = some false
asked c d = d

abbrev pub asked_last : List Callback → Option Bool → Option Bool
asked_last [] d = d
asked_last (c ∷ cs) d = asked_last cs (asked c d)

-- The valve of the bin is `v`.
abbrev pub Finds : Gst → ℕ → ℕ → Type 0
Finds g bin v = (t : Trace) → g.pointer t (bin_get_by_name bin (codes "pvalve")) ≡ some v

-- Setting the valve of a bin reaches `v` and no other object.
set_drop-last_drop :
    (g : Gst) (p : Option ℕ) (bin v w : ℕ) (d : Bool) (h : Host) (t : Trace)
    → p ≡ some bin
    → Finds g bin v
    → ((set_drop g p d h t).1 ≡ h)
      × (last_drop w (set_drop g p d h t).2 ≡ (if v == w then some d else last_drop w t))
unfolding set_drop last_drop
set_drop-last_drop g p bin v w d h t e f = (refl, ground (arith, e, f t))

on_finish-last_drop :
    (p loop : Option ℕ) (w : ℕ) (h : Host) (t : Trace)
    → last_drop w (call_some loop_quit loop h (call_some (λ p. set_state p null) p h t).2).2
      ≡ last_drop w t
unfolding last_drop
on_finish-last_drop p loop w h t = ground arith

if_self : {A : Type 0} (v : ℕ) (a b : A) → (if v == v then a else b) ≡ a
if_self v a b = ap (λ c. if c then a else b) (==_self v)

if_apart : {A : Type 0} (v w : ℕ) (a b : A) → w ≢ v → (if v == w then a else b) ≡ b
if_apart v w a b n = ground arith

-- The bins stay, `v` has been set so, and every other object is as before.
abbrev Sets : ℕ → ℕ → Option Bool → Trace → Unit {0} × Host × Trace → Type 0
Sets bin v d t x =
    (x.1.sd ≡ some bin)
    × (last_drop v x.2 ≡ d)
    × ((w : ℕ) → w ≢ v → last_drop w x.2 ≡ last_drop w t)

set_drop-Sets :
    (g : Gst) (bin v : ℕ) (d : Bool) (h : Host) (t : Trace)
    → h.sd ≡ some bin
    → Finds g bin v
    → Sets bin v (some d) t (set_drop g h.sd d h t)
set_drop-Sets g bin v d h t e f = (
  ap (λ h. h.sd) (set_drop-last_drop g h.sd bin v v d h t e f).0 ∙ e,
  (set_drop-last_drop g h.sd bin v v d h t e f).1 ∙ if_self v _ _,
  λ w n. (set_drop-last_drop g h.sd bin v w d h t e f).1 ∙ if_apart v w _ _ n,
)

-- A callback keeps the bins, asks the second valve, and leaves every other object.
on_callback-last_drop :
    (g : Gst) (bin v : ℕ) (c : Callback) (h : Host) (t : Trace)
    → h.sd ≡ some bin
    → Finds g bin v
    → Sets bin v (asked c (last_drop v t)) t (on_callback g c h t)
unfolding on_callback last_drop
on_callback-last_drop g bin v drop_sd h t e f = set_drop-Sets g bin v true h t e f
on_callback-last_drop g bin v resume_sd h t e f = set_drop-Sets g bin v false h t e f
on_callback-last_drop g bin v mid h t e f = (e, refl, λ w n. refl)
on_callback-last_drop g bin v finish h t e f = (
  e,
  on_finish-last_drop h.pipeline h.loop v h t,
  λ w n. on_finish-last_drop h.pipeline h.loop w h t,
)
on_callback-last_drop g bin v bus_error h t e f =
    (e, on_finish-last_drop none h.loop v h t, λ w n. on_finish-last_drop none h.loop w h t)

-- Dropping one branch does not disturb the other: after any callbacks, the second branch's valve `v` is as
-- `on_drop_sd` and `on_resume_sd` last left it, and no other object's `drop` was set, where the second
-- bin finds its valve.
pub on_callbacks-last_drop :
    (g : Gst) (bin v : ℕ) (cs : List Callback) (h : Host) (t : Trace)
    → h.sd ≡ some bin
    → Finds g bin v
    → (last_drop v (on_callbacks g cs h t).2 ≡ asked_last cs (last_drop v t))
      × ((w : ℕ) → w ≢ v → last_drop w (on_callbacks g cs h t).2 ≡ last_drop w t)
unfolding on_callbacks
on_callbacks-last_drop g bin v [] h t e f = (refl, λ w n. refl)
on_callbacks-last_drop g bin v (c ∷ cs) h t e f =
    let step = on_callback-last_drop g bin v c h t e f in
    let rest =
      on_callbacks-last_drop g bin v cs (on_callback g c h t).1 (on_callback g c h t).2 step.0 f in
    (rest.0 ∙ ap (asked_last cs) step.1, λ w n. rest.1 w n ∙ step.2 w n)
