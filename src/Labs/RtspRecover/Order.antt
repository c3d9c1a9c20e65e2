-- ===== src/Labs/RtspRecover/Order.antt =====
-- The order of caps and buffers on the appsrcs of labs/lab8-rtsp-recover.cpp.
use camera_platform.Prelude.{
  ℕ, Bool, true, false, not, ◌&&◌, ◌||◌, ◌==◌, codes, equal, none, some, [], ◌∷◌, if◌then◌else◌,
  ◌≡◌,
}
use camera_platform.Gst.{Gst, Trace, app_src_caps, bin_get_by_name, push_buffer}
use camera_platform.Labs.Bridge.{Bridge}

-- The appsrc has been given caps since a viewer's media was last configured.
pub has_caps : ℕ → Trace → Bool
has_caps s [] = false
has_caps s (app_src_caps src caps ∷ t) = if src == s then true else has_caps s t
has_caps s (bin_get_by_name bin name ∷ t) =
    if equal name (codes "vsrc") then false else has_caps s t
has_caps s (c ∷ t) = has_caps s t

-- Every buffer was pushed to an appsrc that had been given caps.
pub caps_first : Trace → Bool
unfolding has_caps
caps_first [] = true
caps_first (push_buffer s b ∷ t) = has_caps s t && caps_first t
caps_first (c ∷ t) = caps_first t

-- What the flag `caps_set` says is true of the appsrc.
abbrev flag_holds : Bridge → Trace → Bool
flag_holds b t = elim b.appsrc [ none ↦ true | some s ↦ not b.caps_set || has_caps s t ]

abbrev Ordered : Bridge → Trace → Type 0
Ordered b t = (caps_first t ≡ true) × (flag_holds b t ≡ true)
