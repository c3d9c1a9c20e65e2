-- ===== src/Gst/Attached.antt =====
-- What the calls made so far say of an event source.
use camera_platform.Prelude.{
  ℕ, Bool, true, false, ◌==◌, Option, none, some, [], ◌∷◌, if◌then◌else◌, ◌≡◌, ◌⊎◌, Bool-cases, inl,
  inr, refl, ==_self,
}
use camera_platform.Gst.{
  Gst, Trace, set_callback, source_attach, source_destroy, get_bus, create_watch,
  rtsp_create_source,
}

-- The context that a source was attached to last, unless it was destroyed since
unfoldable pub attached_to : ℕ → Trace → Option ℕ
attached_to w [] = none
attached_to w (source_attach v c ∷ t) = if v == w then some c else attached_to w t
attached_to w (source_destroy v ∷ t) = if v == w then none else attached_to w t
attached_to w (c ∷ t) = attached_to w t

unfoldable pub has_callback : ℕ → Trace → Bool
has_callback w [] = false
has_callback w (set_callback v ∷ t) = if v == w then true else has_callback w t
has_callback w (c ∷ t) = has_callback w t

-- `bus` was answered to a request for the bus of the pipeline `p`.
unfoldable pub IsBusOf : Gst → ℕ → ℕ → Trace → Type 0
IsBusOf g p bus [] = ⊥
IsBusOf g p bus (get_bus q ∷ t) =
    ((q ≡ p) × (g.pointer t (get_bus q) ≡ some bus)) ⊎ IsBusOf g p bus t
IsBusOf g p bus (c ∷ t) = IsBusOf g p bus t

-- `w` was made to watch a bus of the pipeline `p`.
unfoldable pub IsWatchOf : Gst → ℕ → ℕ → Trace → Type 0
IsWatchOf g p w [] = ⊥
IsWatchOf g p w (create_watch bus ∷ t) =
    ((g.pointer t (create_watch bus) ≡ some w) × IsBusOf g p bus t) ⊎ IsWatchOf g p w t
IsWatchOf g p w (c ∷ t) = IsWatchOf g p w t

-- `w` was made for the RTSP server `s`.
unfoldable pub IsSourceOf : Gst → ℕ → ℕ → Trace → Type 0
IsSourceOf g s w [] = ⊥
IsSourceOf g s w (rtsp_create_source q ∷ t) =
    ((q ≡ s) × (g.pointer t (rtsp_create_source q) ≡ some w)) ⊎ IsSourceOf g s w t
IsSourceOf g s w (c ∷ t) = IsSourceOf g s w t

pub attached_to-source_attach :
    (w c : ℕ) (t : Trace) → attached_to w (source_attach w c ∷ t) ≡ some c
unfolding attached_to
attached_to-source_attach w c t = rw (==_self w)

pub has_callback-set_callback : (w : ℕ) (t : Trace) → has_callback w (set_callback w ∷ t) ≡ true
unfolding has_callback
has_callback-set_callback w t = rw (==_self w)

-- Attaching another source to the same context changes nothing.
pub attached_to-attach :
    (v w c : ℕ) (t : Trace)
    → attached_to w t ≡ some c
    → attached_to w (source_attach v c ∷ t) ≡ some c
unfolding attached_to
attached_to-attach v w c t h = elim (Bool-cases (v == w)) [ inl e ↦ rw e refl | inr e ↦ rw e h ]
