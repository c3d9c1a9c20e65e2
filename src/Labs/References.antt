-- ===== src/Labs/References.antt =====
-- The account of the references that the programs of labs/ take and give back.
use camera_platform.Prelude.{ℕ, ◌+◌, [], ◌∷◌, ◌≡◌, arith}
use camera_platform.Gst.{
  Gst, Trace, static_pad, pad_peer, pad_parent, pad_unref, bin_get_by_name, object_unref,
  parse_launch, get_bus,
}
use camera_platform.Gst.Observe.{one_if_some}

-- The references to elements, buses and pads that the calls have taken, and those given back
unfoldable pub refs_taken : Gst → Trace → ℕ
refs_taken g [] = 0
refs_taken g (bin_get_by_name b n ∷ t) =
    one_if_some (g.pointer t (bin_get_by_name b n)) + refs_taken g t
refs_taken g (static_pad e n ∷ t) = one_if_some (g.pointer t (static_pad e n)) + refs_taken g t
refs_taken g (pad_peer p ∷ t) = one_if_some (g.pointer t (pad_peer p)) + refs_taken g t
refs_taken g (pad_parent p ∷ t) = one_if_some (g.pointer t (pad_parent p)) + refs_taken g t
refs_taken g (parse_launch d ∷ t) = one_if_some (g.pointer t (parse_launch d)) + refs_taken g t
refs_taken g (get_bus o ∷ t) = one_if_some (g.pointer t (get_bus o)) + refs_taken g t
refs_taken g (c ∷ t) = refs_taken g t

unfoldable pub refs_given : Trace → ℕ
refs_given [] = 0
refs_given (pad_unref p ∷ t) = one_if_some p + refs_given t
refs_given (object_unref o ∷ t) = 1 + refs_given t
refs_given (c ∷ t) = refs_given t

-- Between the two traces `extra` more references were taken than given back.
abbrev pub Extra : Gst → ℕ → Trace → Trace → Type 0
Extra g extra t u = refs_taken g u + refs_given t ≡ refs_taken g t + refs_given u + extra

pub Extra-trans :
    (g : Gst) (extra : ℕ) (t u v : Trace) → Extra g 0 t u → Extra g extra u v → Extra g extra t v
Extra-trans g extra t u v h k = omega arith
