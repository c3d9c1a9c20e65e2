-- ===== src/Gst/Elements.antt =====
-- The account of the elements that the program makes, and of the buses that it asks for.
use camera_platform.Prelude.{ℕ, ◌+◌, length, [], ◌∷◌, ◌≡◌}
use camera_platform.Gst.{
  Gst, Trace, factory_make, pipeline_new, bin_new, object_unref, bin_add, get_bus, bus_unref,
}
use camera_platform.Gst.Observe.{one_if_some}

-- The elements, bins and pipelines that the calls have made and the buses that they have taken, and those
-- released or handed to a bin
unfoldable pub made : Gst → Trace → ℕ
made g [] = 0
made g (factory_make e n ∷ t) = one_if_some (g.pointer t (factory_make e n)) + made g t
made g (pipeline_new n ∷ t) = one_if_some (g.pointer t (pipeline_new n)) + made g t
made g (bin_new n ∷ t) = one_if_some (g.pointer t (bin_new n)) + made g t
made g (get_bus o ∷ t) = one_if_some (g.pointer t (get_bus o)) + made g t
made g (c ∷ t) = made g t

unfoldable pub settled : Trace → ℕ
settled [] = 0
settled (object_unref o ∷ t) = 1 + settled t
settled (bin_add p es ∷ t) = length es + settled t
settled (bus_unref b ∷ t) = one_if_some b + settled t
settled (c ∷ t) = settled t

-- Between the traces `extra` objects were made or taken that are neither settled nor owned, where an object
-- owned `m` before and owns `n` after.
abbrev pub Account : Gst → ℕ → ℕ → Trace → ℕ → Trace → Type 0
Account g extra m t n u = made g u + settled t + m ≡ made g t + settled u + n + extra
