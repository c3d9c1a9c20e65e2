-- ===== src/Labs/Stall/References.antt =====
-- The search for a queue of labs/lab-stall-mechanism.cpp: what it finds, and the references it takes.
use camera_platform.Prelude.{◌≡◌, ℕ, Bool, Option, none, some}
use camera_platform.Gst.{Gst, Trace}
use camera_platform.Gst.Effects.{M}
use camera_platform.Gst.Observe.{one_if_some}
use camera_platform.Labs.References.{Extra}
use camera_platform.Labs.Stall.{Stall, Names, feeds_encoder}

-- `rest` gives back what it takes, but the reference that it returns.
abbrev KeepsOnlyItsResult : Gst → M Stall (Option ℕ) → Type 0
KeepsOnlyItsResult g m = (s : Stall) (t : Trace) → Extra g (one_if_some (m s t).0) t (m s t).2

-- A queue `q` that was found is the last thing looked at, and its branch is the one looked for.
abbrev pub Found : Gst → Names → Bool → Option ℕ → Trace → Type 0
Found g name want none u = Unit {0}
Found g name want (some q) u =
    (s : Stall) × (t : Trace) × ((feeds_encoder g name q s t).0 ≡ want)
    × ((feeds_encoder g name q s t).2 ≡ u)
