-- ===== src/Server/Host/Control/Release.antt =====
-- What the destructor of a host of server/ProfileHost.cpp gives back.
use camera_platform.Prelude.{ℕ, List, Option, [], ◌∷◌, refl, ap, arith}
use camera_platform.Gst.{Gst, Trace}
use camera_platform.Gst.Effects.{branch}
use camera_platform.Gst.Observe.{
  Kind, of_event_source, of_event_source-zero, one_if_some, taken, given, Held,
}
use camera_platform.Server.Bin.{ProfileBin, set_drop}
use camera_platform.Server.Bin
use camera_platform.Server.Host.{ProfileHost, cleanup}
use camera_platform.Server.Host.Control.{detach_bus_watch, destroy_bins, destroy_host}
use camera_platform.Server.Host.Control.Sources.{
  host_owns, detach_from-none, detach_bus_watch-HostHeld,
}

cleanup-keeps : (g : Gst) (k : Kind) (h : ProfileHost) (t : Trace) → Held g k 0 t 0 (cleanup h t).2
unfolding cleanup branch taken given
cleanup-keeps g k h t = ground arith

destroy_bin-keeps :
    (g : Gst) (k : Kind) (b : ProfileBin) (t : Trace) → Held g k 0 t 0 (Bin.destroy_bin b t).2
unfolding Bin.destroy_bin branch taken given
destroy_bin-keeps g k b t = ground arith

destroy_bins-keeps :
    (g : Gst) (k : Kind) (bs : List ProfileBin) (t : Trace) → Held g k 0 t 0 (destroy_bins bs t)
unfolding destroy_bins
destroy_bins-keeps g k [] t = refl
destroy_bins-keeps g k (b ∷ bs) t =
    omega (arith, destroy_bin-keeps g k b t, destroy_bins-keeps g k bs (Bin.destroy_bin b t).2)

-- The destructor gives back all that the host owns.
pub destroy_host-HostHeld :
    (g : Gst) (k : Kind) (h : ProfileHost) (t : Trace)
    → Held g k (host_owns k h) t 0 (destroy_host h t).2
unfolding destroy_host detach_bus_watch
destroy_host-HostHeld g k h t =
    let d = detach_bus_watch h t in
    let c = cleanup d.1 d.2 in
    omega (
      arith,
      detach_bus_watch-HostHeld g k h t,
      cleanup-keeps g k d.1 d.2,
      destroy_bins-keeps g k c.1.bins c.2,
      of_event_source-zero k,
      ap (λ (o : Option ℕ). of_event_source k (one_if_some o))
          (detach_from-none h.bus_source h t refl),
    )
