-- ===== src/Server/Rtsp/Relay.antt =====
-- What `RtspProfileServer::onNewSample` does with the sample that it pulls and the buffer that it copies.
use camera_platform.Prelude.{ℕ, List, Option, none, some, [], ◌∷◌, ◌++◌, ◌≡◌, refl, ap, ◌∙◌}
use camera_platform.Gst.{
  Gst, Trace, pull_sample, sample_unref, buffer_copy, clear_times, src_set_caps, push_buffer,
  buffer_unref,
}
use camera_platform.Server.Rtsp.{
  Mount, FlowReturn, flow_ok, flow_error, forward, relay, with_sample, on_new_sample,
}

abbrev listed : Option ℕ → List ℕ
listed none = []
listed (some x) = x ∷ []

abbrev tagged : ℕ → Option ℕ → List (ℕ × ℕ)
tagged o none = []
tagged o (some x) = (o, x) ∷ []

-- The samples that the calls have pulled, each with its sink, and those released
pub pulls : Gst → Trace → List (ℕ × ℕ)
pulls g [] = []
pulls g (pull_sample s ∷ t) = tagged s (g.pointer t (pull_sample s)) ++ pulls g t
pulls g (c ∷ t) = pulls g t

pub releases : Trace → List ℕ
releases [] = []
releases (sample_unref s ∷ t) = s ∷ releases t
releases (c ∷ t) = releases t

-- The buffers that the calls have copied, each with the sample that it was in
pub copies : Gst → Trace → List (ℕ × ℕ)
copies g [] = []
copies g (buffer_copy s ∷ t) = tagged s (g.pointer t (buffer_copy s)) ++ copies g t
copies g (c ∷ t) = copies g t

-- What an appsrc is given: the caps of a sample, or a buffer; or a buffer is released.
pub data Delivery : Type 0 where
  caps_of pushed : ℕ → ℕ → Delivery
  dropped : ℕ → Delivery

pub deliveries : Trace → List Delivery
deliveries [] = []
deliveries (src_set_caps src s ∷ t) = caps_of src s ∷ deliveries t
deliveries (push_buffer src b ∷ t) = pushed src b ∷ deliveries t
deliveries (buffer_unref b ∷ t) = dropped b ∷ deliveries t
deliveries (c ∷ t) = deliveries t

-- Where a buffer goes that was copied from the sample, the last delivery first
abbrev pub delivered : Option ℕ → (sample buffer : Option ℕ) → List Delivery
delivered src none b = []
delivered src (some s) none = []
delivered none (some s) (some b) = dropped b ∷ []
delivered (some src) (some s) (some b) = pushed src b ∷ caps_of src s ∷ []

abbrev pub copied : (sample buffer : Option ℕ) → List (ℕ × ℕ)
copied none b = []
copied (some s) b = tagged s b

abbrev pub answer : Option ℕ → FlowReturn
answer none = flow_error
answer (some s) = flow_ok

-- What a call came to that pulled `sample` and copied `buffer` from it, either of which may be missing.
pub record Relayed (g : Gst) (sink : ℕ) (m : Mount) (t : Trace) (r : FlowReturn × Mount × Trace)
    : Type 0 where
  pub sample : Option ℕ
  pub buffer : Option ℕ
  pub mount_kept : r.1 ≡ m
  pub answered : r.0 ≡ answer sample
  pub pulled : pulls g r.2 ≡ tagged sink sample ++ pulls g t
  pub released : releases r.2 ≡ listed sample ++ releases t
  pub made : copies g r.2 ≡ copied sample buffer ++ copies g t
  pub sent : deliveries r.2 ≡ delivered m.app_src sample buffer ++ deliveries t

forward-deliveries :
    (s b : ℕ) (src : Option ℕ) (m : Mount) (t : Trace)
    → let r = forward s b src m t in
      deliveries (sample_unref s ∷ r.2) ≡ delivered src (some s) (some b) ++ deliveries t
unfolding forward deliveries
forward-deliveries s b none m t = refl
forward-deliveries s b (some src) m t = refl

forward-others :
    (g : Gst) (s b : ℕ) (src : Option ℕ) (m : Mount) (t : Trace)
    → let r = forward s b src m t in
      (r.1 ≡ m)
      × (pulls g (sample_unref s ∷ r.2) ≡ pulls g t)
      × (releases (sample_unref s ∷ r.2) ≡ s ∷ releases t)
      × (copies g (sample_unref s ∷ r.2) ≡ copies g t)
unfolding forward pulls releases copies
forward-others g s b none m t = (refl, refl, refl, refl)
forward-others g s b (some src) m t = (refl, refl, refl, refl)

relay-Relayed :
    (g : Gst) (sink s : ℕ) (o : Option ℕ) (m : Mount) (t : Trace)
    → g.pointer t (pull_sample sink) ≡ some s
    → g.pointer (pull_sample sink ∷ t) (buffer_copy s) ≡ o
    → let r = relay s o m (buffer_copy s ∷ pull_sample sink ∷ t) in
      Relayed g sink m t (flow_ok, r.1, sample_unref s ∷ r.2)
unfolding relay pulls releases copies deliveries
relay-Relayed g sink s none m t e f = record {
  sample = some s;
  buffer = none;
  mount_kept = refl;
  answered = refl;
  pulled = ap (λ p. tagged sink p ++ pulls g t) e;
  released = refl;
  made = ap (λ p. tagged s p ++ copies g t) f;
  sent = refl;
}
relay-Relayed g sink s (some b) m t e f =
    let u = clear_times b ∷ buffer_copy s ∷ pull_sample sink ∷ t in
    let o = forward-others g s b m.app_src m u in
    record {
      sample = some s;
      buffer = some b;
      mount_kept = o.0;
      answered = refl;
      pulled = o.1 ∙ ap (λ p. tagged sink p ++ pulls g t) e;
      released = o.2;
      made = o.3 ∙ ap (λ p. tagged s p ++ copies g t) f;
      sent = forward-deliveries s b m.app_src m u;
    }

with_sample-Relayed :
    (g : Gst) (sink : ℕ) (o : Option ℕ) (m : Mount) (t : Trace)
    → g.pointer t (pull_sample sink) ≡ o
    → Relayed g sink m t (with_sample g o m (pull_sample sink ∷ t))
unfolding with_sample pulls releases copies deliveries
with_sample-Relayed g sink none m t e = record {
  sample = none;
  buffer = none;
  mount_kept = refl;
  answered = refl;
  pulled = ap (λ p. tagged sink p ++ pulls g t) e;
  released = refl;
  made = refl;
  sent = refl;
}
with_sample-Relayed g sink (some s) m t e = relay-Relayed g sink s _ m t e refl

-- `onNewSample` leaves the mount as it is and pulls at most one sample from its sink. A sample that it
-- pulls is released, and that one alone; a buffer that it copies from it goes to the medium's appsrc, which
-- is given the caps of the sample just before, or is released where no medium is connected, and nothing
-- else is given to an appsrc or released. It answers an error just where there is no sample.
pub on_new_sample-Relayed :
    (g : Gst) (sink : ℕ) (m : Mount) (t : Trace) → Relayed g sink m t (on_new_sample g sink m t)
unfolding on_new_sample
on_new_sample-Relayed g sink m t = with_sample-Relayed g sink _ m t refl
