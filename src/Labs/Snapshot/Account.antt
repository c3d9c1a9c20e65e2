-- ===== src/Labs/Snapshot/Account.antt =====
-- What the variables of labs/lab7-snapshot.cpp say of each other and of the valve.
use camera_platform.Prelude.{
  ℕ, suc, ◌+◌, ◌≤◌, ◌<◌, Bool, true, false, not, Option, none, some, List, [], ◌∷◌, ◌≡◌, ◌∙◌, refl,
  arith, if◌then◌else◌,
}
use camera_platform.Gst.{Gst, Trace, try_pull_sample}
use camera_platform.Gst.Effects.{M, ◌>>=◌, ◌>>◌, pure, branch, branch-outcome, ask_some}
use camera_platform.Gst.Observe.{last_drop}
use camera_platform.Labs.Snapshot.{
  Snapshots, request_snapshot, poll_snapshot, with_sample, settle, set_drop,
}

pub data Event : Type 0 where
  request poll : Event

-- One of `snap1`, `snap2` and `snap3`, or the timer's callback
unfoldable pub handle : Gst → Event → M Snapshots (Unit {0})
handle g request = request_snapshot g
handle g poll = do again ← poll_snapshot g; pure tt

unfoldable pub handle_all : Gst → List Event → M Snapshots (Unit {0})
handle_all g [] = pure tt
handle_all g (e ∷ es) = do handle g e; handle_all g es

one_if : Bool → ℕ
one_if b = if b then 1 else 0

abbrev pub requests : List Event → ℕ
requests [] = 0
requests (request ∷ es) = suc (requests es)
requests (poll ∷ es) = requests es

-- After `n` requests: they are numbered, each is awaited, timed out or delivered, and the valve is
-- open just while one is awaited.
abbrev pub Account : ℕ → ℕ → Snapshots → Trace → Type 0
Account v n s t =
    (s.valve ≡ some v)
    × (s.snapshot_id ≡ n)
    × (s.timeouts + (if s.waiting then 1 else 0) ≤ n)
    × (last_drop v t ≡ some (not s.waiting))

with_sample-Account :
    (v n : ℕ) (g : Gst) (sample : Option ℕ) (s : Snapshots) (t : Trace)
    → n < 0x100000000
    → s.waiting ≡ true
    → Account v n s t
    → Account v n (with_sample g sample s t).1 (with_sample g sample s t).2
unfolding with_sample settle set_drop last_drop branch
with_sample-Account v n g sample s t l w h = ground arith

request_snapshot-Account :
    (v n : ℕ) (g : Gst) (s : Snapshots) (t : Trace)
    → suc n < 0x100000000
    → Account v n s t
    → Account v (suc n) (request_snapshot g s t).1 (request_snapshot g s t).2
unfolding request_snapshot set_drop last_drop
request_snapshot-Account v n g s t l h = ground arith

asked-last_drop :
    (v : ℕ) (g : Gst) (sink : Option ℕ) (s : Snapshots) (t : Trace)
    → last_drop v (ask_some g try_pull_sample sink s t).2 ≡ last_drop v t
unfolding last_drop
asked-last_drop v g none s t = refl
asked-last_drop v g (some sink) s t = refl

poll_snapshot-Account :
    (v n : ℕ) (g : Gst) (s : Snapshots) (t : Trace)
    → n < 0x100000000
    → Account v n s t
    → Account v n (poll_snapshot g s t).1 (poll_snapshot g s t).2
unfolding poll_snapshot
poll_snapshot-Account v n g s t l h =
    branch-outcome (λ x. Account v n x.1 x.2) _ _ _ s t (λ e. h)
      λ e.
        let sample = ask_some g try_pull_sample s.snap_sink s t in
        with_sample-Account v n g sample.0 s sample.2 l (flipped e)
          (h.0, h.1, h.2, asked-last_drop v g s.snap_sink s t ∙ h.3)
  where
    flipped : {b : Bool} → not b ≡ false → b ≡ true
    flipped h = ground arith

handle_all-Account :
    (v n m : ℕ) (g : Gst) (es : List Event) (s : Snapshots) (t : Trace)
    → m ≡ n + requests es
    → m < 0x100000000
    → Account v n s t
    → Account v m (handle_all g es s t).1 (handle_all g es s t).2
unfolding handle_all handle
handle_all-Account v n m g [] s t e l h = ground arith
handle_all-Account v n m g (request ∷ es) s t e l h =
    handle_all-Account v (suc n) m g es _ _ (omega arith) l
      (request_snapshot-Account v n g s t (omega arith) h)
handle_all-Account v n m g (poll ∷ es) s t e l h =
    handle_all-Account v n m g es _ _ e l (poll_snapshot-Account v n g s t (omega arith) h)

-- From a closed valve `v`, with nothing awaited and the counters zero, after any requests, fewer than
-- 2 ^ 32, and any polls: the requests are numbered, the timeouts and the one awaited are no more than
-- the requests, and the valve is open just while one is awaited, whatever GStreamer answers.
pub snapshots-Account :
    (v : ℕ) (g : Gst) (es : List Event) (s : Snapshots) (t : Trace)
    → requests es < 0x100000000
    → (s.timeouts ≡ 0) × (s.waiting ≡ false)
    → (s.valve ≡ some v) × (s.snapshot_id ≡ 0) × (last_drop v t ≡ some true)
    → Account v (requests es) (handle_all g es s t).1 (handle_all g es s t).2
snapshots-Account v g es s t l h k =
    handle_all-Account v 0 (requests es) g es s t (omega arith) l (ground arith)
