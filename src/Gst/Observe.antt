-- ===== src/Gst/Observe.antt =====
-- What the calls made so far say of an object.
use camera_platform.Prelude.{
  ℕ, ◌+◌, Bool, ◌&&◌, ◌==◌, codes, equal, Option, none, some, [], ◌∷◌, if◌then◌else◌, ◌≡◌, arith,
}
use camera_platform.Gst.{
  Gst, Trace, object_set, flag, static_pad, request_pad, pad_unref, context_new, context_unref,
  loop_new, pull_sample, sample_unref, loop_quit, loop_ref, loop_unref, signal_source, create_watch,
  rtsp_create_source, source_unref,
}

-- What `drop` of a valve was last set to.
unfoldable pub last_drop : ℕ → Trace → Option Bool
last_drop v [] = none
last_drop v (object_set o property (flag d) ∷ t) =
    if o == v && equal property (codes "drop") then some d else last_drop v t
last_drop v (c ∷ t) = last_drop v t

abbrev pub one_if_some : Option ℕ → ℕ
one_if_some none = 0
one_if_some (some p) = 1

-- What the libraries count references or owners of: pads, main contexts, main loops and event sources
pub data Kind : Type 0 where
  pad context main_loop event_source : Kind

-- `n` where the kinds are the same
abbrev of_pad : Kind → ℕ → ℕ
of_pad pad n = n
of_pad context n = 0
of_pad main_loop n = 0
of_pad event_source n = 0

abbrev pub of_context : Kind → ℕ → ℕ
of_context pad n = 0
of_context context n = n
of_context main_loop n = 0
of_context event_source n = 0

abbrev pub of_main_loop : Kind → ℕ → ℕ
of_main_loop pad n = 0
of_main_loop context n = 0
of_main_loop main_loop n = n
of_main_loop event_source n = 0

abbrev pub of_event_source : Kind → ℕ → ℕ
of_event_source pad n = 0
of_event_source context n = 0
of_event_source main_loop n = 0
of_event_source event_source n = n

pub of_event_source-zero : (k : Kind) → of_event_source k 0 ≡ 0
of_event_source-zero k = ground arith

-- The objects of a kind that the calls have taken, and those given back.
unfoldable pub taken : Gst → Kind → Trace → ℕ
taken g k [] = 0
taken g k (static_pad e n ∷ t) = of_pad k (one_if_some (g.pointer t (static_pad e n))) + taken g k t
taken g k (request_pad e n ∷ t) =
    of_pad k (one_if_some (g.pointer t (request_pad e n))) + taken g k t
taken g k (context_new ∷ t) = of_context k (one_if_some (g.pointer t context_new)) + taken g k t
taken g k (loop_new c ∷ t) = of_main_loop k (one_if_some (g.pointer t (loop_new c))) + taken g k t
taken g k (loop_ref l ∷ t) = of_main_loop k 1 + taken g k t
taken g k (signal_source n ∷ t) =
    of_event_source k (one_if_some (g.pointer t (signal_source n))) + taken g k t
taken g k (create_watch b ∷ t) =
    of_event_source k (one_if_some (g.pointer t (create_watch b))) + taken g k t
taken g k (rtsp_create_source s ∷ t) =
    of_event_source k (one_if_some (g.pointer t (rtsp_create_source s))) + taken g k t
taken g k (c ∷ t) = taken g k t

unfoldable pub given : Kind → Trace → ℕ
given k [] = 0
given k (pad_unref p ∷ t) = of_pad k (one_if_some p) + given k t
given k (context_unref c ∷ t) = of_context k 1 + given k t
given k (loop_unref l ∷ t) = of_main_loop k 1 + given k t
given k (source_unref w ∷ t) = of_event_source k 1 + given k t
given k (c ∷ t) = given k t

-- Between the two traces all that is taken of a kind is given back.
abbrev pub GivenBack : Gst → Kind → Trace → Trace → Type 0
GivenBack g k t u = taken g k u + given k t ≡ taken g k t + given k u

pub GivenBack-trans :
    (g : Gst) (k : Kind) (t u v : Trace) → GivenBack g k t u → GivenBack g k u v → GivenBack g k t v
GivenBack-trans g k t u v p q = omega arith

-- So too, where an object owns `m` of a kind before and `n` after.
abbrev pub Held : Gst → Kind → ℕ → Trace → ℕ → Trace → Type 0
Held g k m t n u = taken g k u + given k t + m ≡ taken g k t + given k u + n

pub Held-trans :
    (g : Gst) (k : Kind) (l m n : ℕ) (t u v : Trace)
    → Held g k l t m u
    → Held g k m u n v
    → Held g k l t n v
Held-trans g k l m n t u v p q = omega arith

abbrev pub pads_taken : Gst → Trace → ℕ
pads_taken g t = taken g pad t

abbrev pub pads_given : Trace → ℕ
pads_given t = given pad t

-- Between the two traces every pad taken is given back.
abbrev pub PadsGivenBack : Gst → Trace → Trace → Type 0
PadsGivenBack g t u = pads_taken g u + pads_given t ≡ pads_taken g t + pads_given u

pub PadsGivenBack-trans :
    (g : Gst) (t u v : Trace) → PadsGivenBack g t u → PadsGivenBack g u v → PadsGivenBack g t v
PadsGivenBack-trans g t u v h k = omega arith

-- How often a main loop was asked to return
unfoldable pub quits : Trace → ℕ
quits [] = 0
quits (loop_quit l ∷ t) = 1 + quits t
quits (c ∷ t) = quits t

-- Between the two traces a main loop was asked `n` times.
abbrev pub Asked : ℕ → Trace → Trace → Type 0
Asked n t u = quits u ≡ quits t + n

-- The samples that the calls have pulled, and those released
unfoldable pub samples_taken : Gst → Trace → ℕ
samples_taken g [] = 0
samples_taken g (pull_sample s ∷ t) = one_if_some (g.pointer t (pull_sample s)) + samples_taken g t
samples_taken g (c ∷ t) = samples_taken g t

unfoldable pub samples_given : Trace → ℕ
samples_given [] = 0
samples_given (sample_unref s ∷ t) = 1 + samples_given t
samples_given (c ∷ t) = samples_given t
