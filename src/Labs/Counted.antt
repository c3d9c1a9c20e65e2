-- ===== src/Labs/Counted.antt =====
-- The counter of samples and the references of the viewers of labs/lab5-rtsp-client.cpp and
-- labs/lab8-rtsp-client.cpp.
use camera_platform.Prelude.{ℕ, ◌+◌, ◌<◌, ◌%◌, ◌≡◌, Bytes, ◌∷◌, refl, arith}
use camera_platform.Gst.{Gst, Trace, parse_launch, gst_init}
use camera_platform.Gst.Observe.{
  Kind, Held, taken, given, one_if_some, samples_taken, samples_given,
}
use camera_platform.Labs.References.{refs_taken, refs_given}

-- Between the two traces some samples were pulled, each was released, and the counter has gone from `m` to
-- `n` by their number, on 32 bits.
abbrev pub Counted : Gst → ℕ → Trace → ℕ → Trace → Type 0
Counted g m t n u =
    (pulled : ℕ) × (samples_taken g u ≡ samples_taken g t + pulled)
    × (samples_given u ≡ samples_given t + pulled)
    × (n ≡ (m + pulled) % 0x100000000)

Counted-refl : (g : Gst) (m : ℕ) (t : Trace) → m < 0x100000000 → Counted g m t m t
Counted-refl g m t h = (0, omega arith, omega arith, omega arith)

Counted-trans :
    (g : Gst) (l m n : ℕ) (t u v : Trace)
    → Counted g l t m u
    → Counted g m u n v
    → Counted g l t n v
Counted-trans g l m n t u v (p, a, b, c) (q, d, e, f) =
    (p + q, omega arith, omega arith, omega arith)

-- So the counter stays below 2 ^ 32.
pub Counted-lt : (g : Gst) (m n : ℕ) (t u : Trace) → Counted g m t n u → n < 0x100000000
Counted-lt g m n t u (p, a, b, c) = omega arith

-- What a viewer owns: references to elements, and objects of each kind
pub record Owned : Type 0 where
  pub references : ℕ
  pub objects : ℕ

abbrev pub nothing : Owned
nothing = record { references = 0; objects = 0 }

-- Samples are counted and released, and all that is taken is given back or owned then.
pub record Accounted (g : Gst) (k : Kind) (m : ℕ) (a : Owned) (t : Trace) (n : ℕ) (b : Owned)
    (u : Trace) : Type 0 where
  pub counted : Counted g m t n u
  pub references :
      refs_taken g u + refs_given t + a.references ≡ refs_taken g t + refs_given u + b.references
  pub objects : Held g k a.objects t b.objects u

pub Accounted-trans :
    (g : Gst) (k : Kind) (l m n : ℕ) (a b c : Owned) (t u v : Trace)
    → Accounted g k l a t m b u
    → Accounted g k m b u n c v
    → Accounted g k l a t n c v
Accounted-trans g k l m n a b c t u v p q = record {
  counted = Counted-trans g l m n t u v p.counted q.counted;
  references = omega (arith, p.references, q.references);
  objects = omega (arith, p.objects, q.objects);
}

-- Calls that pull no sample leave the counter as it is.
pub quiet-Accounted :
    (g : Gst) (k : Kind) (m : ℕ) (a b : Owned) (t u : Trace)
    → m < 0x100000000
    → samples_taken g u ≡ samples_taken g t
    → samples_given u ≡ samples_given t
    → refs_taken g u + refs_given t + a.references ≡ refs_taken g t + refs_given u + b.references
    → Held g k a.objects t b.objects u
    → Accounted g k m a t m b u
quiet-Accounted g k m a b t u h taken_same given_same refs held = record {
  counted = (0, omega arith, omega arith, omega arith);
  references = refs;
  objects = held;
}

abbrev pub owns : ℕ → ℕ → Owned
owns references objects = record { references = references; objects = objects }

-- What a run leaves alone may be owned meanwhile.
pub Accounted-frame :
    (g : Gst) (k : Kind) (m n : ℕ) (a : Owned) (t u : Trace)
    → Accounted g k m nothing t n nothing u
    → Accounted g k m a t n a u
Accounted-frame g k m n a t u p = record {
  counted = p.counted;
  references = omega (arith, p.references);
  objects = omega (arith, p.objects);
}

pub asked-Accounted :
    (g : Gst) (k : Kind) (m : ℕ) (line : Bytes) (t : Trace)
    → m < 0x100000000
    → Accounted g k m nothing t m
        (owns (one_if_some (g.pointer t (parse_launch line))) 0)
        (parse_launch line ∷ t)
unfolding samples_taken samples_given refs_taken refs_given taken given
asked-Accounted g k m line t h =
    quiet-Accounted g k m nothing (owns (one_if_some (g.pointer t (parse_launch line))) 0) t
      (parse_launch line ∷ t) h refl refl (omega arith) (omega arith)

pub initialised-Accounted :
    (g : Gst) (k : Kind) (m : ℕ) (t : Trace)
    → m < 0x100000000
    → Accounted g k m nothing t m nothing (gst_init ∷ t)
unfolding samples_taken samples_given refs_taken refs_given taken given
initialised-Accounted g k m t h =
    quiet-Accounted g k m nothing nothing t (gst_init ∷ t) h refl refl (omega arith) (omega arith)
