-- ===== src/Labs/LoopRefs/Account.antt =====
-- The references to the main loop in each mode of labs/lab-main-loop-refs.c.
use camera_platform.Prelude.{
  ◌+◌, false, Bytes, codes, equal, equal-eq, Bool-cases, inl, inr, none, ◌≡◌, sym, subst, arith,
  if◌then◌else◌,
}
use camera_platform.Gst.{Gst, Trace, loop_new}
use camera_platform.Gst.Effects.{branch}
use camera_platform.Gst.Observe.{main_loop, one_if_some, taken, given}
use camera_platform.Labs.LoopRefs.{main, release, quit_cb}

-- In the mode, `loop` is kept behind the end where the mode is to leak, and given back twice where it is
-- to release it twice.
abbrev pub Balance : Gst → Bytes → Trace → Trace → Type 0
Balance g mode t u =
    let loop = one_if_some (g.pointer t (loop_new none)) in
    taken g main_loop u + given main_loop t + (if equal mode (codes "double") then loop else 0)
    ≡ taken g main_loop t + given main_loop u + (if equal mode (codes "leak") then loop else 0)

leak-Balance : (g : Gst) (t : Trace) → Balance g (codes "leak") t (main g (codes "leak") tt t).2
unfolding main release quit_cb branch taken given
leak-Balance g t = ground arith

double-Balance :
    (g : Gst) (t : Trace) → Balance g (codes "double") t (main g (codes "double") tt t).2
unfolding main release quit_cb branch taken given
double-Balance g t = ground arith

extra-Balance : (g : Gst) (t : Trace) → Balance g (codes "extra") t (main g (codes "extra") tt t).2
unfolding main release quit_cb branch taken given
extra-Balance g t = ground arith

own-Balance :
    (g : Gst) (mode : Bytes) (t : Trace)
    → equal mode (codes "leak") ≡ false
    → equal mode (codes "double") ≡ false
    → equal mode (codes "extra") ≡ false
    → Balance g mode t (main g mode tt t).2
unfolding main release quit_cb taken given
own-Balance g mode t l d e = rw (l, d, e) (unfold branch in ground arith)

-- In every mode but `leak` and `double` the program gives back each reference to the main loop that it
-- takes, the one more of `extra` included; in `leak` it keeps one, and in `double` it gives back one more
-- than it has, whatever the library answers.
pub main-Balance : (g : Gst) (mode : Bytes) (t : Trace) → Balance g mode t (main g mode tt t).2
main-Balance g mode t = elim (Bool-cases (equal mode (codes "leak"))) [
  | inl l ↦
      subst (λ m. Balance g m t (main g m tt t).2) (sym (equal-eq mode (codes "leak") l))
        (leak-Balance g t)
  | inr l ↦ elim (Bool-cases (equal mode (codes "double"))) [
    | inl d ↦
        subst (λ m. Balance g m t (main g m tt t).2) (sym (equal-eq mode (codes "double") d))
          (double-Balance g t)
    | inr d ↦ elim (Bool-cases (equal mode (codes "extra"))) [
      | inl e ↦
          subst (λ m. Balance g m t (main g m tt t).2) (sym (equal-eq mode (codes "extra") e))
            (extra-Balance g t)
      | inr e ↦ own-Balance g mode t l d e
    ]
  ]
]
