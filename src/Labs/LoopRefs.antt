-- ===== src/Labs/LoopRefs.antt =====
-- labs/lab-main-loop-refs.c: who owns a main loop. The lines that it prints are left out.
pub mod Account
use camera_platform.Prelude.{ℕ, Bool, Bytes, codes, equal, List, Option, none, some}
use camera_platform.Gst.{Gst, loop_new, loop_ref, loop_run, loop_quit, loop_unref, timeout_add}
use camera_platform.Gst.Effects.{M, ◌>>=◌, ◌>>◌, pure, branch, call, call_some, ask_pointer}

-- The program keeps no variable beside its stack.
abbrev Program : Type 0 → Type 0
Program A = M (Unit {0}) A

-- `quit_cb`; its data is the loop.
unfoldable quit_cb : Option ℕ → Program (Unit {0})
quit_cb loop = call_some loop_quit loop

-- `main` behind the main loop
release : Bytes → Option ℕ → Program (Unit {0})
release mode loop = branch (equal mode (codes "leak")) (pure tt) (
    branch (equal mode (codes "double")) (do call_some loop_unref loop; call_some loop_unref loop)
      (branch (equal mode (codes "extra")) (do call_some loop_unref loop; call_some loop_unref loop)
        (call_some loop_unref loop)))

-- `main`, in the mode that the command line asks for
pub main : Gst → Bytes → Program ℕ
unfolding release quit_cb
main g mode = do
  loop ← ask_pointer g (loop_new none)
  call (timeout_add 100 (codes "quit_cb"))
  branch (equal mode (codes "extra")) (call_some loop_ref loop) (pure tt)
  call_some loop_run loop
  quit_cb loop
  release mode loop
  pure 0
