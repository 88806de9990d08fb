-- ===== src/System/Steps/Lost/Forever.antt =====
-- After an exception of the machine that is no system call, in all states that the kernel gets to.
use cs170lab.Prelude.{ℕ, ◌<◌, ◌≡◌, refl, ap, false, some, List, [], ◌++◌, arith}
use cs170lab.Structs.{Ptr, Regs, Pcb}
use cs170lab.Env.{Env}
use cs170lab.Kernel.{Kernel}
use cs170lab.Trap.{
  Main, joining, runs, idles, halts, crashes, aborts, Exception, exception_handler, syscall,
  unknown,
}
use cs170lab.Trap.Idle.{IsTrap}
use cs170lab.Threads.{Nobody}
use cs170lab.Threads.Frames.{Still-refl}
use cs170lab.System.{
  Thread, Step, Reach, user_store, exception, interrupt, interrupt_noop, start_call, start_init,
  start_console, wake, join, here, next,
}
use cs170lab.System.Acts.{handler-Acts}
use cs170lab.System.Places.{count, tasked, owners-count, total}
use cs170lab.System.Steps.{Inv}
use cs170lab.System.Steps.Calls.{count_self}
use cs170lab.System.Steps.Turns.{
  current, at_curr, exception_handled, exception-Inv, interrupt_signals,
}
use cs170lab.System.Steps.Schedule.{cons_to_buff-Follows}
use cs170lab.System.Steps.Reached.{Threads-split, Whole-start, Reach-Inv}
use cs170lab.System.Steps.Order.Reached.{no-Step}
use cs170lab.System.Steps.Lost.{
  places, top, Within, Within-run, Within-weaken, Within-Acts, Within-exception, Within-signal,
  Within-interrupt, Within-dispatch,
}

module _ (env : Env) (x : Ptr) where
  -- A step brings `x` to no new place.
  Step-Within :
      {m n : Main} {ts us : List Thread}
      → Step env m ts n us
      → Inv m ts
      → x < top m
      → Within x (places x m ts) (top m) n us
  Step-Within (user_store a b p regs h ts inside byte) i old = (omega arith, omega arith)
  Step-Within (exception machine which p regs h ts) i old =
      Within-exception x env ts machine which p regs h i
  Step-Within (interrupt machine which p regs h ts) i old =
      Within-interrupt x env ts machine which p regs h i
  Step-Within (interrupt_noop machine which h ts) (idle, w) old =
      rw (interrupt_signals env ts machine which h idle)
        (Within-signal x env ts _ _ which h (omega arith, omega arith))
  Step-Within (start_call c p rest h ts e) w old =
      Within-weaken x _ _ _ _ _ _ (omega (arith, ap (λ l. count x (tasked l)) e)) (omega arith) (
        Within-Acts x env (record h { forked = rest }) p ts (Whole-start h ts c p rest e w) old
          (handler-Acts env p c))
  Step-Within (start_init argv rest h ts e) w old = absurd (rw e at w.started)
  Step-Within (start_console n rest h ts e) w old =
      let g : Kernel = record h { forked = rest } in
      Within-weaken x _ _ _ _ _ _ (omega (arith, ap (λ l. count x (tasked l)) e)) (omega arith)
        (Within-run x _ g [] ts (cons_to_buff-Follows env ts n g g (Still-refl Nobody g)))
  Step-Within (wake t sems h xs ys e) w old =
      let g : Kernel = record h { sems = sems } in
      Within-weaken x _ _ _ _ _ _ (omega (arith, owners-count x xs t ys)) (omega arith)
        (Within-run x (t.rest g) g t.owner (xs ++ ys) ((Threads-split xs t ys w.threads).0 g))
  Step-Within (join h ts e b) w old = Within-dispatch x env ts h w

module _ (env : Env) (clean : env.uninit_pcb.waiters ≡ []) (x : Ptr) where
  further :
      (l : Main) (vs : List Thread) {n : Main} {us : List Thread} (k : ℕ) (t : Ptr)
      → x < t
      → Within x k t l vs
      → Inv l vs
      → Step env l vs n us
      → Within x k t n us
  further (joining h) vs k t old (a, b) i s =
      Within-weaken x _ _ _ _ _ _ a b (Step-Within env x s i (omega (arith, old, b)))
  further (runs p regs h) vs k t old (a, b) i s =
      Within-weaken x _ _ _ _ _ _ a b (Step-Within env x s i (omega (arith, old, b)))
  further (idles h) vs k t old (a, b) i s =
      Within-weaken x _ _ _ _ _ _ a b (Step-Within env x s i (omega (arith, old, b)))
  further (halts h) vs k t old w i s = absurd (no-Step env clean s tt)
  further (aborts h) vs k t old w i s = absurd (no-Step env clean s tt)
  further crashes vs k t old w i s = absurd (no-Step env clean s tt)

  Within-Reach :
      {m : Main} {ts : List Thread} {n : Main} {us : List Thread} (k : ℕ) (t : Ptr)
      → Reach env m ts n us
      → Inv m ts
      → x < t
      → Within x k t m ts
      → Within x k t n us
  Within-Reach k t here i old w = w
  Within-Reach {m} {ts} k t (next {n} {l} {us} {vs} r s) i old w =
      further n us k t old (Within-Reach k t r i old w) (Reach-Inv env clean r i) s

  Within-places : (m : Main) (ts : List Thread) (t : Ptr) → Within x 0 t m ts → places x m ts ≡ 0
  Within-places (joining h) ts t (a, b) = omega (arith, a)
  Within-places (runs p regs h) ts t (a, b) = omega (arith, a)
  Within-places (idles h) ts t (a, b) = omega (arith, a)
  Within-places (halts h) ts t w = refl
  Within-places (aborts h) ts t w = refl
  Within-places crashes ts t w = refl

  trap_loses :
      (machine : Regs) (which : Exception) (h : Kernel) (ts : List Thread) (c : Pcb)
      → IsTrap which
      → h.is_noop ≡ false
      → h.pcbs h.curr ≡ some c
      → total x h ts ≡ 0
      → Within x 0 h.next (exception_handler machine which h) ts
  trap_loses machine syscall h ts c trap busy at gone = absurd trap
  trap_loses machine unknown h ts c trap busy at gone = absurd trap
  trap_loses machine which h ts c trap busy at gone =
      rw (exception_handled env ts machine which h c busy at) (omega (arith, gone), omega arith)

module _ (env : Env) (clean : env.uninit_pcb.waiters ≡ []) where
  -- From a state in the invariant in which the program of a process runs, after an exception that is no system call:
  -- in every state that the kernel gets to, whatever the others do, the process is in no place. Its program does not
  -- run, it is not ready, no thread is to start for it, and none that waits goes on for it, so it never ends. The
  -- list that `malloc` leaves in a structure is taken to be empty.
  pub Reach-lost :
      (machine : Regs) (which : Exception) (p : Ptr) (regs : Regs) (h : Kernel) (ts : List Thread)
      {n : Main} {us : List Thread}
      → IsTrap which
      → Inv (runs p regs h) ts
      → Reach env (exception_handler machine which h) ts n us
      → places p n us ≡ 0
  Reach-lost machine which p regs h ts {n} {us} trap (cur, busy, window, w) r =
      let (c, at) = current env ts h h.curr (at_curr h ts h.curr p cur w) in
      let a = w.sound.placed p (omega (arith, count_self p)) in
      let gone : total p h ts ≡ 0 = omega (arith, w.sound.once p, count_self p) in
      Within-places env clean p n us h.next (
        Within-Reach env clean p 0 h.next r
          (exception-Inv env ts machine which p regs h (cur, busy, window, w)) a.old
          (trap_loses env clean p machine which h ts c trap busy at gone))
