-- ===== src/System/Steps/Lives/Reached.antt =====
-- The states that the kernel gets to against the life of processes.
use cs170lab.System.Steps.Lives.{Shows-run}
use cs170lab.System.Steps.Lives.Calls.{Shows-Acts}
use cs170lab.System.Steps.Lives.Traps.{
  Shows-exception, Shows-signal, Shows-interrupt, Shows-dispatch,
}
use cs170lab.Prelude.{ℕ, ◌≡◌, refl, sym, List, [], ◌∷◌, ◌++◌}
use mathlib.Core.List.{append_assoc, append-nil}
use cs170lab.Structs.{Ptr}
use cs170lab.Env.{Env}
use cs170lab.Kernel.{Kernel}
use cs170lab.Console.{cons_to_buff}
use cs170lab.Trap.{Main, joining, runs, idles, halts, crashes, aborts}
use cs170lab.Threads.{Nobody}
use cs170lab.Threads.Frames.{Still-refl}
use cs170lab.System.{
  Thread, Step, Reach, main_of, threads_of, user_store, exception, interrupt, interrupt_noop,
  start_call, start_init, start_console, wake, join, here, next,
}
use cs170lab.System.Places.{tasked, owners}
use cs170lab.System.Acts.{handler-Acts}
use cs170lab.System.Life.{View, Life, Lives, Lives-trans, same, once, view, Shows}
use cs170lab.System.Steps.{Whole, Inv}
use cs170lab.System.Steps.Turns.{interrupt_signals}
use cs170lab.System.Steps.Schedule.{cons_to_buff-Follows}
use cs170lab.System.Steps.Reached.{Threads-split, Whole-start, Reach-Inv}

-- The thread `t` out of those that wait.
owners-split :
    (xs : List Thread) (t : Thread) (ys : List Thread)
    → owners (xs ++ t ∷ ys) ≡ owners xs ++ (t.owner ++ owners ys)
owners-split [] t ys = refl
owners-split (x ∷ xs) t ys =
    rw (owners-split xs t ys) (sym (append_assoc x.owner (owners xs) (t.owner ++ owners ys)))

owners-append : (xs ys : List Thread) → owners (xs ++ ys) ≡ owners xs ++ owners ys
owners-append [] ys = refl
owners-append (x ∷ xs) ys =
    rw (owners-append xs ys) (sym (append_assoc x.owner (owners xs) (owners ys)))

module _ (env : Env) (clean : env.uninit_pcb.waiters ≡ []) where
  Shows-wake :
      (t : Thread) (sems : Ptr → ℕ) (h : Kernel) (xs ys : List Thread)
      → Whole h (xs ++ t ∷ ys) (λ x. 0)
      → Shows
          (view (joining h) (xs ++ t ∷ ys))
          (main_of (t.rest (record h { sems = sems })))
          (threads_of t.owner (t.rest (record h { sems = sems })) ++ (xs ++ ys))
  Shows-wake t sems h xs ys w =
      Shows-run (view (joining h) (xs ++ t ∷ ys)) (t.rest (record h { sems = sems }))
        (record h { sems = sems }) t.owner (xs ++ ys)
        ((Threads-split xs t ys w.threads).0 (record h { sems = sems }))
        (rw (owners-split xs t ys, owners-append xs ys)
          (once (Life.woken t.owner h.readyq (tasked h.forked) (owners xs) (owners ys))))
        (rw (owners-split xs t ys, owners-append xs ys)
          (once (Life.blocked_again t.owner h.readyq (tasked h.forked) (owners xs) (owners ys))))

  Shows-console :
      (n : ℕ) (h : Kernel) (ts : List Thread)
      → Shows
          (view (joining h) ts)
          (main_of (cons_to_buff env n h))
          (threads_of [] (cons_to_buff env n h) ++ ts)
  Shows-console n h ts =
      Shows-run (view (joining h) ts) (cons_to_buff env n h) h [] ts
        (cons_to_buff-Follows env ts n h h (Still-refl Nobody h)) (rw (append-nil h.readyq) same)
        same

  -- A step of the kernel, from a state in the invariant.
  Step-Shows :
      {m n : Main} {ts us : List Thread} → Step env m ts n us → Inv m ts → Shows (view m ts) n us
  Step-Shows (user_store a b p regs h ts inside byte) i = same
  Step-Shows (exception machine which p regs h ts) i =
      Shows-exception env ts machine which p regs h i
  Step-Shows (interrupt machine which p regs h ts) i =
      Shows-interrupt env ts machine which p regs h i
  Step-Shows (interrupt_noop machine which h ts) (idle, w) =
      rw (interrupt_signals env ts machine which h idle)
        (Shows-signal env ts (view (joining h) ts) which h same)
  Step-Shows (start_call c p rest h ts e) w = rw e (
      Shows-Acts env (record h { forked = rest }) p ts (Whole-start h ts c p rest e w)
        (handler-Acts env p c))
  Step-Shows (start_init argv rest h ts e) w = absurd (rw e at w.started)
  Step-Shows (start_console n rest h ts e) w =
      rw e (Shows-console n (record h { forked = rest }) ts)
  Step-Shows (wake t sems h xs ys e) w = Shows-wake t sems h xs ys w
  Step-Shows (join h ts e b) w = Shows-dispatch env ts h e w

  Shows-trans :
      (v : View) (u : View) (n : Main) (us : List Thread) → Lives v u → Shows u n us → Shows v n us
  Shows-trans v u (joining h) us l m = Lives-trans l m
  Shows-trans v u (runs p regs h) us l m = Lives-trans l m
  Shows-trans v u (idles h) us l m = Lives-trans l m
  Shows-trans v u (halts h) us l m = tt
  Shows-trans v u (aborts h) us l m = tt
  Shows-trans v u crashes us l m = tt

  -- There is a step only where the simulation has not ended.
  Shows-view :
      {m n : Main} {ts us : List Thread} (v : View)
      → Step env m ts n us
      → Shows v m ts
      → Lives v (view m ts)
  Shows-view v (user_store a b p regs h ts inside byte) l = l
  Shows-view v (exception machine which p regs h ts) l = l
  Shows-view v (interrupt machine which p regs h ts) l = l
  Shows-view v (interrupt_noop machine which h ts) l = l
  Shows-view v (start_call c p rest h ts e) l = l
  Shows-view v (start_init argv rest h ts e) l = l
  Shows-view v (start_console n rest h ts e) l = l
  Shows-view v (wake t sems h xs ys e) l = l
  Shows-view v (join h ts e b) l = l

  Shows-self : (m : Main) (ts : List Thread) → Shows (view m ts) m ts
  Shows-self (joining h) ts = same
  Shows-self (runs p regs h) ts = same
  Shows-self (idles h) ts = same
  Shows-self (halts h) ts = tt
  Shows-self (aborts h) ts = tt
  Shows-self crashes ts = tt

  -- From a state in the invariant, whatever the kernel gets to, by stores and traps of the user programs and by threads in any
  -- order, is what processes can get to by steps of their life: the process that runs asks, yields or is lost; those
  -- that have asked are served in their order, wait, end, or get a child that is no process yet; those that wait are
  -- served at some time or wait again; and the first that is ready runs when nobody asks. So the ready queue is
  -- first in, first out. Nothing is said of a state where the simulation has ended. The list that `malloc` leaves
  -- in a structure is taken to be empty.
  pub Reach-Shows :
      {m : Main} {ts : List Thread} {n : Main} {us : List Thread}
      → Reach env m ts n us
      → Inv m ts
      → Shows (view m ts) n us
  Reach-Shows {m} {ts} here i = Shows-self m ts
  Reach-Shows {m} {ts} (next {n} {l} {us} {vs} r s) i =
      Shows-trans (view m ts) (view n us) l vs (Shows-view (view m ts) s (Reach-Shows r i))
        (Step-Shows s (Reach-Inv env clean r i))
