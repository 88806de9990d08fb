-- ===== src/System/Steps/Order.antt =====
-- The steps of the kernel against the order of the ready queue.
pub mod Reached
use cs170lab.Prelude.{
  ℕ, ◌+◌, ◌*◌, ◌≤◌, ◌≡◌, ◌⊎◌, ◌∙◌, refl, sym, ap, inl, inr, Bool, true, false, Option, none, some,
  List, [], ◌∷◌, ◌++◌, arith, Bool-cases, ◌==◌, if◌then◌else◌,
}
use mathlib.Core.List.{append-nil}
use cs170lab.Prelude.Int.{ℤ, pos, negsuc}
use cs170lab.Structs.{Ptr, Regs, Pcb, memory_size, null}
use cs170lab.Env.{Env}
use cs170lab.Kernel.{Kernel, Run, exited, waits, stopped, fault, spins, Cmd, Call, Task, put_pcb}
use cs170lab.Syscall.Exit.{do_exit}
use cs170lab.Syscall.Fork.{do_fork}
use cs170lab.Syscall.Fork.Chunk.{with_child}
use cs170lab.Trap.{
  Main, joining, runs, idles, halts, crashes, aborts, Exception, Interrupt, call_of, fork_for,
  system_call, handle, exception_handler, signal, interrupt_handler, dispatch, syscall, unknown,
  console_write, console_read,
}
use cs170lab.Trap.Turns.{dispatch-runs}
use cs170lab.Threads.{Follows, Nobody}
use cs170lab.Threads.Frames.{Still-refl}
use cs170lab.Threads.Ending.{do_exit-Follows}
use cs170lab.Threads.Spawning.{do_fork-Follows, spawned}
use cs170lab.System.{
  Thread, Step, main_of, user_store, exception, interrupt, interrupt_noop, start_call, start_init,
  start_console, wake, join,
}
use cs170lab.System.Acts.{Acts, goes_on, ends, spawns, handler-Acts}
use cs170lab.System.Places.{count}
use cs170lab.System.Steps.{Whole, Inv}
use cs170lab.System.Steps.Calls.{in_hand}
use cs170lab.System.Steps.Turns.{current, at_curr, exception_handled, interrupt_signals}
use cs170lab.System.Steps.Schedule.{dispatch-empty, dispatch-first, cons_to_buff-Follows}
use cs170lab.System.Steps.Reached.{Threads-split, Whole-start}

-- The ready queue was `l`: a process that runs now was the first of it or goes on, and otherwise others may have come
-- behind.
abbrev pub Goes : List Ptr → Main → Type 0
Goes l (joining h) = (zs : List Ptr) × (h.readyq ≡ l ++ zs)
Goes l (idles h) = (zs : List Ptr) × (h.readyq ≡ l ++ zs)
Goes l (runs p regs h) = (l ≡ p ∷ h.readyq) ⊎ (l ≡ h.readyq)
Goes l m = Unit {0}

-- Where the simulation goes on: the ready queue.
abbrev pub ready : Main → List Ptr
ready (joining h) = h.readyq
ready (runs p regs h) = h.readyq
ready (idles h) = h.readyq
ready m = []

stays : (l : List Ptr) → (zs : List Ptr) × (l ≡ l ++ zs)
stays l = ([], sym (append-nil l))

Goes-run :
    (r : Run) (h : Kernel) (o : List Ptr)
    → Follows Nobody (λ q. q ++ o) h r
    → Goes h.readyq (main_of r)
Goes-run (exited g) h o t = (o, t.queued)
Goes-run (waits s g k) h o t = ([], t.before.queued ∙ sym (append-nil h.readyq))
Goes-run (stopped g) h o t = tt
Goes-run fault h o t = tt
Goes-run spins h o t = tt

Goes-exit :
    (r : Run) (h : Kernel) (p : Ptr) → Follows (λ a. a ≡ p) (λ q. q) h r → Goes h.readyq (main_of r)
Goes-exit (exited g) h p t = ([], t.queued ∙ sym (append-nil h.readyq))
Goes-exit (waits s g k) h p t = absurd (t.intact p refl)
Goes-exit (stopped g) h p t = tt
Goes-exit fault h p t = tt
Goes-exit spins h p t = tt

module _ (env : Env) (h : Kernel) (p : Ptr) (ts : List Thread)
    (w : Whole h ts (λ x. count x (p ∷ []))) where
  Goes-Acts : {c : Cmd} → Acts env p c → Goes h.readyq (main_of (c h))
  Goes-Acts (goes_on {c} good) = Goes-run (c h) h (p ∷ []) (good h)
  Goes-Acts ends =
      let a = w.sound.placed p (in_hand env h p ts w) in
      Goes-exit (do_exit env p h) _ p (do_exit-Follows env p h a.c a.at)
  Goes-Acts spawns =
      let a = w.sound.placed p (in_hand env h p ts w) in
      let from : a.c.base + h.user_limit ≤ memory_size =
        rw (a.base, w.sound.whole) (omega (arith, a.number)) in
      elim (do_fork-Follows env h p a.c a.at a.old from
        (λ i small. rw w.sound.whole (omega arith))) [
          | inl t ↦ Goes-run (do_fork env p h) (with_child env h) (p ∷ []) t
          | inr (i, d, small, free, housed, t) ↦
              Goes-run (do_fork env p h) (spawned h i d) (p ∷ []) t
        ]

module _ (env : Env) (ts : List Thread) where
  Goes-fork_for : (c : Option Call) (h : Kernel) → Goes h.readyq (fork_for c h)
  Goes-fork_for none h = tt
  Goes-fork_for (some c) h = stays h.readyq

  Goes-handle : (which : Exception) (n : ℤ) (h : Kernel) → Goes h.readyq (handle which n h)
  unfolding system_call
  Goes-handle syscall (pos n) h = elim (Bool-cases (n == 0)) [
    | inl e ↦ rw e tt
    | inr e ↦ rw e (Goes-fork_for (call_of n) h)
  ]
  Goes-handle syscall (negsuc n) h = tt
  Goes-handle unknown n h = tt
  Goes-handle which n h = stays h.readyq

  Goes-exception :
      (machine : Regs) (which : Exception) (p : Ptr) (regs : Regs) (h : Kernel)
      → Inv (runs p regs h) ts
      → Goes h.readyq (exception_handler machine which h)
  Goes-exception machine which p regs h (cur, busy, window, w) =
      let (c, at) = current env ts h h.curr (at_curr h ts h.curr p cur w) in
      rw (exception_handled env ts machine which h c busy at)
        (Goes-handle which (machine 4) (put_pcb h.curr (record c { my_registers = machine }) h))

  Goes-signal :
      (l : List Ptr) (which : Interrupt) (h : Kernel)
      → Goes l (joining h)
      → Goes l (joining (signal env which h))
  Goes-signal l console_read h r = r
  Goes-signal l console_write h r = r
  Goes-signal l which h r = r

  Goes-interrupt :
      (machine : Regs) (which : Interrupt) (p : Ptr) (regs : Regs) (h : Kernel)
      → Inv (runs p regs h) ts
      → Goes h.readyq (interrupt_handler env machine which h)
  unfolding interrupt_handler
  Goes-interrupt machine which p regs h (cur, busy, window, w) =
      let (c, at) = current env ts h h.curr (at_curr h ts h.curr p cur w) in
      rw (busy, at) (Goes-signal h.readyq which _ (h.curr ∷ [], env.dll.append_lem h.readyq h.curr))

  Goes-idle :
      (b : Bool) (l : List Ptr) (h : Kernel)
      → Goes l (joining h)
      → Goes l (
          if b
          then halts (record h { curr = null })
          else idles (record h { curr = null; is_noop = true }))
  Goes-idle true l h r = tt
  Goes-idle false l h r = r

  Goes-dispatch : (h : Kernel) → Whole h ts (λ x. 0) → Goes h.readyq (dispatch env h)
  Goes-dispatch h w = split h.readyq refl
    where
      split : (l : List Ptr) → h.readyq ≡ l → Goes h.readyq (dispatch env h)
      split [] e =
          rw (dispatch-empty env ts h e)
            (elim (h.pcbs h.init)
              as (λ o. Goes h.readyq (elim o [
                | none ↦ crashes
                | some i ↦
                    if env.jrb.is_empty i.children
                    then halts (record h { curr = null })
                    else idles (record h { curr = null; is_noop = true })
              ])) [
                | none ↦ tt
                | some i ↦ Goes-idle (env.jrb.is_empty i.children) h.readyq h (stays h.readyq)
              ])
      split (q ∷ xs) e =
          let (d, at, limit) = dispatch-first env ts h q xs e w in
          rw (dispatch-runs env h q xs d e at) (inl e)

module _ (env : Env) where
  -- A step of the kernel, from a state in the invariant.
  pub Step-Goes :
      {m n : Main} {ts us : List Thread} → Step env m ts n us → Inv m ts → Goes (ready m) n
  Step-Goes (user_store a b p regs h ts inside byte) i = inr refl
  Step-Goes (exception machine which p regs h ts) i = Goes-exception env ts machine which p regs h i
  Step-Goes (interrupt machine which p regs h ts) i = Goes-interrupt env ts machine which p regs h i
  Step-Goes (interrupt_noop machine which h ts) (idle, w) =
      rw (interrupt_signals env ts machine which h idle)
        (Goes-signal env ts h.readyq which h (stays h.readyq))
  Step-Goes (start_call c p rest h ts e) w =
      Goes-Acts env (record h { forked = rest }) p ts (Whole-start h ts c p rest e w)
        (handler-Acts env p c)
  Step-Goes (start_init argv rest h ts e) w = absurd (rw e at w.started)
  Step-Goes (start_console n rest h ts e) w =
      let g : Kernel = record h { forked = rest } in
      Goes-run _ g [] (cons_to_buff-Follows env ts n g g (Still-refl Nobody g))
  Step-Goes (wake t sems h xs ys e) w =
      Goes-run (t.rest (record h { sems = sems })) (record h { sems = sems }) t.owner
        ((Threads-split xs t ys w.threads).0 (record h { sems = sems }))
  Step-Goes (join h ts e b) w = Goes-dispatch env ts h w
