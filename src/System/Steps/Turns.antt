-- ===== src/System/Steps/Turns.antt =====
-- The traps of exception.c, against the invariant.
use cs170lab.Prelude.{
  ℕ, ◌+◌, ◌≡◌, inl, inr, refl, true, false, Option, none, some, List, [], ◌∷◌, ◌++◌, arith, ◌==◌,
  Bool-cases,
}
use cs170lab.Prelude.Int.{ℤ, pos, negsuc}
use cs170lab.Structs.{Ptr, Regs, Pcb}
use cs170lab.Env.{Env}
use cs170lab.Kernel.{Kernel, Call, Task, put_pcb}
use cs170lab.Trap.{
  joining, runs, idles, Exception, Interrupt, call_of, fork_for, system_call, handle,
  exception_handler, signal, interrupt_handler, syscall, unknown, console_write, console_read,
}
use cs170lab.Threads.{To, Nobody}
use cs170lab.Threads.Frames.{Still, Still-refl, Still-put}
use cs170lab.System.{Thread}
use cs170lab.System.Places.{count, count-append, total}
use cs170lab.System.Sound.{Sound-less, Sound-To, Sound-same}
use cs170lab.System.Steps.{Whole, Inv}
use cs170lab.System.Steps.Calls.{Started-append, total-task, count_self}

-- The parts that count stay.
pub Whole-To :
    (h g : Kernel) (ts : List Thread) (n : Ptr → ℕ)
    → To Nobody h g h.readyq
    → Whole h ts n
    → Whole g ts n
Whole-To h g ts n t w = record {
  sound =
      Sound-less g (λ x. total x h ts + n x) (λ x. total x g ts + n x)
        (Sound-To Nobody h g h.readyq _ w.sound t (λ x l e. e) (λ z e. absurd e) (λ e. e))
        (λ x. rw (t.queued, t.forks) (omega arith));
  started = rw t.forks w.started;
  threads = w.threads;
}

Whole-less : (h : Kernel) (ts : List Thread) (n : Ptr → ℕ) → Whole h ts n → Whole h ts (λ x. 0)
Whole-less h ts n w = record {
  sound = Sound-less h (λ x. total x h ts + n x) (λ x. total x h ts + 0) w.sound (λ x. omega arith);
  started = w.started;
  threads = w.threads;
}

-- A thread for the call of the current process.
Whole-task :
    (h : Kernel) (ts : List Thread) (c : Call) (p : Ptr)
    → Whole h ts (λ x. count x (p ∷ []))
    → Whole (record h { forked = h.forked ++ Task.user c p ∷ [] }) ts (λ x. 0)
Whole-task h ts c p w =
    let g : Kernel = record h { forked = h.forked ++ Task.user c p ∷ [] } in
    record {
      sound =
          Sound-same h g (λ x. total x h ts + count x (p ∷ [])) (λ x. total x g ts + 0) w.sound
            (Still-refl Nobody h) (λ x. omega (arith, total-task x h ts c p));
      started = Started-append h.forked c p w.started;
      threads = w.threads;
    }

-- The process that runs is the current one.
pub at_curr :
    (h : Kernel) (ts : List Thread) (q p : Ptr)
    → q ≡ p
    → Whole h ts (λ x. count x (p ∷ []))
    → Whole h ts (λ x. count x (q ∷ []))
at_curr h ts q p e w = rw e w

module _ (env : Env) (ts : List Thread) where
  fork_for-Inv :
      (c : Option Call) (h : Kernel)
      → Whole h ts (λ x. count x (h.curr ∷ []))
      → Inv (fork_for c h) ts
  fork_for-Inv none h w = tt
  fork_for-Inv (some c) h w = Whole-task h ts c h.curr w

  handle-Inv :
      (which : Exception) (n : ℤ) (h : Kernel)
      → Whole h ts (λ x. count x (h.curr ∷ []))
      → Inv (handle which n h) ts
  unfolding system_call
  handle-Inv syscall (pos n) h w = elim (Bool-cases (n == 0)) [
    | inl e ↦ rw e tt
    | inr e ↦ rw e (fork_for-Inv (call_of n) h w)
  ]
  handle-Inv syscall (negsuc n) h w = tt
  handle-Inv unknown n h w = tt
  handle-Inv which n h w = Whole-less h ts _ w

  pub Still-saved :
      (machine : Regs) (c : Pcb) (h : Kernel)
      → h.pcbs h.curr ≡ some c
      → Still Nobody h (put_pcb h.curr (record c { my_registers = machine }) h)
  Still-saved machine c h at =
      Still-put Nobody h h h.curr c (record c { my_registers = machine }) (Still-refl Nobody h) at
        (refl, refl, refl) refl

  pub current :
      (h : Kernel) (p : Ptr) → Whole h ts (λ x. count x (p ∷ [])) → (c : Pcb) × (h.pcbs p ≡ some c)
  current h p w = let a = w.sound.placed p (omega (arith, count_self p)) in (a.c, a.at)

  pub exception_handled :
      (machine : Regs) (which : Exception) (h : Kernel) (c : Pcb)
      → h.is_noop ≡ false
      → h.pcbs h.curr ≡ some c
      → exception_handler machine which h
        ≡ handle which (machine 4) (put_pcb h.curr (record c { my_registers = machine }) h)
  unfolding exception_handler
  exception_handled machine which h c busy at = ground arith

  pub exception-Inv :
      (machine : Regs) (which : Exception) (p : Ptr) (regs : Regs) (h : Kernel)
      → Inv (runs p regs h) ts
      → Inv (exception_handler machine which h) ts
  exception-Inv machine which p regs h (cur, busy, window, w) =
      let w' : Whole h ts (λ x. count x (h.curr ∷ [])) = at_curr h ts h.curr p cur w in
      let (c, at) = current h h.curr w' in
      rw (exception_handled machine which h c busy at) (
        handle-Inv which (machine 4) (put_pcb h.curr (record c { my_registers = machine }) h)
          (Whole-To h _ ts _ (Still-saved machine c h at) w'))

  signal-Inv :
      (which : Interrupt) (h : Kernel)
      → Whole h ts (λ x. 0)
      → Whole (signal env which h) ts (λ x. 0)
  signal-Inv console_read h w = Whole-To h _ ts _ (Still-refl Nobody h) w
  signal-Inv console_write h w = Whole-To h _ ts _ (Still-refl Nobody h) w
  signal-Inv which h w = w

  -- The process that ran goes behind the ready queue.
  Whole-ready :
      (h : Kernel) (p : Ptr)
      → Whole h ts (λ x. count x (p ∷ []))
      → Whole (record h { readyq = env.dll.append h.readyq p }) ts (λ x. 0)
  Whole-ready h p w =
      let g : Kernel = record h { readyq = env.dll.append h.readyq p } in
      record {
        sound =
            Sound-same h g (λ x. total x h ts + count x (p ∷ [])) (λ x. total x g ts + 0) w.sound
              (Still-refl Nobody h)
              (λ x.
                rw (env.dll.append_lem h.readyq p)
                  (omega (arith, count-append x h.readyq (p ∷ []))));
        started = w.started;
        threads = w.threads;
      }

  pub interrupt-Inv :
      (machine : Regs) (which : Interrupt) (p : Ptr) (regs : Regs) (h : Kernel)
      → Inv (runs p regs h) ts
      → Inv (interrupt_handler env machine which h) ts
  unfolding interrupt_handler
  interrupt-Inv machine which p regs h (cur, busy, window, w) =
      let w' : Whole h ts (λ x. count x (h.curr ∷ [])) = at_curr h ts h.curr p cur w in
      let (c, at) = current h h.curr w' in
      let g : Kernel = put_pcb h.curr (record c { my_registers = machine }) h in
      rw (busy, at)
        (signal-Inv which _
          (Whole-ready g h.curr (Whole-To h g ts _ (Still-saved machine c h at) w')))

  pub interrupt_signals :
      (machine : Regs) (which : Interrupt) (h : Kernel)
      → h.is_noop ≡ true
      → interrupt_handler env machine which h ≡ joining (signal env which h)
  unfolding interrupt_handler
  interrupt_signals machine which h idle = ground arith

  pub interrupt_noop-Inv :
      (machine : Regs) (which : Interrupt) (h : Kernel)
      → Inv (idles h) ts
      → Inv (interrupt_handler env machine which h) ts
  interrupt_noop-Inv machine which h (idle, w) =
      rw (interrupt_signals machine which h idle) (signal-Inv which h w)
