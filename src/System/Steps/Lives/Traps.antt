-- ===== src/System/Steps/Lives/Traps.antt =====
-- The traps and the scheduler against the life of processes.
use cs170lab.Prelude.{
  ◌≡◌, refl, inl, inr, Bool, true, false, none, some, List, [], ◌∷◌, Option, Bool-cases, ◌==◌,
  if◌then◌else◌,
}
use cs170lab.Prelude.Int.{ℤ, pos, negsuc}
use cs170lab.Structs.{Ptr, Regs, null}
use cs170lab.Env.{Env}
use cs170lab.Kernel.{Kernel, Call, Task, put_pcb}
use cs170lab.Trap.{
  joining, runs, idles, halts, crashes, Exception, Interrupt, call_of, fork_for, system_call,
  handle, exception_handler, signal, interrupt_handler, dispatch, syscall, unknown, console_write,
  console_read,
}
use cs170lab.Trap.Turns.{dispatch-runs}
use cs170lab.System.{Thread}
use cs170lab.System.Places.{tasked, tasked-append, owners}
use cs170lab.System.Life.{View, Life, Lives, same, once, view, Shows}
use cs170lab.System.Steps.{Whole, Inv}
use cs170lab.System.Steps.Turns.{current, at_curr, exception_handled}
use cs170lab.System.Steps.Schedule.{dispatch-empty, dispatch-first}

module _ (env : Env) (ts : List Thread) where
  -- The view when `p` runs.
  abbrev busy_with : Ptr → Kernel → View
  busy_with p h = record {
    running = p ∷ [];
    ready = h.readyq;
    asking = tasked h.forked;
    waiting = owners ts;
  }

  Shows-fork_for :
      (c : Option Call) (h : Kernel) (p : Ptr)
      → h.curr ≡ p
      → Shows (busy_with p h) (fork_for c h) ts
  Shows-fork_for none h p cur = tt
  Shows-fork_for (some c) h p cur =
      rw (tasked-append h.forked (Task.user c h.curr ∷ []), cur)
        (once (Life.asks p h.readyq (tasked h.forked) (owners ts)))

  Shows-handle :
      (which : Exception) (n : ℤ) (h : Kernel) (p : Ptr)
      → h.curr ≡ p
      → Shows (busy_with p h) (handle which n h) ts
  unfolding system_call
  Shows-handle syscall (pos n) h p cur = elim (Bool-cases (n == 0)) [
    | inl e ↦ rw e tt
    | inr e ↦ rw e (Shows-fork_for (call_of n) h p cur)
  ]
  Shows-handle syscall (negsuc n) h p cur = tt
  Shows-handle unknown n h p cur = tt
  Shows-handle which n h p cur = once (Life.lost p h.readyq (tasked h.forked) (owners ts))

  pub Shows-exception :
      (machine : Regs) (which : Exception) (p : Ptr) (regs : Regs) (h : Kernel)
      → Inv (runs p regs h) ts
      → Shows (busy_with p h) (exception_handler machine which h) ts
  Shows-exception machine which p regs h (cur, busy, window, w) =
      let (c, at) = current env ts h h.curr (at_curr h ts h.curr p cur w) in
      rw (exception_handled env ts machine which h c busy at) (
        Shows-handle which (machine 4) (put_pcb h.curr (record c { my_registers = machine }) h) p
          cur)

  pub Shows-signal :
      (v : View) (which : Interrupt) (h : Kernel)
      → Shows v (joining h) ts
      → Shows v (joining (signal env which h)) ts
  Shows-signal v console_read h l = l
  Shows-signal v console_write h l = l
  Shows-signal v which h l = l

  pub Shows-interrupt :
      (machine : Regs) (which : Interrupt) (p : Ptr) (regs : Regs) (h : Kernel)
      → Inv (runs p regs h) ts
      → Shows (busy_with p h) (interrupt_handler env machine which h) ts
  unfolding interrupt_handler
  Shows-interrupt machine which p regs h (cur, busy, window, w) =
      let (c, at) = current env ts h h.curr (at_curr h ts h.curr p cur w) in
      rw (busy, at)
        (Shows-signal (busy_with p h) which _ (
          rw (env.dll.append_lem h.readyq h.curr, cur)
            (once (Life.yields p h.readyq (tasked h.forked) (owners ts)))))

  Shows-idle :
      (b : Bool) (v : View) (h : Kernel)
      → Lives v (view (joining h) ts)
      → Shows v
          (if b
            then halts (record h { curr = null })
            else idles (record h { curr = null; is_noop = true }))
          ts
  Shows-idle true v h l = tt
  Shows-idle false v h l = l

  pub Shows-dispatch :
      (h : Kernel)
      → h.forked ≡ []
      → Whole h ts (λ x. 0)
      → Shows (view (joining h) ts) (dispatch env h) ts
  Shows-dispatch h none_asks w = split h.readyq refl
    where
      split : (l : List Ptr) → h.readyq ≡ l → Shows (view (joining h) ts) (dispatch env h) ts
      split [] e =
          rw (dispatch-empty env ts h e)
            (elim (h.pcbs h.init)
              as (λ o.
                Shows (view (joining h) ts)
                  (elim o [
                    | none ↦ crashes
                    | some i ↦
                        if env.jrb.is_empty i.children
                        then halts (record h { curr = null })
                        else idles (record h { curr = null; is_noop = true })
                  ])
                  ts) [
                    | none ↦ tt
                    | some i ↦ Shows-idle (env.jrb.is_empty i.children) (view (joining h) ts) h same
                  ])
      split (q ∷ xs) e =
          let (d, at, limit) = dispatch-first env ts h q xs e w in
          rw (dispatch-runs env h q xs d e at)
            (rw (e, none_asks) (once (Life.runs_first q xs (owners ts))))
