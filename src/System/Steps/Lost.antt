-- ===== src/System/Steps/Lost.antt =====
-- A process that is in no place of the kernel, and what becomes of it.
pub mod Forever
use cs170lab.Prelude.{
  ℕ, ◌+◌, ◌*◌, ◌<◌, ◌≤◌, ◌≡◌, refl, inl, inr, Bool, true, false, Option, none, some, List, [], ◌∷◌,
  ◌++◌, arith, ap, sym, Bool-cases, ◌==◌, if◌then◌else◌,
}
use cs170lab.Prelude.Int.{ℤ, pos, negsuc}
use cs170lab.Structs.{Ptr, Regs, Pcb, memory_size, null}
use cs170lab.Env.{Env}
use cs170lab.Kernel.{Kernel, Run, exited, waits, stopped, fault, spins, Cmd, Call, Task, put_pcb}
use cs170lab.Syscall.Exit.{do_exit}
use cs170lab.Syscall.Fork.{do_fork}
use cs170lab.Syscall.Fork.Chunk.{with_child}
use cs170lab.Trap.{
  Main, joining, runs, idles, halts, crashes, aborts, Exception, Interrupt, call_of, fork_for,
  system_call, handle, exception_handler, signal, interrupt_handler, dispatch, syscall, unknown,
  console_write, console_read,
}
use cs170lab.Trap.Turns.{dispatch-runs}
use cs170lab.Threads.{Follows, Nobody}
use cs170lab.Threads.Frames.{Still-refl}
use cs170lab.Threads.Ending.{do_exit-Follows}
use cs170lab.Threads.Spawning.{do_fork-Follows, spawned}
use cs170lab.System.{
  Thread, Step, main_of, threads_of, user_store, exception, interrupt, interrupt_noop, start_call,
  start_init, start_console, wake, join,
}
use cs170lab.System.Acts.{Acts, goes_on, ends, spawns, handler-Acts}
use cs170lab.System.Places.{count, count-append, tasked, owners, owners-count, total}
use cs170lab.System.Steps.{Whole, Inv}
use cs170lab.System.Steps.Calls.{in_hand, total-task, count_other}
use cs170lab.System.Steps.Turns.{current, at_curr, exception_handled, interrupt_signals}
use cs170lab.System.Steps.Schedule.{dispatch-empty, dispatch-first, cons_to_buff-Follows}
use cs170lab.System.Steps.Reached.{Threads-split, Whole-start}

-- The number of places where the process `x` is, the machine among them.
abbrev pub places : Ptr → Main → List Thread → ℕ
places x (joining h) ts = total x h ts
places x (runs p regs h) ts = total x h ts + count x (p ∷ [])
places x (idles h) ts = total x h ts
places x m ts = 0

-- The addresses that have been given out.
abbrev pub top : Main → Ptr
top (joining h) = h.next
top (runs p regs h) = h.next
top (idles h) = h.next
top m = 0

-- Where the simulation goes on, `x` is in `n` places at most, and the addresses below `t` have been given out.
abbrev pub Within : Ptr → ℕ → Ptr → Main → List Thread → Type 0
Within x n t (joining h) ts = (total x h ts ≤ n) × (t ≤ h.next)
Within x n t (runs p regs h) ts = (total x h ts + count x (p ∷ []) ≤ n) × (t ≤ h.next)
Within x n t (idles h) ts = (total x h ts ≤ n) × (t ≤ h.next)
Within x n t m ts = Unit {0}

module _ (x : Ptr) where
  Within-run :
      (r : Run) (h : Kernel) (o : List Ptr) (ts : List Thread)
      → Follows Nobody (λ q. q ++ o) h r
      → Within x (total x h ts + count x o) h.next (main_of r) (threads_of o r ++ ts)
  Within-run (exited g) h o ts t =
      (rw (t.queued, t.forks) (omega (arith, count-append x h.readyq o)), t.grows)
  Within-run (waits s g k) h o ts t = (
    rw (t.before.queued, t.before.forks) (omega (arith, count-append x o (owners ts))),
    t.before.grows,
  )
  Within-run (stopped g) h o ts t = tt
  Within-run fault h o ts t = tt
  Within-run spins h o ts t = tt

  Within-exit :
      (r : Run) (h : Kernel) (p : Ptr) (ts : List Thread)
      → Follows (λ a. a ≡ p) (λ q. q) h r
      → Within x (total x h ts + count x (p ∷ [])) h.next (main_of r) (threads_of (p ∷ []) r ++ ts)
  Within-exit (exited g) h p ts t = (rw (t.queued, t.forks) (omega arith), t.grows)
  Within-exit (waits s g k) h p ts t = absurd (t.intact p refl)
  Within-exit (stopped g) h p ts t = tt
  Within-exit fault h p ts t = tt
  Within-exit spins h p ts t = tt

  Within-weaken :
      (m : Main) (ts : List Thread) (n k : ℕ) (t s : Ptr)
      → n ≤ k
      → s ≤ t
      → Within x n t m ts
      → Within x k s m ts
  Within-weaken (joining h) ts n k t s l r (a, b) = (omega (arith, a, l), omega (arith, b, r))
  Within-weaken (runs p regs h) ts n k t s l r (a, b) = (omega (arith, a, l), omega (arith, b, r))
  Within-weaken (idles h) ts n k t s l r (a, b) = (omega (arith, a, l), omega (arith, b, r))
  Within-weaken (halts h) ts n k t s l r w = tt
  Within-weaken (aborts h) ts n k t s l r w = tt
  Within-weaken crashes ts n k t s l r w = tt

  module _ (env : Env) (h : Kernel) (p : Ptr) (ts : List Thread)
      (w : Whole h ts (λ x. count x (p ∷ []))) (old : x < h.next) where
    -- A child comes at a new address.
    Within-Acts :
        {c : Cmd}
        → Acts env p c
        → Within x
            (total x h ts + count x (p ∷ []))
            h.next
            (main_of (c h))
            (threads_of (p ∷ []) (c h) ++ ts)
    Within-Acts (goes_on {c} good) = Within-run (c h) h (p ∷ []) ts (good h)
    Within-Acts ends =
        let a = w.sound.placed p (in_hand env h p ts w) in
        Within-exit (do_exit env p h) _ p ts (do_exit-Follows env p h a.c a.at)
    Within-Acts spawns =
        let a = w.sound.placed p (in_hand env h p ts w) in
        let from : a.c.base + h.user_limit ≤ memory_size =
          rw (a.base, w.sound.whole) (omega (arith, a.number)) in
        elim (do_fork-Follows env h p a.c a.at a.old from
          (λ i small. rw w.sound.whole (omega arith))) [
            | inl t ↦
                Within-weaken (main_of (do_fork env p h))
                  (threads_of (p ∷ []) (do_fork env p h) ++ ts) _ _ _ _ (omega arith) (omega arith)
                  (Within-run (do_fork env p h) (with_child env h) (p ∷ []) ts t)
            | inr (i, d, small, free, housed, t) ↦
                Within-weaken (main_of (do_fork env p h))
                  (threads_of (p ∷ []) (do_fork env p h) ++ ts) _ _ _ _
                  (omega (
                    arith,
                    total-task x h ts Call.finish_fork h.next,
                    count_other x h.next (λ e. absurd (omega (arith, e, old))),
                  ))
                  (omega arith) (Within-run (do_fork env p h) (spawned h i d) (p ∷ []) ts t)
          ]

  module _ (env : Env) (ts : List Thread) where
    Within-fork_for :
        (c : Option Call) (h : Kernel)
        → Within x (total x h ts + count x (h.curr ∷ [])) h.next (fork_for c h) ts
    Within-fork_for none h = tt
    Within-fork_for (some c) h = (omega (arith, total-task x h ts c h.curr), omega arith)

    Within-handle :
        (which : Exception) (n : ℤ) (h : Kernel)
        → Within x (total x h ts + count x (h.curr ∷ [])) h.next (handle which n h) ts
    unfolding system_call
    Within-handle syscall (pos n) h = elim (Bool-cases (n == 0)) [
      | inl e ↦ rw e tt
      | inr e ↦ rw e (Within-fork_for (call_of n) h)
    ]
    Within-handle syscall (negsuc n) h = tt
    Within-handle unknown n h = tt
    Within-handle which n h = (omega arith, omega arith)

    Within-exception :
        (machine : Regs) (which : Exception) (p : Ptr) (regs : Regs) (h : Kernel)
        → Inv (runs p regs h) ts
        → Within x (total x h ts + count x (p ∷ [])) h.next (exception_handler machine which h) ts
    Within-exception machine which p regs h (cur, busy, window, w) =
        let (c, at) = current env ts h h.curr (at_curr h ts h.curr p cur w) in
        rw (exception_handled env ts machine which h c busy at, sym cur)
          (Within-handle which (machine 4) (put_pcb h.curr (record c { my_registers = machine }) h))

    Within-signal :
        (n : ℕ) (t : Ptr) (which : Interrupt) (h : Kernel)
        → Within x n t (joining h) ts
        → Within x n t (joining (signal env which h)) ts
    Within-signal n t console_read h r = r
    Within-signal n t console_write h r = r
    Within-signal n t which h r = r

    Within-interrupt :
        (machine : Regs) (which : Interrupt) (p : Ptr) (regs : Regs) (h : Kernel)
        → Inv (runs p regs h) ts
        → Within x
            (total x h ts + count x (p ∷ []))
            h.next
            (interrupt_handler env machine which h)
            ts
    unfolding interrupt_handler
    Within-interrupt machine which p regs h (cur, busy, window, w) =
        let (c, at) = current env ts h h.curr (at_curr h ts h.curr p cur w) in
        rw (busy, at)
          (Within-signal _ _ which _ (
            rw (env.dll.append_lem h.readyq h.curr) (
                omega
                  (arith, count-append x h.readyq (h.curr ∷ []), ap (λ p. count x (p ∷ [])) cur)),
            omega arith,
          ))

    Within-idle :
        (b : Bool) (h : Kernel)
        → Within x
            (total x h ts)
            h.next
            (if b
              then halts (record h { curr = null })
              else idles (record h { curr = null; is_noop = true }))
            ts
    Within-idle true h = tt
    Within-idle false h = (omega arith, omega arith)

    Within-dispatch :
        (h : Kernel) → Whole h ts (λ x. 0) → Within x (total x h ts) h.next (dispatch env h) ts
    Within-dispatch h w = split h.readyq refl
      where
        split : (l : List Ptr) → h.readyq ≡ l → Within x (total x h ts) h.next (dispatch env h) ts
        split [] e =
            rw (dispatch-empty env ts h e)
              (elim (h.pcbs h.init)
                as (λ o.
                  Within x (total x h ts) h.next
                    (elim o [
                      | none ↦ crashes
                      | some i ↦
                          if env.jrb.is_empty i.children
                          then halts (record h { curr = null })
                          else idles (record h { curr = null; is_noop = true })
                    ])
                    ts) [ none ↦ tt | some i ↦ Within-idle (env.jrb.is_empty i.children) h ])
        split (q ∷ xs) e =
            let (d, at, limit) = dispatch-first env ts h q xs e w in
            rw (dispatch-runs env h q xs d e at) (omega (arith, ap (λ l. count x l) e), omega arith)
