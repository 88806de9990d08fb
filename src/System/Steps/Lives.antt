-- ===== src/System/Steps/Lives.antt =====
-- The steps of the kernel against the life of processes: the threads.
pub mod Calls
pub mod Traps
pub mod Reached
use cs170lab.Prelude.{
  ℕ, ◌+◌, ◌≤◌, ◌<◌, ◌≡◌, ◌∙◌, refl, sym, ap, inl, inr, Bool, true, false, none, some, List, [], ◌∷◌,
  ◌++◌, arith, Option, Bool-cases, ◌==◌, if◌then◌else◌,
}
use mathlib.Core.List.{append_assoc, append-nil}
use cs170lab.Prelude.Int.{ℤ, pos, negsuc}
use cs170lab.Structs.{Ptr, Regs, Pcb, memory_size, null}
use cs170lab.Env.{Env}
use cs170lab.Kernel.{Kernel, Run, exited, waits, stopped, fault, spins, Cmd, Call, Task, put_pcb}
use cs170lab.Syscall.Exit.{do_exit}
use cs170lab.Syscall.Fork.{do_fork}
use cs170lab.Syscall.Fork.Chunk.{with_child}
use cs170lab.Console.{cons_to_buff}
use cs170lab.Trap.{
  Main, joining, runs, idles, halts, crashes, aborts, Exception, Interrupt, call_of, fork_for,
  system_call, handle, exception_handler, signal, interrupt_handler, dispatch, syscall, unknown,
  console_write, console_read,
}
use cs170lab.Trap.Turns.{dispatch-runs}
use cs170lab.Threads.{Follows, Nobody}
use cs170lab.Threads.Frames.{Still-refl}
use cs170lab.Threads.Ending.{do_exit-Follows}
use cs170lab.Threads.Spawning.{do_fork-Follows, spawned}
use cs170lab.System.{
  Thread, Step, Reach, main_of, threads_of, handler, exception, interrupt, interrupt_noop,
  start_call, start_init, start_console, wake, join, here, next,
}
use cs170lab.System.Places.{count, tasked, tasked-append, owners, total}
use cs170lab.System.Acts.{Acts, goes_on, ends, spawns, handler-Acts}
use cs170lab.System.Life
use cs170lab.System.Life.{View, Life, Lives, Lives-trans, same, once, view, Shows}
use cs170lab.System.Steps.{Threads, Whole, Inv}
use cs170lab.System.Steps.Calls.{counted, fresh, in_hand}
use cs170lab.System.Steps.Turns.{current, at_curr, exception_handled, interrupt_signals}
use cs170lab.System.Steps.Schedule.{dispatch-empty, dispatch-first, cons_to_buff-Follows}
use cs170lab.System.Steps.Reached.{Threads-split, Whole-start}

-- A state in which no program runs.
abbrev pub shown : List Ptr → List Ptr → List Ptr → View
shown r a w = record { running = []; ready = r; asking = a; waiting = w }

-- A thread that runs for `o`: its process is ready, or waits.
pub Shows-run :
    (v : View) (r : Run) (h : Kernel) (o : List Ptr) (ts : List Thread)
    → Follows Nobody (λ q. q ++ o) h r
    → Lives v (shown (h.readyq ++ o) (tasked h.forked) (owners ts))
    → Lives v (shown h.readyq (tasked h.forked) (o ++ owners ts))
    → Shows v (main_of r) (threads_of o r ++ ts)
Shows-run v (exited g) h o ts t l m = rw (t.queued, t.forks) l
Shows-run v (waits s g k) h o ts t l m = rw (t.before.queued, t.before.forks) m
Shows-run v (stopped g) h o ts t l m = tt
Shows-run v fault h o ts t l m = tt
Shows-run v spins h o ts t l m = tt

pub Shows-exit :
    (v : View) (r : Run) (h : Kernel) (p : Ptr) (ts : List Thread)
    → Follows (λ a. a ≡ p) (λ q. q) h r
    → Lives v (shown h.readyq (tasked h.forked) (owners ts))
    → Shows v (main_of r) (threads_of (p ∷ []) r ++ ts)
Shows-exit v (exited g) h p ts t l = rw (t.queued, t.forks) l
Shows-exit v (waits s g k) h p ts t l = absurd (t.intact p refl)
Shows-exit v (stopped g) h p ts t l = tt
Shows-exit v fault h p ts t l = tt
Shows-exit v spins h p ts t l = tt
