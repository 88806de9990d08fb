-- ===== src/System.antt =====
-- The whole kernel at work: the main thread of exception.c and scheduler.c and the threads that `kt_fork` starts
-- for system calls and for the console. `kt_joinall` runs one of them at a time, up to its next `P_kt_sem`.
pub mod Places
pub mod Acts
pub mod Life
pub mod Sound
pub mod Chunks
pub mod Steps
use cs170lab.Prelude.{ℕ, ◌+◌, ◌<◌, ◌≡◌, none, some, List, [], ◌∷◌, ◌++◌}
use cs170lab.Prelude.Int.{pos, update_at}
use cs170lab.Structs.{Ptr, Regs}
use cs170lab.Env.{Env}
use cs170lab.Kernel.{Kernel, Cmd, Run, exited, waits, stopped, fault, spins, Call, Task}
use cs170lab.Boot.{initialize_user_process}
use cs170lab.Console.{cons_to_buff}
use cs170lab.Syscall.Info.{getpid, get_ppid, getpagesize, getdtablesize, ioctl, fstat}
use cs170lab.Syscall.Sbrk.{do_sbrk}
use cs170lab.Syscall.Exec.{do_execve}
use cs170lab.Syscall.Fork.{do_fork, finish_fork}
use cs170lab.Syscall.Exit.{do_exit}
use cs170lab.Syscall.Wait.{do_wait}
use cs170lab.Syscall.Close.{do_close}
use cs170lab.Syscall.Dup.{do_dup, do_dup2}
use cs170lab.Syscall.Pipe.{do_pipe}
use cs170lab.Syscall.Write.{do_write}
use cs170lab.Syscall.Read.{do_read}
use cs170lab.Trap.{
  Main, joining, runs, idles, aborts, crashes, Exception, Interrupt, exception_handler,
  interrupt_handler, dispatch,
}

-- The function that the `switch` of exceptionHandler forks for a call, and do_fork for a child.
unfoldable pub handler : Env → Call → Ptr → Cmd
handler env Call.exit p = do_exit env p
handler env Call.write p = do_write env p
handler env Call.read p = do_read env p
handler env Call.ioctl p = ioctl env p
handler env Call.fstat p = fstat env p
handler env Call.getpagesize p = getpagesize env p
handler env Call.sbrk p = do_sbrk env p
handler env Call.execve p = do_execve env p
handler env Call.getpid p = getpid env p
handler env Call.fork p = do_fork env p
handler env Call.getdtablesize p = getdtablesize env p
handler env Call.close p = do_close env p
handler env Call.wait p = do_wait env p
handler env Call.getppid p = get_ppid env p
handler env Call.pipe p = do_pipe env p
handler env Call.dup p = do_dup env p
handler env Call.dup2 p = do_dup2 env p
handler env Call.finish_fork p = finish_fork env p

-- A thread that waits for a semaphore, with the process for which it runs, if there is one.
pub record Thread : Type 0 where
  pub owner : List Ptr
  pub sem : Ptr
  pub rest : Cmd

-- The main thread, and the thread that is left, when a thread has run. `spins` is out of fuel.
abbrev pub main_of : Run → Main
main_of (exited g) = joining g
main_of (waits s g k) = joining g
main_of (stopped g) = aborts g
main_of fault = crashes
main_of spins = crashes

abbrev pub threads_of : List Ptr → Run → List Thread
threads_of o (waits s g k) = record { owner = o; sem = s; rest = k } ∷ []
threads_of o r = []

-- The machine stores the byte `b` at the address `a` of the user program.
abbrev pub stored : ℕ → ℕ → Kernel → Kernel
stored a b h = record h { main_memory = update_at h.main_memory (pos (h.user_base + a)) b }

module _ (env : Env) where
  -- No thread has its semaphore.
  abbrev pub Blocked : Kernel → List Thread → Type 0
  Blocked h [] = Unit {0}
  Blocked h (t ∷ ts) = (env.kt.p h.sems t.sem ≡ none) × Blocked h ts

  -- What comes next. The thread of initialize_user_process has the process whose structure it is to make.
  -- The steps are: a store of the user program to a byte of its window, a trap of the machine, a thread that starts, a thread that gets its semaphore, or, when no
  -- thread is left that could run, the end of `kt_joinall`.
  pub data Step : Main → List Thread → Main → List Thread → Type 0 where
    user_store :
        (a b : ℕ) (p : Ptr) (regs : Regs) (h : Kernel) (ts : List Thread)
        → a < h.user_limit
        → b < 256
        → Step (runs p regs h) ts (runs p regs (stored a b h)) ts
    exception :
        (machine : Regs) (which : Exception) (p : Ptr) (regs : Regs) (h : Kernel) (ts : List Thread)
        → Step (runs p regs h) ts (exception_handler machine which h) ts
    interrupt :
        (machine : Regs) (which : Interrupt) (p : Ptr) (regs : Regs) (h : Kernel) (ts : List Thread)
        → Step (runs p regs h) ts (interrupt_handler env machine which h) ts
    interrupt_noop :
        (machine : Regs) (which : Interrupt) (h : Kernel) (ts : List Thread)
        → Step (idles h) ts (interrupt_handler env machine which h) ts
    start_call :
        (c : Call) (p : Ptr) (rest : List Task) (h : Kernel) (ts : List Thread)
        → h.forked ≡ Task.user c p ∷ rest
        → Step
            (joining h)
            ts
            (main_of (handler env c p (record h { forked = rest })))
            (threads_of (p ∷ []) (handler env c p (record h { forked = rest })) ++ ts)
    start_init :
        (argv : List (List ℕ)) (rest : List Task) (h : Kernel) (ts : List Thread)
        → h.forked ≡ Task.initialize_user_process argv ∷ rest
        → Step
            (joining h)
            ts
            (main_of (initialize_user_process env argv (record h { forked = rest })))
            (threads_of
                ((h.next + 1 + 1) ∷ [])
                (initialize_user_process env argv (record h { forked = rest }))
              ++ ts)
    start_console :
        (rounds : ℕ) (rest : List Task) (h : Kernel) (ts : List Thread)
        → h.forked ≡ Task.cons_to_buff ∷ rest
        → Step
            (joining h)
            ts
            (main_of (cons_to_buff env rounds (record h { forked = rest })))
            (threads_of [] (cons_to_buff env rounds (record h { forked = rest })) ++ ts)
    wake :
        (t : Thread) (sems : Ptr → ℕ) (h : Kernel) (xs ys : List Thread)
        → env.kt.p h.sems t.sem ≡ some sems
        → Step
            (joining h)
            (xs ++ t ∷ ys)
            (main_of (t.rest (record h { sems = sems })))
            (threads_of t.owner (t.rest (record h { sems = sems })) ++ (xs ++ ys))
    join :
        (h : Kernel) (ts : List Thread)
        → h.forked ≡ []
        → Blocked h ts
        → Step (joining h) ts (dispatch env h) ts

  pub data Reach (m : Main) (ts : List Thread) : Main → List Thread → Type 0 where
    here : Reach m ts m ts
    next : {n l : Main} {us vs : List Thread} → Reach m ts n us → Step n us l vs → Reach m ts l vs
