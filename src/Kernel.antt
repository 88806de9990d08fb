-- ===== src/Kernel.antt =====
-- The state that the kernel's files share, and how a kernel thread runs on it.
-- A thread is not interrupted: it runs up to its next `P_kt_sem`, or to its end. Pointers lead into
-- maps from addresses to structures, where `none` is memory that was freed or never allocated.
use cs170lab.Prelude.{ℕ, Bool, ◌&&◌, not, Option, none, some, List, ltb, if◌then◌else◌, update}
use cs170lab.Prelude.Int.{ℤ, pos, ltb_ℤ, update_at}
use cs170lab.Structs.{Ptr, Mem, Tree, Fd, Pipe, Pcb, ConsoleBuf, memory_size}

-- The functions that `kt_fork` starts on behalf of a process.
pub data Call : Type 0 where
  exit write read ioctl fstat getpagesize sbrk execve getpid fork getdtablesize close wait getppid
        pipe dup dup2 finish_fork :
      Call

-- What `kt_fork` was asked to run, and on which argument.
pub data Task : Type 0 where
  user : Call → Ptr → Task
  initialize_user_process : List (List ℕ) → Task
  cons_to_buff : Task

pub record Kernel : Type 0 where
  -- the heap, with the next address that `malloc` returns
  pub pcbs : Ptr → Option Pcb
  pub fds : Ptr → Option Fd
  pub pipes : Ptr → Option Pipe
  pub next : Ptr
  -- the values of the semaphores
  pub sems : Ptr → ℕ
  -- main_memory, User_Base, User_Limit and memory.c
  pub main_memory : Mem
  pub user_base : ℕ
  pub user_limit : ℕ
  pub memory_chunk : ℕ → ℕ
  -- scheduler.c
  pub curr : Ptr
  pub readyq : List Ptr
  pub is_noop : Bool
  pub curpid : ℕ
  pub rbtree : Tree
  pub init : Ptr
  -- console_buf.c and syscall.c
  pub console : ConsoleBuf
  pub nelem : Ptr
  pub nslots : Ptr
  pub console_wait : Ptr
  pub writeok : Ptr
  pub writers : Ptr
  pub readers : Ptr
  -- calls that have left the kernel, oldest first: the tasks given to `kt_fork`, the bytes given to
  -- `console_write`; and the number of calls of `console_read`
  pub forked : List Task
  pub written : List ℕ
  pub reads : ℕ

-- A thread's run up to where it stops: at its end (`kt_exit`, or the function returns), at
-- `P_kt_sem` on a semaphore, with what it does when it has that, at the end of the simulation, or
-- at an access through a bad pointer. `spins` is a loop that used up its fuel.
pub data Run : Type 0 where
  exited : Kernel → Run
  waits : Ptr → Kernel → (Kernel → Run) → Run
  stopped : Kernel → Run
  fault : Run
  spins : Run

abbrev pub Cmd : Type 0
Cmd = Kernel → Run

-- A part of a thread that hands an `A` to what follows.
abbrev pub M {ℓ} : Type ℓ → Type ℓ
M A = (A → Cmd) → Cmd

infixl 5 ◌>>=◌ ◌>>◌
abbrev pub ◌>>=◌ {ℓ} : {A : Type ℓ} → M A → (A → Cmd) → Cmd
m >>= f = m f

abbrev pub ◌>>◌ : M (Unit {0}) → Cmd → Cmd
m >> c = m (λ _. c)

-- `if (b) f();` where `f` does not return.
abbrev pub leave_if : Bool → Cmd → M (Unit {0})
leave_if b out k h = if b then out h else k tt h

abbrev pub when : Bool → M (Unit {0}) → M (Unit {0})
when b m k h = if b then m k h else k tt h

abbrev pub branch : Bool → Cmd → Cmd → Cmd
branch b x y h = if b then x h else y h

abbrev pub get : M Kernel
get k h = k h h

abbrev pub modify : (Kernel → Kernel) → M (Unit {0})
modify f k h = k tt (f h)

-- The structure behind a pointer.
abbrev pub deref : {A : Type 0} → Option A → M A
deref none k h = fault
deref (some a) k h = k a h

abbrev pub get_pcb : Ptr → M Pcb
get_pcb p k h = deref (h.pcbs p) k h

abbrev pub get_fd : Ptr → M Fd
get_fd p k h = deref (h.fds p) k h

abbrev pub get_pipe : Ptr → M Pipe
get_pipe p k h = deref (h.pipes p) k h

abbrev pub put_pcb : Ptr → Pcb → Kernel → Kernel
put_pcb p c h = record h { pcbs = update h.pcbs p (some c) }

abbrev pub put_fd : Ptr → Fd → Kernel → Kernel
put_fd p f h = record h { fds = update h.fds p (some f) }

abbrev pub put_pipe : Ptr → Pipe → Kernel → Kernel
put_pipe p q h = record h { pipes = update h.pipes p (some q) }

-- `p->field = …` for a PCB, an Fd and a pipe.
abbrev pub set_pcb : Ptr → (Pcb → Pcb) → M (Unit {0})
set_pcb p f k = get_pcb p λ c h. k tt (put_pcb p (f c) h)

abbrev pub set_fd : Ptr → (Fd → Fd) → M (Unit {0})
set_fd p f k = get_fd p λ c h. k tt (put_fd p (f c) h)

abbrev pub set_pipe : Ptr → (Pipe → Pipe) → M (Unit {0})
set_pipe p f k = get_pipe p λ c h. k tt (put_pipe p (f c) h)

-- `free`: a second one is an error.
abbrev pub free_pcb : Ptr → M (Unit {0})
free_pcb p k = get_pcb p λ _ h. k tt (record h { pcbs = update h.pcbs p none })

abbrev pub free_pipe : Ptr → M (Unit {0})
free_pipe p k = get_pipe p λ _ h. k tt (record h { pipes = update h.pipes p none })

-- `P_kt_sem`.
abbrev pub wait_for : Ptr → M (Unit {0})
wait_for s k h = waits s h (k tt)

-- Is the offset inside `main_memory`?
abbrev pub in_memory : ℤ → Bool
in_memory a = not (ltb_ℤ a (pos 0)) && ltb_ℤ a (pos memory_size)

abbrev pub load_byte : ℤ → M ℕ
load_byte a k h = if in_memory a then k (h.main_memory a) h else fault

abbrev pub store_byte : ℤ → ℕ → M (Unit {0})
store_byte a v k h =
    if in_memory a then k tt (record h { main_memory = update_at h.main_memory a v }) else fault

-- An access to an array of `n` elements at the index `i`.
abbrev pub in_bounds : ℕ → ℕ → M (Unit {0})
in_bounds n i k h = if ltb i n then k tt h else fault
