-- ===== src/Syscall/Fork.antt =====
-- do_fork and finish_fork of syscall.c.
pub mod Chunk
pub mod Counts
pub mod Copy
pub mod Populate
pub mod Child
pub mod Total
use cs170lab.Prelude.{
  ℕ, zero, suc, ◌+◌, ◌*◌, not, ◌&&◌, Option, none, some, [], ltb, ◌==◌, if◌then◌else◌, update,
}
use cs170lab.Prelude.Int.{pos, ◌+ℤ◌}
use cs170lab.Structs.{Ptr, Regs, Fd, Pipe, num_total_regs, to_ushort}
use cs170lab.Env.{Env}
use cs170lab.Kernel.{
  M, Cmd, Call, Task, ◌>>=◌, ◌>>◌, get, modify, when, get_pcb, get_fd, set_pcb, set_pipe, put_pcb,
  put_fd,
}
use cs170lab.Sem.{malloc, make_kt_sem, kt_fork}
use cs170lab.Memory.{copy_block}
use cs170lab.Pid.{get_new_pid}
use cs170lab.Syscall.{syscall_return}
use cs170lab.Syscall.Errno.{eagain}

-- The first of `n` memory chunks from `i` on that is 0.
unfoldable pub find_chunk : ℕ → ℕ → (ℕ → ℕ) → Option ℕ
find_chunk zero i chunk = none
find_chunk (suc n) i chunk =
    let rest = find_chunk n (i + 1) chunk in if chunk i == 0 then some i else rest

-- The loop over the registers: of the 40, nothing of `fresh` is left.
abbrev pub copy_regs : Regs → Regs → Regs
copy_regs from fresh r = if ltb r num_total_regs then from r else fresh r

-- One more descriptor refers to an end of the pipe.
abbrev pub add_reference : Fd → Pipe → Pipe
add_reference f q =
    if f.is_read
    then record q { read_count = q.read_count +ℤ pos 1 }
    else record q { write_count = q.write_count +ℤ pos 1 }

-- The loop over the descriptors: `n` rounds, from number `i` on.
unfoldable pub copy_fds : ℕ → ℕ → Ptr → Ptr → M (Unit {0})
unfolding ◌+ℤ◌
copy_fds zero i p child k = k tt
copy_fds (suc n) i p child k = do
  a ← malloc
  set_pcb child λ c. record c { fd = update c.fd i a }
  c ← get_pcb p
  f ← get_fd (c.fd i)
  modify (put_fd a f)
  when (f.is_open && not f.console) (set_pipe f.my_pipe (add_reference f))
  copy_fds n (i + 1) p child k

module _ (env : Env) where
  open env use {jrb}

  -- The work on chunk `i`, which was free.
  unfoldable pub fork_into : ℕ → Ptr → Ptr → M (Unit {0})
  fork_into i p child k = do
    modify λ h. record h { memory_chunk = update h.memory_chunk i 1 }
    h ← get
    set_pcb child λ n. record n { memory_num = i; base = i * h.user_limit; limit = h.user_limit }
    c ← get_pcb p
    copy_block (i * h.user_limit) c.base h.user_limit
    set_pcb child λ n. record n {
      my_registers = copy_regs c.my_registers n.my_registers;
      sbrk_ptr = c.sbrk_ptr;
    }
    pid ← get_new_pid env
    waiters_sem ← make_kt_sem env 0
    set_pcb child λ n. record n {
      pid = to_ushort pid;
      parent = p;
      waiters_sem = waiters_sem;
      waiters = [];
      children = [];
    }
    set_pcb p λ c. record c { children = jrb.insert_int c.children (to_ushort pid) child }
    copy_fds 64 0 p child
    k tt

  -- The end of do_fork, with the chunk that was found.
  unfoldable pub fork_found : Ptr → Ptr → Option ℕ → Cmd
  fork_found p child none = syscall_return env p eagain
  fork_found p child (some i) = do
    fork_into i p child
    kt_fork (Task.user Call.finish_fork child)
    n ← get_pcb child
    syscall_return env p (pos n.pid)

  unfoldable pub do_fork : Ptr → Cmd
  do_fork p = do
    child ← malloc
    modify (put_pcb child env.uninit_pcb)
    h ← get
    fork_found p child (find_chunk 8 0 h.memory_chunk)

  unfoldable pub finish_fork : Ptr → Cmd
  finish_fork p = syscall_return env p (pos 0)
