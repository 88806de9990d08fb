-- ===== src/Syscall/Dup.antt =====
-- do_dup and do_dup2 of syscall.c. Two descriptors of one process share the `struct Fd`.
pub mod Find
pub mod Share
pub mod Replace
use cs170lab.Prelude.{
  ℕ, zero, suc, ◌+◌, false, not, ◌||◌, Option, none, some, if◌then◌else◌, update,
}
use cs170lab.Prelude.Int.{pos, negsuc, pos_part, ltb_ℤ, ◌+ℤ◌}
use cs170lab.Structs.{Ptr, null}
use cs170lab.Env.{Env}
use cs170lab.Kernel.{
  M, Cmd, ◌>>=◌, ◌>>◌, when, leave_if, get_pcb, get_fd, set_pcb, set_fd, set_pipe,
}
use cs170lab.Syscall.{bad_fd, syscall_return}
use cs170lab.Syscall.Errno.{ebadf}
use cs170lab.Syscall.Fork.{add_reference}

-- `for (i = 0; i < 64; i++) if (fd[i]->open == FALSE) …`: the first of `n` descriptors from `i` on
-- that is not open.
unfoldable pub find_fd : ℕ → ℕ → (ℕ → Ptr) → M (Option ℕ)
find_fd zero i fd k = k none
find_fd (suc n) i fd k =
    get_fd (fd i) λ f. let rest = find_fd n (i + 1) fd k in if f.is_open then rest else k (some i)

-- The number shares the descriptor at `a`, and the pipe counts one more reference.
unfoldable pub share_fd : Ptr → Ptr → ℕ → M (Unit {0})
unfolding ◌+ℤ◌
share_fd p a new k = do
  set_fd a λ f. record f { reference_count = f.reference_count + 1 }
  set_pcb p λ c. record c { fd = update c.fd new a }
  f ← get_fd a
  set_pipe f.my_pipe (add_reference f)
  k tt

-- "close it before dup2"
unfoldable pub close_for_dup2 : Ptr → M (Unit {0})
unfolding ◌+ℤ◌
close_for_dup2 a k = do
  set_fd a λ f. record f { console = false }
  f ← get_fd a
  set_pipe f.my_pipe λ q. record q { read_count = q.read_count +ℤ negsuc 0 }
  set_pipe f.my_pipe λ q. record q { write_count = q.write_count +ℤ negsuc 0 }
  set_fd a λ f. record f { my_pipe = null; is_open = false; reference_count = 0 }
  k tt

module _ (env : Env) where
  -- The end of do_dup, with what the search found.
  unfoldable pub dup_to : Ptr → Ptr → Option ℕ → Cmd
  dup_to p a none = syscall_return env p ebadf
  dup_to p a (some new_fd) = do share_fd p a new_fd; syscall_return env p (pos new_fd)

  unfoldable pub do_dup : Ptr → Cmd
  do_dup p = do
    c ← get_pcb p
    let old_fd = c.my_registers 5
    leave_if (bad_fd old_fd) (syscall_return env p ebadf)
    let a = c.fd (pos_part old_fd)
    f ← get_fd a
    leave_if (not f.is_open) (syscall_return env p ebadf)
    found ← find_fd 64 0 c.fd
    dup_to p a found

  unfoldable pub do_dup2 : Ptr → Cmd
  do_dup2 p = do
    c ← get_pcb p
    let old_fd = c.my_registers 5
    leave_if (bad_fd old_fd) (syscall_return env p ebadf)
    let a = c.fd (pos_part old_fd)
    f ← get_fd a
    leave_if (not f.is_open) (syscall_return env p ebadf)
    let new_fd = c.my_registers 6
    leave_if (bad_fd new_fd) (syscall_return env p ebadf)
    let b = c.fd (pos_part new_fd)
    g ← get_fd b
    when g.is_open (close_for_dup2 b)
    share_fd p a (pos_part new_fd)
    syscall_return env p new_fd
