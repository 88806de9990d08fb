-- ===== src/Syscall/Close.antt =====
-- do_close of syscall.c.
pub mod Alias
pub mod Last
use cs170lab.Prelude.{false, not, if◌then◌else◌}
use cs170lab.Prelude.Int.{pos, negsuc, pos_part, ◌+ℤ◌, ◌==ℤ◌}
use cs170lab.Structs.{Ptr}
use cs170lab.Env.{Env}
use cs170lab.Kernel.{
  M, Cmd, ◌>>=◌, ◌>>◌, when, branch, leave_if, get_pcb, get_fd, get_pipe, set_fd, set_pipe,
  free_pipe,
}
use cs170lab.Sem.{v_times}
use cs170lab.Syscall.{bad_fd, syscall_return}
use cs170lab.Syscall.Errno.{ebadf}

module _ (env : Env) where
  -- The last reader lets the writers go on.
  unfoldable pub close_read : Ptr → M (Unit {0})
  unfolding ◌+ℤ◌
  close_read a k = do
    f ← get_fd a
    set_pipe f.my_pipe λ q. record q { read_count = q.read_count +ℤ negsuc 0 }
    set_fd a λ f. record f { is_open = false }
    q ← get_pipe f.my_pipe
    branch (q.read_count ==ℤ pos 0)
        (do
          v_times env (pos_part q.write_count) q.space_available
          when (q.write_count ==ℤ pos 0) (free_pipe f.my_pipe)
          k tt)
        (k tt)

  unfoldable pub close_write : Ptr → M (Unit {0})
  unfolding ◌+ℤ◌
  close_write a k = do
    f ← get_fd a
    set_pipe f.my_pipe λ q. record q { write_count = q.write_count +ℤ negsuc 0 }
    set_fd a λ f. record f { is_open = false }
    q ← get_pipe f.my_pipe
    branch (q.write_count ==ℤ pos 0) (do when (q.read_count ==ℤ pos 0) (free_pipe f.my_pipe); k tt)
        (k tt)

  unfoldable pub do_close : Ptr → Cmd
  do_close p = do
    c ← get_pcb p
    let fd_num = c.my_registers 5
    leave_if (bad_fd fd_num) (syscall_return env p ebadf)
    let a = c.fd (pos_part fd_num)
    f ← get_fd a
    leave_if (not f.is_open) (syscall_return env p ebadf)
    when (not f.console) (if f.is_read then close_read a else close_write a)
    syscall_return env p (pos 0)
