-- ===== src/Syscall/Read.antt =====
-- do_read of syscall.c. The registers of a process do not change while its call waits, so they are
-- read once; the buffers are read again after each wait. A byte of 255 is the `char` -1.
pub mod Pipe
pub mod Transfer
pub mod Stops
pub mod Typed
use cs170lab.Prelude.{ℕ, zero, suc, ◌+◌, ◌%◌, not, ◌==◌}
use cs170lab.Prelude.Int.{ℤ, pos, neg, pos_part, ltb_ℤ, ◌+ℤ◌, ◌==ℤ◌}
use cs170lab.Structs.{Ptr, Regs, pipe_size}
use cs170lab.Env.{Env}
use cs170lab.Kernel.{
  Cmd, ◌>>=◌, ◌>>◌, get, modify, branch, leave_if, get_pcb, get_fd, get_pipe, set_pipe, store_byte,
  in_bounds, wait_for,
}
use cs170lab.Sem.{v_kt_sem}
use cs170lab.Syscall.{bad_fd, syscall_return, valid_address}
use cs170lab.Syscall.Errno.{efault, ebadf, einval}

module _ (env : Env) where
  -- The loop over the console's buffer: `n` rounds are left, `count` bytes are at `a`.
  unfoldable pub read_console_loop : ℕ → ℕ → ℤ → Ptr → Cmd
  unfolding ◌+ℤ◌
  read_console_loop zero count a p = do
    h ← get
    v_kt_sem env h.readers
    syscall_return env p (pos count)
  read_console_loop (suc n) count a p = do
    h ← get
    wait_for h.nelem
    h ← get
    in_bounds h.console.size h.console.head
    let b = h.console.buff h.console.head
    branch (b == 255)
        (do v_kt_sem env h.nslots; v_kt_sem env h.readers; syscall_return env p (pos count))
        (do
          store_byte (a +ℤ pos count) b
          modify λ h. record h {
            console = record h.console { head = (h.console.head + 1) % h.console.size };
          }
          v_kt_sem env h.nslots
          read_console_loop n (count + 1) a p)

  unfoldable pub read_console : Ptr → Regs → ℕ → Cmd
  unfolding ◌+ℤ◌
  read_console p regs base = do
    leave_if (not (regs 5 ==ℤ pos 0)) (syscall_return env p ebadf)
    leave_if (ltb_ℤ (regs 6) (pos 0)) (syscall_return env p efault)
    leave_if (ltb_ℤ (regs 7) (pos 0)) (syscall_return env p einval)
    h ← get
    wait_for h.readers
    read_console_loop (pos_part (regs 7)) 0 (regs 6 +ℤ pos base) p

  -- The loop over a pipe: `n` rounds are left, `count` bytes are at `a`, the next one is read from
  -- the index `start`.
  unfoldable pub read_pipe_loop : ℕ → ℕ → ℤ → ℕ → Ptr → Ptr → Cmd
  unfolding ◌+ℤ◌
  read_pipe_loop zero count a start pipe p = do
    q ← get_pipe pipe
    v_kt_sem env q.read
    syscall_return env p (pos count)
  read_pipe_loop (suc n) count a start pipe p = do
    q ← get_pipe pipe
    leave_if (q.write_count ==ℤ pos 0) (do v_kt_sem env q.read; syscall_return env p (pos count))
    leave_if (pos count ==ℤ q.writer_in_use) (do
      set_pipe pipe λ q. record q { writer_in_use = q.writer_in_use +ℤ neg count }
      v_kt_sem env q.read
      syscall_return env p (pos count))
    wait_for q.nelement
    q ← get_pipe pipe
    in_bounds pipe_size start
    let b = q.buffer start
    leave_if (b == 255)
        (do v_kt_sem env q.space_available; v_kt_sem env q.read; syscall_return env p (pos count))
    store_byte (a +ℤ pos count) b
    set_pipe pipe λ q. record q { read_head = (q.read_head + 1) % pipe_size }
    v_kt_sem env q.space_available
    read_pipe_loop n (count + 1) a (start + 1) pipe p

  unfoldable pub read_pipe : Ptr → Regs → ℕ → Ptr → Cmd
  unfolding ◌+ℤ◌
  read_pipe p regs base pipe = do
    leave_if (ltb_ℤ (regs 6) (pos 0)) (syscall_return env p efault)
    leave_if (ltb_ℤ (regs 7) (pos 0)) (syscall_return env p einval)
    q ← get_pipe pipe
    wait_for q.read
    q ← get_pipe pipe
    read_pipe_loop (pos_part (regs 7)) 0 (regs 6 +ℤ pos base) q.read_head pipe p

  unfoldable pub do_read : Ptr → Cmd
  unfolding valid_address
  do_read p = do
    c ← get_pcb p
    leave_if (not (valid_address c)) (syscall_return env p efault)
    let regs = c.my_registers
    leave_if (bad_fd (regs 5)) (syscall_return env p ebadf)
    f ← get_fd (c.fd (pos_part (regs 5)))
    leave_if (not f.is_open) (syscall_return env p ebadf)
    leave_if (not f.is_read) (syscall_return env p ebadf)
    branch f.console (read_console p regs c.base) (read_pipe p regs c.base f.my_pipe)
