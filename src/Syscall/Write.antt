-- ===== src/Syscall/Write.antt =====
-- do_write of syscall.c. The registers of a process do not change while its call waits, so they are
-- read once; a pipe is read again after each wait.
pub mod Pipe
pub mod Transfer
use cs170lab.Prelude.{ℕ, zero, suc, ◌+◌, ◌%◌, not, ◌&&◌, ◌∷◌, [], ◌++◌, update}
use cs170lab.Prelude.Int.{ℤ, pos, pos_part, ltb_ℤ, ◌+ℤ◌, ◌==ℤ◌, add_int}
use cs170lab.Structs.{Ptr, Regs, memory_size, pipe_size}
use cs170lab.Env.{Env}
use cs170lab.Kernel.{
  M, Cmd, ◌>>=◌, ◌>>◌, get, modify, branch, leave_if, get_pcb, get_fd, get_pipe, set_pipe,
  load_byte, in_bounds, wait_for,
}
use cs170lab.Sem.{v_kt_sem}
use cs170lab.Syscall.{bad_fd, syscall_return, valid_address}
use cs170lab.Syscall.Errno.{efault, ebadf, efbig, einval, epipe}

-- The loop of `console_write`: `n` rounds, from the address `a` on.
unfoldable pub write_console_loop : ℕ → ℤ → M (Unit {0})
unfolding ◌+ℤ◌
write_console_loop zero a k = k tt
write_console_loop (suc n) a k = do
  b ← load_byte a
  modify λ h. record h { written = h.written ++ b ∷ [] }
  h ← get
  wait_for h.writeok
  write_console_loop n (a +ℤ pos 1) k

module _ (env : Env) where
  -- The tests of the buffer, which both kinds of descriptor make.
  unfoldable pub check_range : Ptr → Regs → M (Unit {0})
  unfolding add_int
  check_range p regs k = do
    leave_if (ltb_ℤ (regs 6) (pos 0)) (syscall_return env p efault)
    leave_if (ltb_ℤ (pos memory_size) (add_int (regs 6) (regs 7))) (syscall_return env p efbig)
    leave_if (ltb_ℤ (regs 7) (pos 0)) (syscall_return env p einval)
    k tt

  unfoldable pub write_console : Ptr → Regs → ℕ → Cmd
  unfolding ◌+ℤ◌
  write_console p regs base = do
    leave_if (not (regs 5 ==ℤ pos 1) && not (regs 5 ==ℤ pos 2)) (syscall_return env p ebadf)
    check_range p regs
    h ← get
    wait_for h.writers
    write_console_loop (pos_part (regs 7)) (regs 6 +ℤ pos base)
    h ← get
    v_kt_sem env h.writers
    syscall_return env p (pos (pos_part (regs 7)))

  -- The loop over a pipe: `n` rounds, from the address `a` on; the byte goes to the index `start`.
  unfoldable pub write_pipe_loop : ℕ → ℤ → ℕ → Ptr → Ptr → M (Unit {0})
  unfolding ◌+ℤ◌
  write_pipe_loop zero a start pipe p k = k tt
  write_pipe_loop (suc n) a start pipe p k = do
    b ← load_byte a
    in_bounds pipe_size start
    set_pipe pipe λ q. record q {
      buffer = update q.buffer start b;
      write_head = (q.write_head + 1) % pipe_size;
    }
    q ← get_pipe pipe
    wait_for q.space_available
    q ← get_pipe pipe
    branch (q.read_count ==ℤ pos 0) (do v_kt_sem env q.write; syscall_return env p epipe)
        (do v_kt_sem env q.nelement; write_pipe_loop n (a +ℤ pos 1) (start + 1) pipe p k)

  -- What follows the loop over a pipe.
  unfoldable pub write_pipe_end : Ptr → Ptr → ℕ → Cmd
  unfolding ◌+ℤ◌
  write_pipe_end p pipe n = do
    set_pipe pipe λ q. record q { writer_in_use = q.writer_in_use +ℤ pos n }
    q ← get_pipe pipe
    v_kt_sem env q.write
    syscall_return env p (pos n)

  unfoldable pub write_pipe : Ptr → Regs → ℕ → Ptr → Cmd
  unfolding ◌+ℤ◌
  write_pipe p regs base pipe = do
    check_range p regs
    q ← get_pipe pipe
    leave_if (q.read_count ==ℤ pos 0) (syscall_return env p ebadf)
    wait_for q.write
    q ← get_pipe pipe
    write_pipe_loop (pos_part (regs 7)) (regs 6 +ℤ pos base) q.write_head pipe p
    write_pipe_end p pipe (pos_part (regs 7))

  unfoldable pub do_write : Ptr → Cmd
  unfolding valid_address
  do_write p = do
    c ← get_pcb p
    leave_if (not (valid_address c)) (syscall_return env p efault)
    let regs = c.my_registers
    leave_if (bad_fd (regs 5)) (syscall_return env p ebadf)
    f ← get_fd (c.fd (pos_part (regs 5)))
    leave_if (not f.is_open) (syscall_return env p ebadf)
    leave_if f.is_read (syscall_return env p ebadf)
    branch f.console (write_console p regs c.base) (write_pipe p regs c.base f.my_pipe)
