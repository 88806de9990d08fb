-- ===== src/Threads/Transfers.antt =====
-- read and write: the calls with loops over the memory of their process, and with waits in them.
use cs170lab.Prelude.{ℕ, zero, suc, ◌+◌, ◌%◌, ◌==◌}
use cs170lab.Prelude.Int.{ℤ, pos, ◌+ℤ◌, ◌==ℤ◌}
use cs170lab.Structs.{Ptr, Regs, pipe_size}
use cs170lab.Env.{Env}
use cs170lab.Kernel.{
  Kernel, Cmd, ◌>>=◌, ◌>>◌, get, modify, get_pipe, set_pipe, branch, leave_if, store_byte,
  in_bounds,
}
use cs170lab.Sem.{v_kt_sem}
use cs170lab.Syscall.Errno.{epipe}
use cs170lab.Syscall.{syscall_return}
use cs170lab.Syscall.Write.{
  write_console_loop, check_range, write_console, write_pipe_loop, write_pipe_end, write_pipe,
  do_write,
}
use cs170lab.Syscall.Read.{read_console_loop, read_console, read_pipe_loop, read_pipe, do_read}
use cs170lab.Threads.{Follows, Nobody}
use cs170lab.Threads.Calls.{Good, rules}
use cs170lab.Threads.Frames.{Still, ready_behind}

module _ (env : Env) (p : Ptr) where
  -- What goes on whenever the parts that matter are as they were.
  abbrev pub Rest : Cmd → Type 0
  Rest c = (h0 h : Kernel) → Still Nobody h0 h → Follows Nobody (ready_behind p) h0 (c h)

  write_console_loop-Follows :
      (n : ℕ) (a : ℤ) (k : Unit {0} → Cmd) → Rest (k tt) → Rest (write_console_loop n a k)
  unfolding write_console_loop
  write_console_loop-Follows zero a k r h0 h s = r h0 h s
  write_console_loop-Follows (suc n) a k r h0 h s =
      search (rules, write_console_loop-Follows n (a +ℤ pos 1) k r, tt)

  check_range-Follows :
      (regs : Regs) (k : Unit {0} → Cmd) → Rest (k tt) → Rest (check_range env p regs k)
  unfolding check_range
  check_range-Follows regs k r h0 h s = search (r, rules)

  -- What follows `P_kt_sem(space_available)` in a round, and `P_kt_sem(write)`.
  write_round :
      (n : ℕ) (a : ℤ) (start : ℕ) (q : Ptr) (k : Unit {0} → Cmd)
      → Rest (write_pipe_loop env n (a +ℤ pos 1) (start + 1) q p k)
      → Good env p (do
        c ← get_pipe q
        branch
            (c.read_count ==ℤ pos 0)
            (do v_kt_sem env c.write; syscall_return env p epipe)
            (do v_kt_sem env c.nelement; write_pipe_loop env n (a +ℤ pos 1) (start + 1) q p k))
  write_round n a start q k r g = search (rules, r)

  write_pipe_loop-Follows :
      (n : ℕ) (a : ℤ) (start : ℕ) (q : Ptr) (k : Unit {0} → Cmd)
      → Rest (k tt)
      → Rest (write_pipe_loop env n a start q p k)
  unfolding write_pipe_loop
  write_pipe_loop-Follows zero a start q k r h0 h s = r h0 h s
  write_pipe_loop-Follows (suc n) a start q k r h0 h s =
      search
        (
          rules,
          write_round n a start q k (write_pipe_loop-Follows n (a +ℤ pos 1) (start + 1) q k r),
          tt,
        )
        depth 20 fits 2000

  write_pipe_end-Follows : (q : Ptr) (n : ℕ) → Rest (write_pipe_end env p q n)
  unfolding write_pipe_end
  write_pipe_end-Follows q n h0 h s = search rules depth 20 fits 2000

  write_behind :
      (n : ℕ) (a : ℤ) (q : Ptr)
      → Good env p
          (do c ← get_pipe q; write_pipe_loop env n a c.write_head q p; write_pipe_end env p q n)
  write_behind n a q g = search (rules, write_pipe_loop-Follows, write_pipe_end-Follows)

  write_pipe-Follows : (regs : Regs) (base : ℕ) (q : Ptr) → Rest (write_pipe env p regs base q)
  unfolding write_pipe
  write_pipe-Follows regs base q =
      check_range-Follows regs _ λ h0 h s. search (rules, write_behind) depth 20 fits 2000

  write_console-Follows : (regs : Regs) (base : ℕ) → Rest (write_console env p regs base)
  unfolding write_console
  write_console-Follows regs base h0 h s =
      search (rules, check_range-Follows, write_console_loop-Follows) depth 20 fits 2000

  -- write, up to its first wait and between each two, from whatever kernel the other threads left: structures and
  -- chunks of all processes that are no zombies stay, nobody becomes a zombie, and only where the call ends is
  -- its process put behind the ready queue.
  pub do_write-Good : Good env p (do_write env p)
  unfolding do_write
  do_write-Good h = search (rules, write_console-Follows, write_pipe-Follows) depth 30 fits 3000

  -- What follows `P_kt_sem(nelem)` in a round.
  read_console_round :
      (n count : ℕ) (a : ℤ)
      → Rest (read_console_loop env n (count + 1) a p)
      → Good env p (do
        h ← get
        in_bounds h.console.size h.console.head
        let b = h.console.buff h.console.head
        branch
            (b == 255)
            (do v_kt_sem env h.nslots; v_kt_sem env h.readers; syscall_return env p (pos count))
            (do
              store_byte (a +ℤ pos count) b
              modify λ h. record h {
                console = record h.console { head = (h.console.head + 1) % h.console.size };
              }
              v_kt_sem env h.nslots
              read_console_loop env n (count + 1) a p))
  read_console_round n count a r g = search (rules, r, tt) depth 20 fits 2000

  read_console_loop-Follows : (n count : ℕ) (a : ℤ) → Rest (read_console_loop env n count a p)
  unfolding read_console_loop
  read_console_loop-Follows zero count a h0 h s = search rules
  read_console_loop-Follows (suc n) count a h0 h s =
      search (rules, read_console_round n count a (read_console_loop-Follows n (count + 1) a)) depth
        20 fits 2000

  read_console-Follows : (regs : Regs) (base : ℕ) → Rest (read_console env p regs base)
  unfolding read_console
  read_console-Follows regs base h0 h s =
      search (rules, read_console_loop-Follows) depth 20 fits 2000

  -- What follows `P_kt_sem(nelement)` in a round, and `P_kt_sem(read)`.
  read_round :
      (n count : ℕ) (a : ℤ) (start : ℕ) (q : Ptr)
      → Rest (read_pipe_loop env n (count + 1) a (start + 1) q p)
      → Good env p (do
        c ← get_pipe q
        in_bounds pipe_size start
        let b = c.buffer start
        leave_if (b == 255) (do
          v_kt_sem env c.space_available
          v_kt_sem env c.read
          syscall_return env p (pos count))
        store_byte (a +ℤ pos count) b
        set_pipe q λ c. record c { read_head = (c.read_head + 1) % pipe_size }
        v_kt_sem env c.space_available
        read_pipe_loop env n (count + 1) a (start + 1) q p)
  read_round n count a start q r g = search (rules, r, tt) depth 20 fits 2000

  read_pipe_loop-Follows :
      (n count : ℕ) (a : ℤ) (start : ℕ) (q : Ptr) → Rest (read_pipe_loop env n count a start q p)
  unfolding read_pipe_loop
  read_pipe_loop-Follows zero count a start q h0 h s = search rules
  read_pipe_loop-Follows (suc n) count a start q h0 h s =
      search
        (rules, read_round n count a start q (read_pipe_loop-Follows n (count + 1) a (start + 1) q))
        depth 20 fits 2000

  read_behind :
      (n : ℕ) (a : ℤ) (q : Ptr)
      → Good env p (do c ← get_pipe q; read_pipe_loop env n 0 a c.read_head q p)
  read_behind n a q g = search (rules, read_pipe_loop-Follows)

  read_pipe-Follows : (regs : Regs) (base : ℕ) (q : Ptr) → Rest (read_pipe env p regs base q)
  unfolding read_pipe
  read_pipe-Follows regs base q h0 h s = search (rules, read_behind) depth 20 fits 2000

  -- read, up to its first wait and between each two, from whatever kernel the other threads left: structures and
  -- chunks of all processes that are no zombies stay, nobody becomes a zombie, and only where the call ends is
  -- its process put behind the ready queue.
  pub do_read-Good : Good env p (do_read env p)
  unfolding do_read
  do_read-Good h = search (rules, read_console-Follows, read_pipe-Follows) depth 30 fits 3000
