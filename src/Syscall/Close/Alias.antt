-- ===== src/Syscall/Close/Alias.antt =====
-- close of one of two numbers that dup made share a descriptor.
use cs170lab.Prelude.{ℕ, suc, ◌<◌, ◌≡◌, refl, ◌∙◌, inr, true, false, some, arith, ==_refl, update}
use cs170lab.Prelude.Int.{pos, negsuc, ◌+ℤ◌, ◌==ℤ◌}
use cs170lab.Structs.{Ptr, Fd, Pipe, Pcb}
use cs170lab.Env.{Env}
use cs170lab.Kernel.{Kernel, Cmd, exited, put_pcb}
use cs170lab.Syscall.{syscall_return}
use cs170lab.Syscall.Errno.{ebadf}
use cs170lab.Syscall.Return.{finished, syscall_return-finished, bad_fd-small}
use cs170lab.Syscall.Refuse.{do_close-ebadf}
use cs170lab.Syscall.Close.{close_read, do_close}

-- One reader less, of at least two.
pred_count : (m : ℕ) → pos (suc (suc m)) +ℤ negsuc 0 ≡ pos (suc m)
unfolding ◌+ℤ◌
pred_count m = ground arith

pub some_left : (m : ℕ) → (pos (suc m) ==ℤ pos 0) ≡ false
some_left m = ground arith

abbrev pub shut : Fd → Fd
shut f = record f { is_open = false }

abbrev pub one_less : ℕ → Pipe → Pipe
one_less m q = record q { read_count = pos (suc m) }

-- A call of `close` on the number `i`, whose descriptor `f` reads from the pipe `q`.
pub record Closes (h : Kernel) (p : Ptr) (c : Pcb) (i : ℕ) (f : Fd) (q : Pipe) : Type 0 where
  pub at : h.pcbs p ≡ some c
  pub arg : c.my_registers 5 ≡ pos i
  pub small : i < 64
  pub is : h.fds (c.fd i) ≡ some f
  pub opened : f.is_open ≡ true
  pub reading : f.is_read ≡ true
  pub piped : f.console ≡ false
  pub pipe : h.pipes f.my_pipe ≡ some q

module _ (env : Env) (h : Kernel) (p : Ptr) (c : Pcb) (i m : ℕ) (f : Fd) (q : Pipe)
    (r : Closes h p c i f q) (two : q.read_count ≡ pos (suc (suc m))) where
  abbrev closed : Kernel
  closed = record h {
    pipes = update h.pipes f.my_pipe (some (one_less m q));
    fds = update h.fds (c.fd i) (some (shut f));
  }

  close_read-closed : (k : Unit {0} → Cmd) → close_read env (c.fd i) k h ≡ k tt closed
  unfolding close_read
  close_read-closed k = rw (r.is, r.pipe, two, pred_count m, r.is, ==_refl f.my_pipe, some_left m)

  do_close-close_read :
      do_close env p h ≡ close_read env (c.fd i) (λ _. syscall_return env p (pos 0)) h
  unfolding do_close
  do_close-close_read = rw (r.at, r.arg, bad_fd-small i r.small, r.is, r.opened, r.piped, r.reading)

  -- Of a pipe with at least two readers counted, a close of the number `i` lowers the count by one. It
  -- closes the shared descriptor, so a close of the other number, `j`, then returns -EBADF and changes
  -- nothing else: the second reference stays counted.
  pub do_close-shared :
      (j : ℕ) (d : Pcb)
      → j < 64
      → d.fd j ≡ c.fd i
      → d.my_registers 5 ≡ pos j
      → (k : Kernel) × (do_close env p h ≡ exited k)
        × (k.pipes f.my_pipe ≡ some (one_less m q))
        × (do_close env p (put_pcb p d k) ≡ exited (finished p ebadf d (put_pcb p d k)))
  do_close-shared j d small same arg =
      let k = finished p (pos 0) c closed in
      (
        k,
        do_close-close_read
            ∙ close_read-closed (λ _. syscall_return env p (pos 0))
            ∙ syscall_return-finished env p (pos 0) c closed r.at,
        rw (==_refl f.my_pipe),
        do_close-ebadf env (put_pcb p d k) p d (rw (==_refl p))
            (inr (shut f, rw arg (bad_fd-small j small), rw (arg, same, ==_refl (c.fd i)), refl)),
      )
