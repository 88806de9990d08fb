-- ===== src/Syscall/Write/Transfer.antt =====
-- do_write on a descriptor of a pipe, from the call to its return.
use cs170lab.Prelude.{
  ℕ, ◌+◌, ◌-◌, ◌%◌, ◌<◌, ◌≤◌, ◌≡◌, fun_ext, ap, ◌∙◌, ◌≢◌, true, false, some, arith, ==_refl, update,
  update-update,
}
use cs170lab.Prelude.Int.{pos, ◌+ℤ◌, ltb_ℤ, add_int-pos, pos_add}
use cs170lab.Structs.{Ptr, Regs, Mem, Fd, Pipe, Pcb, memory_size, pipe_size}
use cs170lab.Env.{Env}
use cs170lab.Kernel.{Kernel, Cmd, exited, fault}
use cs170lab.Sem.Drive.{drive}
use cs170lab.Syscall.{valid_address}
use cs170lab.Syscall.Return.{finished, syscall_return-finished, bad_fd-small}
use cs170lab.Syscall.Write.{check_range, write_pipe_loop, write_pipe_end, write_pipe, do_write}
use cs170lab.Syscall.Write.Pipe.{
  filled, moved, written_pipe, CanWrite, write_pipe_loop-written, write_pipe_loop-fault,
}

-- The tests of the buffer let a block inside the memory pass.
ltb_ℤ-pos : (n : ℕ) → ltb_ℤ (pos n) (pos 0) ≡ false
ltb_ℤ-pos n = ground arith

ltb_ℤ-le : (n m : ℕ) → n ≤ m → ltb_ℤ (pos m) (pos n) ≡ false
ltb_ℤ-le n m h = ground arith

module _ (env : Env) (p : Ptr) (regs : Regs) (k : Unit {0} → Cmd) (h : Kernel) where
  pub check_range-inside :
      (a len : ℕ)
      → regs 6 ≡ pos a
      → regs 7 ≡ pos len
      → a + len ≤ memory_size
      → check_range env p regs k h ≡ k tt h
  unfolding check_range
  check_range-inside a len ea el fits = rw (
    ea,
    el,
    add_int-pos a len (omega (arith, fits)),
    ltb_ℤ-pos a,
    ltb_ℤ-le (a + len) memory_size fits,
    ltb_ℤ-pos len,
  )

-- What the pipe looks like behind a write of `len` bytes from `x` on.
abbrev pub received : ℕ → ℕ → Mem → Pipe → Pipe
received len x m q = record q {
  buffer = filled len x q.write_head m q.buffer;
  write_head = (q.write_head + len) % pipe_size;
  writer_in_use = q.writer_in_use +ℤ pos len;
}

-- A call of `write` on an open descriptor `f` for writing to the pipe `q`, with `len` bytes at the
-- user's address `a`, while no other thread writes to the pipe.
pub record Writes (h : Kernel) (p : Ptr) (c : Pcb) (n : ℕ) (f : Fd) (q : Pipe) (a len : ℕ)
    : Type 0 where
  pub at : h.pcbs p ≡ some c
  pub valid : valid_address c ≡ true
  pub arg : c.my_registers 5 ≡ pos n
  pub small : n < 64
  pub is : h.fds (c.fd n) ≡ some f
  pub opened : f.is_open ≡ true
  pub writing : f.is_read ≡ false
  pub piped : f.console ≡ false
  pub from : c.my_registers 6 ≡ pos a
  pub size : c.my_registers 7 ≡ pos len
  pub fits : a + len ≤ memory_size
  pub can : CanWrite len (a + c.base) f.my_pipe q h
  pub idle : 1 ≤ h.sems q.write
  pub write_space : q.write ≢ q.space_available
  pub write_nelement : q.write ≢ q.nelement

module _ (env : Env) (h : Kernel) (p : Ptr) (c : Pcb) (n : ℕ) (f : Fd) (q : Pipe) (a len : ℕ)
    (w : Writes h p c n f q a len) where
  do_write-write_pipe : do_write env p h ≡ write_pipe env p c.my_registers c.base f.my_pipe h
  unfolding do_write
  do_write-write_pipe =
      rw (w.at, w.valid, w.arg, bad_fd-small n w.small, w.is, w.opened, w.writing, w.piped)

  abbrev taken : Kernel
  taken = record h { sems = update h.sems q.write (h.sems q.write - 1) }

  CanWrite-taken : CanWrite len (a + c.base) f.my_pipe q taken
  CanWrite-taken = record {
    at = w.can.at;
    reader = w.can.reader;
    apart = w.can.apart;
    space = ground (arith, w.can.space, w.write_space);
    source = w.can.source;
    head = w.can.head;
  }

  sems-moved :
      (let s =
          moved len q.space_available q.nelement (update h.sems q.write (h.sems q.write - 1)) in
        update s q.write (s q.write + 1))
      ≡ moved len q.space_available q.nelement h.sems
  sems-moved = fun_ext λ i. ground (arith, w.write_space, w.write_nelement, w.idle)

  loop_starts :
      drive env (write_pipe env p c.my_registers c.base f.my_pipe h)
      ≡ drive env (
          write_pipe_loop env len
            (pos (a + c.base))
            q.write_head
            f.my_pipe
            p
            (λ _. write_pipe_end env p f.my_pipe len)
            taken)
  unfolding write_pipe drive
  loop_starts = rw (
    check_range-inside env p c.my_registers _ h a len w.from w.size w.fits,
    w.can.at,
    w.can.reader,
    env.kt.p-suc h.sems q.write (h.sems q.write - 1) (omega (arith, w.idle)),
    w.can.at,
    w.from,
    w.size,
    pos_add a c.base,
  )

  write_ends :
      drive env (
        write_pipe_end env p f.my_pipe len
          (written_pipe len (a + c.base) q.write_head f.my_pipe q taken))
      ≡ exited (
          finished p (pos len) c (record h {
            pipes = update h.pipes f.my_pipe (some (received len (a + c.base) h.main_memory q));
            sems = moved len q.space_available q.nelement h.sems;
          }))
  unfolding write_pipe_end drive
  write_ends =
      rw (==_refl f.my_pipe, env.kt.v_lem, sems-moved)
        (ap (drive env) (syscall_return-finished env p (pos len) c _ w.at)
          ∙ ap
              (λ pipes. exited (
                finished p (pos len) c (record h {
                  pipes = pipes;
                  sems = moved len q.space_available q.nelement h.sems;
                })))
              (update-update h.pipes f.my_pipe _ _))

  -- Where the bytes fit behind the write head, the call ends and returns `len`. The bytes at the user's address are
  -- in the pipe's buffer from the old write head on, in order. The write head and `writer_in_use` have advanced by `len`,
  -- `nelement` is raised and `space_available` lowered by it, and nothing else changes.
  pub do_write-received :
      q.write_head + len ≤ pipe_size
      → drive env (do_write env p h)
        ≡ exited (
            finished p (pos len) c (record h {
              pipes = update h.pipes f.my_pipe (some (received len (a + c.base) h.main_memory q));
              sems = moved len q.space_available q.nelement h.sems;
            }))
  do_write-received room =
      ap (drive env) do_write-write_pipe
      ∙ loop_starts
      ∙ write_pipe_loop-written env f.my_pipe p (λ _. write_pipe_end env p f.my_pipe len) len
          (a + c.base) q.write_head q taken CanWrite-taken room
      ∙ write_ends

  -- Where the bytes go past the end of the buffer, the call writes outside it, although as many slots
  -- are free: only `write_head` goes round at the end, and the index does not.
  pub do_write-fault : pipe_size < q.write_head + len → drive env (do_write env p h) ≡ fault
  do_write-fault over =
      ap (drive env) do_write-write_pipe
      ∙ loop_starts
      ∙ write_pipe_loop-fault env f.my_pipe p (λ _. write_pipe_end env p f.my_pipe len) len
          (a + c.base) q.write_head q taken CanWrite-taken (omega (arith, w.can.head)) over
