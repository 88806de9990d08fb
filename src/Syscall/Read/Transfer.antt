-- ===== src/Syscall/Read/Transfer.antt =====
-- do_read on a descriptor of a pipe, from the call to its return.
use cs170lab.Prelude.{
  ℕ, suc, ◌+◌, ◌-◌, ◌<◌, ◌≤◌, ◌≡◌, fun_ext, sym, ap, ◌∙◌, ◌≢◌, ◌⊎◌, inl, inr, true, false, some,
  arith, ==_refl, update, update_same, Bool-cases,
}
use cs170lab.Prelude.Int.{ℤ, pos, neg, ltb_ℤ, ◌+ℤ◌, ◌==ℤ◌, pos_add}
use mathlib.Core.Bool.{false≢true}
use native.Mathlib.Nat.{add-zero, zero-add}
use cs170lab.Structs.{Ptr, Fd, Pipe, Pcb}
use cs170lab.Env.{Env}
use cs170lab.Kernel.{Kernel, exited}
use cs170lab.Sem.Drive.{drive}
use cs170lab.Syscall.{valid_address}
use cs170lab.Syscall.Return.{finished, syscall_return-finished, bad_fd-small}
use cs170lab.Syscall.Write.Pipe.{moved}
use cs170lab.Syscall.Read.{read_pipe_loop, read_pipe, do_read}
use cs170lab.Syscall.Read.Pipe.{read_from, CanRead, read_pipe_loop-read}

-- A call of `read` on an open descriptor `f` for reading from the pipe `q`, with `len` bytes wanted
-- at the user's address `a`, while no other thread reads from the pipe.
pub record Reads (h : Kernel) (p : Ptr) (c : Pcb) (n : ℕ) (f : Fd) (q : Pipe) (a len : ℕ)
    : Type 0 where
  pub at : h.pcbs p ≡ some c
  pub valid : valid_address c ≡ true
  pub arg : c.my_registers 5 ≡ pos n
  pub small : n < 64
  pub is : h.fds (c.fd n) ≡ some f
  pub opened : f.is_open ≡ true
  pub reading : f.is_read ≡ true
  pub piped : f.console ≡ false
  pub to : c.my_registers 6 ≡ pos a
  pub size : c.my_registers 7 ≡ pos len
  pub pipe : h.pipes f.my_pipe ≡ some q
  pub idle : 1 ≤ h.sems q.read
  pub read_space : q.read ≢ q.space_available
  pub read_nelement : q.read ≢ q.nelement

ltb_ℤ-pos : (n : ℕ) → ltb_ℤ (pos n) (pos 0) ≡ false
ltb_ℤ-pos n = ground arith

module _ (env : Env) (h : Kernel) (p : Ptr) (c : Pcb) (n : ℕ) (f : Fd) (q : Pipe) (a len : ℕ)
    (r : Reads h p c n f q a len) where
  pub do_read-read_pipe : do_read env p h ≡ read_pipe env p c.my_registers c.base f.my_pipe h
  unfolding do_read
  do_read-read_pipe =
      rw (r.at, r.valid, r.arg, bad_fd-small n r.small, r.is, r.opened, r.reading, r.piped)

  abbrev pub taken : Kernel
  taken = record h { sems = update h.sems q.read (h.sems q.read - 1) }

  pub loop_starts :
      drive env (read_pipe env p c.my_registers c.base f.my_pipe h)
      ≡ drive env (read_pipe_loop env len 0 (pos (a + c.base)) q.read_head f.my_pipe p taken)
  unfolding read_pipe drive
  loop_starts = rw (
    r.to,
    r.size,
    ltb_ℤ-pos a,
    ltb_ℤ-pos len,
    r.pipe,
    env.kt.p-suc h.sems q.read (h.sems q.read - 1) (omega (arith, r.idle)),
    r.pipe,
    pos_add a c.base,
  )

  -- Taking the semaphore and giving it back.
  pub sems-moved :
      (m : ℕ)
      → (let s = moved m q.nelement q.space_available (update h.sems q.read (h.sems q.read - 1)) in
          update s q.read (s q.read + 1))
        ≡ moved m q.nelement q.space_available h.sems
  sems-moved m = fun_ext λ i. ground (arith, r.read_space, r.read_nelement, r.idle)

  sems-back :
      (let s = update h.sems q.read (h.sems q.read - 1) in update s q.read (s q.read + 1)) ≡ h.sems
  sems-back = fun_ext λ i. ground (arith, r.idle)

  read_ends :
      drive env (
        read_pipe_loop env 0 len
          (pos (a + c.base))
          (q.read_head + len)
          f.my_pipe
          p
          (read_from len (a + c.base) q.read_head f.my_pipe q taken))
      ≡ exited (finished p (pos len) c (read_from len (a + c.base) q.read_head f.my_pipe q h))
  unfolding read_pipe_loop drive
  read_ends =
      rw (==_refl f.my_pipe, env.kt.v_lem, sems-moved len)
        (ap (drive env) (syscall_return-finished env p (pos len) c _ r.at))

  -- Where the pipe holds `len` bytes, which `writer_in_use` counts, none of them 255 and none behind the end of the
  -- buffer, and a writer is counted, the call ends and returns `len`. The bytes from the read head on
  -- are in memory at the user's address, in order. The read head has advanced by `len`, `nelement` is
  -- lowered and `space_available` raised by it, and nothing else changes.
  pub do_read-delivered :
      CanRead len 0 (a + c.base) q.read_head f.my_pipe q taken
      → drive env (do_read env p h)
        ≡ exited (finished p (pos len) c (read_from len (a + c.base) q.read_head f.my_pipe q h))
  do_read-delivered can =
      ap (drive env) do_read-read_pipe
      ∙ loop_starts
      ∙ rw zero-add at
          (read_pipe_loop-read env f.my_pipe p len 0 0 (a + c.base) q.read_head q taken can)
      ∙ rw (add-zero (a + c.base)) read_ends

  no_writer :
      (m : ℕ)
      → (q.write_count ==ℤ pos 0) ≡ true
      → drive env (read_pipe_loop env (suc m) 0 (pos (a + c.base)) q.read_head f.my_pipe p taken)
        ≡ exited (finished p (pos 0) c h)
  unfolding read_pipe_loop drive
  no_writer m e =
      rw (r.pipe, e, env.kt.v_lem, sems-back)
        (ap (drive env) (syscall_return-finished env p (pos 0) c _ r.at))

  none_counted :
      (m : ℕ)
      → (q.write_count ==ℤ pos 0) ≡ false
      → q.writer_in_use ≡ pos 0
      → drive env (read_pipe_loop env (suc m) 0 (pos (a + c.base)) q.read_head f.my_pipe p taken)
        ≡ exited (finished p (pos 0) c h)
  unfolding read_pipe_loop drive
  none_counted m w e =
      rw (r.pipe, w, counted, r.pipe, env.kt.v_lem, sems-back, same)
        (ap (drive env) (syscall_return-finished env p (pos 0) c _ r.at))
    where
      counted : (pos 0 ==ℤ q.writer_in_use) ≡ true
      counted = rw e

      same :
          update h.pipes f.my_pipe (some (record q { writer_in_use = q.writer_in_use +ℤ neg 0 }))
          ≡ h.pipes
      same = rw (neg_zero, update_same h.pipes f.my_pipe (some q) r.pipe)
        where
          neg_zero : q.writer_in_use +ℤ neg 0 ≡ q.writer_in_use
          neg_zero = rw (e, pos_add 0 0)

  -- The call returns 0 at once, and nothing else changes, if there is no writer any more, whatever is
  -- still in the buffer; and so it does if the count `writer_in_use` is 0, although there are
  -- writers that have yet to write.
  pub do_read-zero :
      len ≢ 0
      → (q.write_count ≡ pos 0) ⊎ (q.writer_in_use ≡ pos 0)
      → drive env (do_read env p h) ≡ exited (finished p (pos 0) c h)
  do_read-zero some_wanted nothing =
      ap (drive env) do_read-read_pipe
      ∙ loop_starts
      ∙ rw one_more (elim (Bool-cases (q.write_count ==ℤ pos 0)) [
        | inl e ↦ no_writer (len - 1) e
        | inr e ↦ elim nothing [
          | inl z ↦ absurd (false≢true (sym e ∙ ap (λ (z : ℤ). z ==ℤ pos 0) z))
          | inr z ↦ none_counted (len - 1) e z
        ]
      ])
    where
      one_more : len ≡ suc (len - 1)
      one_more = omega (arith, some_wanted)
