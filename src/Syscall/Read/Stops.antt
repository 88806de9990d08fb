-- ===== src/Syscall/Read/Stops.antt =====
-- do_read of a pipe with a byte 255 in it.
use cs170lab.Prelude.{
  ℕ, suc, ◌+◌, ◌-◌, ◌<◌, ◌≤◌, ◌≡◌, fun_ext, ap, ◌∙◌, ◌≢◌, false, arith, ==_refl, update, lt→ltb,
}
use cs170lab.Prelude.Int.{pos, ◌==ℤ◌}
use native.Mathlib.Nat.{add-zero, zero-add}
use cs170lab.Structs.{Ptr, Fd, Pipe, Pcb, pipe_size}
use cs170lab.Env.{Env}
use cs170lab.Kernel.{Kernel, exited}
use cs170lab.Sem.Drive.{drive}
use cs170lab.Syscall.Return.{finished, syscall_return-finished}
use cs170lab.Syscall.Write.Pipe.{moved}
use cs170lab.Syscall.Read.{read_pipe_loop, do_read}
use cs170lab.Syscall.Read.Pipe.{read_from, CanRead, read_pipe_loop-read}
use cs170lab.Syscall.Read.Transfer.{Reads, do_read-read_pipe, loop_starts, taken, sems-moved}

-- A byte more than `m` is taken.
one_more :
    (f : Ptr → ℕ) (n s : Ptr) (m : ℕ)
    → n ≢ s
    → (let g = update (moved m n s f) n (moved m n s f n - 1) in update g s (g s + 1))
      ≡ moved (m + 1) n s f
one_more f n s m apart = fun_ext λ i. ground (arith, apart)

left :
    (f : Ptr → ℕ) (r n s : Ptr) (m : ℕ)
    → r ≢ n
    → n ≢ s
    → m + 1 ≤ f n
    → moved m n s (update f r (f r - 1)) n ≡ suc (moved m n s (update f r (f r - 1)) n - 1)
left f r n s m rn ns there = ground (arith, rn, ns, there)

module _ (env : Env) (h : Kernel) (p : Ptr) (c : Pcb) (n : ℕ) (f : Fd) (q : Pipe) (a len : ℕ)
    (r : Reads h p c n f q a len) (m : ℕ) (more : m < len)
    (can : CanRead m 0 (a + c.base) q.read_head f.my_pipe q (taken env h p c n f q a len r))
    (counted : (pos m ==ℤ q.writer_in_use) ≡ false) (there : m + 1 ≤ h.sems q.nelement)
    (inside : q.read_head + m < pipe_size) (minus_one : q.buffer (q.read_head + m) ≡ 255) where
  -- The kernel at the end: the semaphores tell of one byte more than the head.
  abbrev pub cut : Kernel
  cut = record (read_from m (a + c.base) q.read_head f.my_pipe q h) {
    sems = moved (m + 1) q.nelement q.space_available h.sems;
  }

  sems-cut :
      (let g = moved m q.nelement q.space_available (update h.sems q.read (h.sems q.read - 1)) in
        let s = update g q.nelement (g q.nelement - 1) in
        let t = update s q.space_available (s q.space_available + 1) in
        update t q.read (t q.read + 1))
      ≡ moved (m + 1) q.nelement q.space_available h.sems
  sems-cut =
      ap (λ (t : Ptr → ℕ). update t q.read (t q.read + 1))
        (one_more (update h.sems q.read (h.sems q.read - 1)) q.nelement q.space_available m
          can.apart)
      ∙ sems-moved env h p c n f q a len r (m + 1)

  stops :
      (l : ℕ)
      → drive env (
          read_pipe_loop env
            (suc l)
            m
            (pos (a + c.base))
            (q.read_head + m)
            f.my_pipe
            p
            (read_from m (a + c.base) q.read_head f.my_pipe q (taken env h p c n f q a len r)))
        ≡ exited (finished p (pos m) c cut)
  unfolding read_pipe_loop drive
  stops l =
      rw
        (
          ==_refl f.my_pipe,
          can.writer,
          counted,
          env.kt.p-suc
              (moved m q.nelement q.space_available (update h.sems q.read (h.sems q.read - 1)))
              q.nelement _
              (left h.sems q.read q.nelement q.space_available m r.read_nelement can.apart there),
          ==_refl f.my_pipe,
          lt→ltb (q.read_head + m) pipe_size inside,
          minus_one,
          env.kt.v_lem,
          env.kt.v_lem,
          sems-cut,
        )
        (ap (drive env) (syscall_return-finished env p (pos m) c _ r.at))

  -- Where the byte behind the first `m` that the pipe holds is 255, and is counted and within the buffer, the first
  -- `m` are not 255, a writer is counted, no other thread reads, and more than `m` are wanted: the call ends and
  -- returns `m`, with the first `m` bytes in memory. The head stands at the byte 255, so that it stays, but
  -- `nelement` is lowered and `space_available` raised by `m + 1`.
  pub do_read-stops : drive env (do_read env p h) ≡ exited (finished p (pos m) c cut)
  do_read-stops =
      ap (drive env) (do_read-read_pipe env h p c n f q a len r)
      ∙ loop_starts env h p c n f q a len r
      ∙ ap
          (λ l. drive env (
            read_pipe_loop env l 0 (pos (a + c.base)) q.read_head f.my_pipe p
              (taken env h p c n f q a len r)))
          rounds
      ∙ read_pipe_loop-read env f.my_pipe p m (suc (len - m - 1)) 0 (a + c.base) q.read_head q
          (taken env h p c n f q a len r) can
      ∙ rw (add-zero (a + c.base), zero-add m) (stops (len - m - 1))
    where
      rounds : len ≡ suc (len - m - 1) + m
      rounds = omega (arith, more)
