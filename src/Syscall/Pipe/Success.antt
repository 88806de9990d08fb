-- ===== src/Syscall/Pipe/Success.antt =====
-- do_pipe, where two descriptors are left.
use cs170lab.Prelude.{
  ℕ, ◌+◌, ◌<◌, ◌≤◌, ◌≡◌, ◌∙◌, ◌≢◌, inl, inr, false, Option, none, some, arith, ==_refl, ==_ne,
  Bool-cases, ◌==◌,
}
use cs170lab.Prelude.Int.{pos, pos_add}
use cs170lab.Structs.{Ptr, Fd, Pcb, memory_size}
use cs170lab.Env.{Env}
use cs170lab.Kernel.{Kernel, exited}
use cs170lab.Syscall.Return.{finished}
use cs170lab.Syscall.Dup.{find_fd}
use cs170lab.Syscall.Dup.Find.{OpenAt, Table, First, find_fd-First}
use cs170lab.Syscall.Pipe.{pipe_second, pipe_first, do_pipe}
use cs170lab.Syscall.Pipe.Create.{
  claimed, claimed-Table, first_claims, do_pipe-First, connected, connect-connected,
}

-- What a successful call returns: the two lowest numbers, and the kernel.
abbrev pub Made : Env → Kernel → Ptr → Pcb → ℕ → Type 0
Made env h p c x =
    (r : ℕ) × (w : ℕ) × (fr : Fd) × (fw : Fd) × First h c.fd 0 64 (some r)
    × First (claimed (c.fd r) fr h) c.fd 0 64 (some w)
    × (c.fd r ≢ c.fd w)
    × (h.fds (c.fd r) ≡ some fr)
    × (h.fds (c.fd w) ≡ some fw)
    × (do_pipe env p h
        ≡ exited (
            finished p (pos 0) c
              (connected env h.next r w (c.fd r) (c.fd w) fr fw x (claimed (c.fd r) fr h))))

module _ (env : Env) (h : Kernel) (p : Ptr) (c : Pcb) (a : ℕ) (at : h.pcbs p ≡ some c)
    (table : Table h c.fd 0 64) (arg : c.my_registers 5 ≡ pos a)
    (inside : a + c.base + 8 ≤ memory_size) where
  -- A number that the second search finds not open has another descriptor than `r`.
  apart_from :
      (r w : ℕ) (fr : Fd)
      → OpenAt (claimed (c.fd r) fr h) (c.fd w) false
      → (c.fd r ≢ c.fd w) × OpenAt h (c.fd w) false
  apart_from r w fr (g, e, shut) = elim (Bool-cases (c.fd r == c.fd w)) [
    | inl hit ↦ ground (arith, hit)
    | inr miss ↦ (ground (arith, miss), (g, rw miss at e, shut))
  ]

  -- With two numbers left whose descriptors differ, the call returns 0. The lowest number that was not
  -- open reads from a new pipe, and the lowest one left then writes to it: the pipe counts one of
  -- each, is empty, and has fresh semaphores. The two numbers are stored at the address in register 5,
  -- and nothing else changes.
  pub do_pipe-connected :
      (i j : ℕ)
      → i < 64
      → j < 64
      → OpenAt h (c.fd i) false
      → OpenAt h (c.fd j) false
      → c.fd i ≢ c.fd j
      → Made env h p c (a + c.base)
  unfolding pipe_second
  do_pipe-connected i j li lj (f, ef, shut) (g, eg, shut') differ =
      found (do_pipe-First env h p c at table)
    where
      second :
          (r : ℕ) (fr : Fd)
          → h.fds (c.fd r) ≡ some fr
          → fr.is_open ≡ false
          → First h c.fd 0 64 (some r)
          → do_pipe env p h ≡ find_fd 64 0 c.fd (pipe_second env p h.next r) (claimed (c.fd r) fr h)
          → (s : Option ℕ) × (find_fd 64 0 c.fd (pipe_second env p h.next r) (claimed (c.fd r) fr h)
              ≡ pipe_second env p h.next r s (claimed (c.fd r) fr h))
            × First (claimed (c.fd r) fr h) c.fd 0 64 s
          → Made env h p c (a + c.base)
      second r fr er low first start (none, run, full) =
          let (g1, e1, o1) = full i (omega arith) li in
          let (g2, e2, o2) = full j (omega arith) lj in ground arith
      second r fr er low first start (some w, run, next) =
          let (apart, (fw, ew, free)) = apart_from r w fr next.2 in
          (
            r,
            w,
            fr,
            fw,
            first,
            next,
            apart,
            er,
            ew,
            start
                ∙ run
                ∙ connect-connected env h.next p c r w (a + c.base) fr fw (claimed (c.fd r) fr h) at
                    apart (rw (==_refl (c.fd r))) (rw (==_ne (c.fd r) (c.fd w) apart) ew)
                    (rw (arg, pos_add a c.base)) inside,
          )

      found :
          (r : Option ℕ) × (do_pipe env p h
              ≡ pipe_first env p h.next r (record h { next = h.next + 1 }))
            × First h c.fd 0 64 r
          → Made env h p c (a + c.base)
      found (none, run, full) = let (g1, e1, o1) = full i (omega arith) li in ground arith
      found (some r, run, first) =
          let (fr, er, low) = first.2 in
          second r fr er low first (run ∙ first_claims env h p c at table r fr er) (
            find_fd-First (claimed (c.fd r) fr h) c.fd (pipe_second env p h.next r) 64 0
              (claimed-Table env h p c at table r fr er))
