-- ===== src/Syscall/Dup/Share.antt =====
-- do_dup: which number it hands out, and what it shares.
use cs170lab.Prelude.{
  ℕ, ◌+◌, ◌<◌, ◌≡◌, ◌∙◌, true, false, Option, none, some, arith, ==_refl, update,
}
use cs170lab.Prelude.Int.{pos}
use cs170lab.Structs.{Ptr, Fd, Pipe, Pcb}
use cs170lab.Env.{Env}
use cs170lab.Kernel.{Kernel, Cmd, exited, fault}
use cs170lab.Syscall.{syscall_return}
use cs170lab.Syscall.Errno.{ebadf}
use cs170lab.Syscall.Return.{finished, bad_fd-small, syscall_return-finished}
use cs170lab.Syscall.Fork.{add_reference}
use cs170lab.Syscall.Dup.{find_fd, share_fd, dup_to, do_dup}
use cs170lab.Syscall.Dup.Find.{OpenAt, Table, First, find_fd-First}

-- The kernel in which number `new` of the process shares the descriptor `f` at `a`.
abbrev pub shared : Ptr → Ptr → ℕ → Pcb → Fd → Pipe → Kernel → Kernel
shared p a new c f q h = record h {
  pcbs = update h.pcbs p (some (record c { fd = update c.fd new a }));
  fds = update h.fds a (some (record f { reference_count = f.reference_count + 1 }));
  pipes = update h.pipes f.my_pipe (some (add_reference f q));
}

module _ (h : Kernel) (p a : Ptr) (c : Pcb) (f : Fd) (at : h.pcbs p ≡ some c)
    (is : h.fds a ≡ some f) (k : Unit {0} → Cmd) where
  pub share_fd-shared :
      (new : ℕ) (q : Pipe)
      → h.pipes f.my_pipe ≡ some q
      → share_fd p a new k h ≡ k tt (shared p a new c f q h)
  unfolding share_fd
  share_fd-shared new q e = rw (is, at, ==_refl a, e)

  -- With no pipe behind the descriptor the kernel follows a bad pointer.
  pub share_fd-fault : (new : ℕ) → h.pipes f.my_pipe ≡ none → share_fd p a new k h ≡ fault
  unfolding share_fd
  share_fd-fault new e = rw (is, at, ==_refl a, e)

-- A call of `dup` on the number `old`, whose descriptor `f` is open.
pub record Dups (h : Kernel) (p : Ptr) (c : Pcb) (old : ℕ) (f : Fd) : Type 0 where
  pub at : h.pcbs p ≡ some c
  pub arg : c.my_registers 5 ≡ pos old
  pub small : old < 64
  pub is : h.fds (c.fd old) ≡ some f
  pub opened : f.is_open ≡ true
  pub table : Table h c.fd 0 64

module _ (env : Env) (h : Kernel) (p : Ptr) (c : Pcb) where
  dup_to-shared :
      (a : Ptr) (f : Fd) (q : Pipe) (new : ℕ)
      → h.pcbs p ≡ some c
      → h.fds a ≡ some f
      → h.pipes f.my_pipe ≡ some q
      → dup_to env p a (some new) h
        ≡ exited
            (finished p (pos new) (record c { fd = update c.fd new a }) (shared p a new c f q h))
  unfolding dup_to
  dup_to-shared a f q new at is e =
      share_fd-shared h p a c f at is (λ _. syscall_return env p (pos new)) new q e
      ∙ syscall_return-finished env p (pos new) (record c { fd = update c.fd new a })
          (shared p a new c f q h) (rw (==_refl p))

module _ (env : Env) (h : Kernel) (p : Ptr) (c : Pcb) (old : ℕ) (f : Fd)
    (d : Dups h p c old f) where
  do_dup-search : do_dup env p h ≡ find_fd 64 0 c.fd (dup_to env p (c.fd old)) h
  unfolding do_dup
  do_dup-search = rw (d.at, d.arg, bad_fd-small old d.small, d.is, d.opened)

  -- What the search leads to.
  do_dup-First :
      (r : Option ℕ) × First h c.fd 0 64 r × (do_dup env p h ≡ dup_to env p (c.fd old) r h)
  do_dup-First =
      let (r, run, first) = find_fd-First h c.fd (dup_to env p (c.fd old)) 64 0 d.table in
      (r, first, do_dup-search ∙ run)

  -- dup of an open descriptor of a pipe, while some number is not open: the call returns the lowest
  -- such number, which from then on shares the descriptor. The pipe counts one more reference for
  -- that end, and nothing else changes.
  pub do_dup-shared :
      (q : Pipe) (j : ℕ)
      → h.pipes f.my_pipe ≡ some q
      → j < 64
      → OpenAt h (c.fd j) false
      → (new : ℕ) × First h c.fd 0 64 (some new)
        × (do_dup env p h
            ≡ exited (
                finished p
                  (pos new)
                  (record c { fd = update c.fd new (c.fd old) })
                  (shared p (c.fd old) new c f q h)))
  do_dup-shared q j e small (g, eg, closed) = found do_dup-First
    where
      found :
          (r : Option ℕ) × First h c.fd 0 64 r × (do_dup env p h ≡ dup_to env p (c.fd old) r h)
          → (new : ℕ) × First h c.fd 0 64 (some new)
            × (do_dup env p h
                ≡ exited (
                    finished p
                      (pos new)
                      (record c { fd = update c.fd new (c.fd old) })
                      (shared p (c.fd old) new c f q h)))
      found (none, full, run) = let (g', eg', opened) = full j (omega arith) small in ground arith
      found (some new, first, run) =
          (new, first, run ∙ dup_to-shared env h p c (c.fd old) f q new d.at d.is e)

  -- dup of an open descriptor with no pipe behind it, as the console's are, while some number is not
  -- open: the kernel writes through a bad pointer.
  pub do_dup-fault :
      (j : ℕ) → h.pipes f.my_pipe ≡ none → j < 64 → OpenAt h (c.fd j) false → do_dup env p h ≡ fault
  unfolding dup_to
  do_dup-fault j e small (g, eg, closed) = found do_dup-First
    where
      found :
          (r : Option ℕ) × First h c.fd 0 64 r × (do_dup env p h ≡ dup_to env p (c.fd old) r h)
          → do_dup env p h ≡ fault
      found (none, full, run) = let (g', eg', opened) = full j (omega arith) small in ground arith
      found (some new, first, run) =
          run
          ∙ share_fd-fault h p (c.fd old) c f d.at d.is (λ _. syscall_return env p (pos new)) new e

  -- With all 64 numbers open dup returns -EBADF, and nothing else changes.
  pub do_dup-full :
      ((j : ℕ) → j < 64 → OpenAt h (c.fd j) true) → do_dup env p h ≡ exited (finished p ebadf c h)
  unfolding dup_to
  do_dup-full full = found do_dup-First
    where
      found :
          (r : Option ℕ) × First h c.fd 0 64 r × (do_dup env p h ≡ dup_to env p (c.fd old) r h)
          → do_dup env p h ≡ exited (finished p ebadf c h)
      found (none, all, run) = run ∙ syscall_return-finished env p ebadf c h d.at
      found (some new, (low, small, (g, eg, closed), before), run) =
          let (g', eg', opened) = full new small in ground arith
