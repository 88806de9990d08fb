-- ===== src/Syscall/Refuse.antt =====
-- Descriptors that read, write and close do not take.
use cs170lab.Prelude.{◌≡◌, ◌⊎◌, inl, inr, true, false, some, Bool-cases}
use cs170lab.Prelude.Int.{pos_part}
use cs170lab.Structs.{Ptr, Fd, Pcb}
use cs170lab.Env.{Env}
use cs170lab.Kernel.{Kernel, exited}
use cs170lab.Syscall.{bad_fd, valid_address}
use cs170lab.Syscall.Errno.{ebadf}
use cs170lab.Syscall.Return.{finished, syscall_return-finished}
use cs170lab.Syscall.Read.{do_read}
use cs170lab.Syscall.Write.{do_write}
use cs170lab.Syscall.Close.{do_close}

-- The number in register 5 is out of range, or its descriptor is `f`, of which `P` holds.
abbrev pub Unusable : Kernel → Pcb → (Fd → Type 0) → Type 0
Unusable h c P =
    (bad_fd (c.my_registers 5) ≡ true)
    ⊎ ((f : Fd) × (bad_fd (c.my_registers 5) ≡ false)
        × (h.fds (c.fd (pos_part (c.my_registers 5))) ≡ some f)
        × P f)

module _ (env : Env) (h : Kernel) (p : Ptr) (c : Pcb) (at : h.pcbs p ≡ some c) where
  module _ (valid : valid_address c ≡ true) where
    -- write to a number out of range, to a descriptor that is not open, or to one for reading returns
    -- -EBADF and changes nothing else.
    pub do_write-ebadf :
        Unusable h c (λ f. (f.is_open ≡ false) ⊎ (f.is_read ≡ true))
        → do_write env p h ≡ exited (finished p ebadf c h)
    unfolding do_write
    do_write-ebadf (inl bad) = rw (at, valid, bad) (syscall_return-finished env p ebadf c h at)
    do_write-ebadf (inr (f, ok, is, inl shut)) =
        rw (at, valid, ok, is, shut) (syscall_return-finished env p ebadf c h at)
    do_write-ebadf (inr (f, ok, is, inr reads)) = elim (Bool-cases f.is_open) [
      | inl o ↦ rw (at, valid, ok, is, o, reads) (syscall_return-finished env p ebadf c h at)
      | inr o ↦ rw (at, valid, ok, is, o) (syscall_return-finished env p ebadf c h at)
    ]

    -- read from a number out of range, from a descriptor that is not open, or from one for writing
    -- returns -EBADF and changes nothing else.
    pub do_read-ebadf :
        Unusable h c (λ f. (f.is_open ≡ false) ⊎ (f.is_read ≡ false))
        → do_read env p h ≡ exited (finished p ebadf c h)
    unfolding do_read
    do_read-ebadf (inl bad) = rw (at, valid, bad) (syscall_return-finished env p ebadf c h at)
    do_read-ebadf (inr (f, ok, is, inl shut)) =
        rw (at, valid, ok, is, shut) (syscall_return-finished env p ebadf c h at)
    do_read-ebadf (inr (f, ok, is, inr writes)) = elim (Bool-cases f.is_open) [
      | inl o ↦ rw (at, valid, ok, is, o, writes) (syscall_return-finished env p ebadf c h at)
      | inr o ↦ rw (at, valid, ok, is, o) (syscall_return-finished env p ebadf c h at)
    ]

  -- close of a number out of range or of a descriptor that is not open returns -EBADF and changes
  -- nothing else.
  pub do_close-ebadf :
      Unusable h c (λ f. f.is_open ≡ false) → do_close env p h ≡ exited (finished p ebadf c h)
  unfolding do_close
  do_close-ebadf (inl bad) = rw (at, bad) (syscall_return-finished env p ebadf c h at)
  do_close-ebadf (inr (f, ok, is, shut)) =
      rw (at, ok, is, shut) (syscall_return-finished env p ebadf c h at)
