-- ===== src/Syscall/Return.antt =====
-- What a call leaves behind: the process is at the end of the ready queue with its result.
use cs170lab.Prelude.{
  ap, update-update, ℕ, ◌<◌, ◌≤◌, true, false, arith, ◌≡◌, some, [], ◌∷◌, ◌++◌, update,
}
use cs170lab.Prelude.Int.{ℤ, pos, negsuc}
use cs170lab.Structs.{Ptr, Pcb}
use cs170lab.Env.{Env}
use cs170lab.Kernel.{Kernel, exited, put_pcb}
use cs170lab.Syscall.{bad_fd, returned, syscall_return}

-- The kernel after `syscall_return(p, value)`, where `c` is the structure at `p`.
abbrev pub finished : Ptr → ℤ → Pcb → Kernel → Kernel
finished p value c h = record h {
  pcbs = update h.pcbs p (some (returned value c));
  readyq = h.readyq ++ p ∷ [];
}

module _ (env : Env) where
  pub syscall_return-finished :
      (p : Ptr) (value : ℤ) (c : Pcb) (h : Kernel)
      → h.pcbs p ≡ some c
      → syscall_return env p value h ≡ exited (finished p value c h)
  unfolding syscall_return
  syscall_return-finished p value c h e = rw (e, env.dll.append_lem h.readyq p)

pub bad_fd-small : (n : ℕ) → n < 64 → bad_fd (pos n) ≡ false
unfolding bad_fd
bad_fd-small n h = ground arith

pub bad_fd-large : (n : ℕ) → 64 ≤ n → bad_fd (pos n) ≡ true
unfolding bad_fd
bad_fd-large n h = ground arith

pub bad_fd-negsuc : (n : ℕ) → bad_fd (negsuc n) ≡ true
unfolding bad_fd
bad_fd-negsuc n = ground arith

-- A store to the process before the return is overwritten by it.
pub finished-put_pcb :
    (p : Ptr) (value : ℤ) (c d : Pcb) (h : Kernel)
    → finished p value c (put_pcb p d h) ≡ finished p value c h
finished-put_pcb p value c d h =
    ap (λ pcbs. record h { pcbs = pcbs; readyq = h.readyq ++ p ∷ [] })
      (update-update h.pcbs p (some d) (some (returned value c)))
