-- ===== src/Trap/Prints.antt =====
-- do_write of syscall.c on the console, with the interrupts that tell that a character is out.
use cs170lab.Prelude.{
  ℕ, zero, suc, ◌+◌, ◌-◌, ◌<◌, ◌≤◌, ◌≡◌, fun_ext, refl, not, ◌&&◌, ==_ne, ap, ◌∙◌, ◌≢◌, ◌⊎◌, inl,
  inr, false, true, none, some, arith, List, [], ◌∷◌, ◌++◌, ◌==◌, ==_refl, update, if◌then◌else◌,
}
use mathlib.Core.List.{append_assoc, append-nil}
use cs170lab.Prelude.Int.{pos, ◌==ℤ◌, pos_add}
use cs170lab.Structs.{Ptr, Mem, Fd, Pcb, memory_size}
use cs170lab.Env.{Env}
use cs170lab.Kernel.{Kernel, Run, exited, waits, stopped, fault, spins, Cmd}
use cs170lab.Memory.Bounds.{in_memory-pos}
use cs170lab.Sem.{v_kt_sem}
use cs170lab.Syscall.{valid_address, syscall_return}
use cs170lab.Syscall.Return.{finished, bad_fd-small, syscall_return-finished}
use cs170lab.Syscall.Write.{write_console_loop, write_console, do_write}
use cs170lab.Syscall.Write.Transfer.{check_range-inside}
use cs170lab.Trap.{signal, console_write}

-- The `n` bytes of the memory from `x` on.
abbrev pub block : ℕ → ℕ → Mem → List ℕ
block zero x m = []
block (suc n) x m = m (pos x) ∷ block n (x + 1) m

module _ (env : Env) where
  -- A thread that runs while the console tells of each character that it is out: where the thread waits for that,
  -- the interrupt comes; each other `P_kt_sem` goes on while the semaphore lets it.
  unfoldable pub attend : Run → Run
  attend (exited h) = exited h
  attend (waits s h k) =
      let now = if s == h.writeok then (signal env console_write h).sems else h.sems in
      elim (env.kt.p now s) [
        | none ↦ waits s (record h { sems = now }) k
        | some f ↦ attend (k (record h { sems = f }))
      ]
  attend (stopped h) = stopped h
  attend fault = fault
  attend spins = spins

-- The kernel after `n` bytes from the address `x` on went to the console.
abbrev pub printed : ℕ → ℕ → Kernel → Kernel
printed n x h = record h { written = h.written ++ block n x h.main_memory }

-- A call of `write` on the console by number 1 or 2, with `len` bytes at the user's address `a`, while no other
-- thread writes to it.
pub record Prints (h : Kernel) (p : Ptr) (c : Pcb) (n : ℕ) (f : Fd) (a len : ℕ) : Type 0 where
  pub at : h.pcbs p ≡ some c
  pub valid : valid_address c ≡ true
  pub arg : c.my_registers 5 ≡ pos n
  pub number : (n ≡ 1) ⊎ (n ≡ 2)
  pub is : h.fds (c.fd n) ≡ some f
  pub opened : f.is_open ≡ true
  pub writing : f.is_read ≡ false
  pub console : f.console ≡ true
  pub from : c.my_registers 6 ≡ pos a
  pub size : c.my_registers 7 ≡ pos len
  pub fits : a + len ≤ memory_size
  pub target : a + c.base + len ≤ memory_size
  pub idle : 1 ≤ h.sems h.writers
  pub apart : h.writers ≢ h.writeok

module _ (env : Env) where
  -- The semaphore is raised by the interrupt and lowered by the thread.
  balanced : (f : Ptr → ℕ) (s : Ptr) → update (update f s (f s + 1)) s (f s) ≡ f
  balanced f s = fun_ext λ i. ground arith

  raised : (f : Ptr → ℕ) (s : Ptr) → update f s (f s + 1) s ≡ suc (f s)
  raised f s = ground arith

  loop_step :
      (n x : ℕ) (h : Kernel) (k : Unit {0} → Cmd)
      → x < memory_size
      → attend env (write_console_loop (suc n) (pos x) k h)
        ≡ attend env (
            write_console_loop n
              (pos (x + 1))
              k
              (record h { written = h.written ++ h.main_memory (pos x) ∷ [] }))
  unfolding write_console_loop attend
  loop_step n x h k small = rw (
    in_memory-pos x small,
    ==_refl h.writeok,
    env.kt.v_lem,
    env.kt.p-suc (update h.sems h.writeok (h.sems h.writeok + 1)) h.writeok (h.sems h.writeok)
        (raised h.sems h.writeok),
    balanced h.sems h.writeok,
    pos_add x 1,
  )

  write_console_loop-printed :
      (n x : ℕ) (h : Kernel) (k : Unit {0} → Cmd)
      → x + n ≤ memory_size
      → attend env (write_console_loop n (pos x) k h) ≡ attend env (k tt (printed n x h))
  unfolding write_console_loop
  write_console_loop-printed zero x h k fits = rw (append-nil h.written) refl
  write_console_loop-printed (suc n) x h k fits =
      loop_step n x h k (omega (arith, fits))
      ∙ write_console_loop-printed n (x + 1)
          (record h { written = h.written ++ h.main_memory (pos x) ∷ [] }) k (omega (arith, fits))
      ∙ rw (append_assoc h.written (h.main_memory (pos x) ∷ []) (block n (x + 1) h.main_memory))
          refl

module _ (env : Env) (h : Kernel) (p : Ptr) (c : Pcb) (n : ℕ) (f : Fd) (a len : ℕ)
    (r : Prints h p c n f a len) where
  small : n < 64
  small = elim r.number [ inl e ↦ rw e (omega arith) | inr e ↦ rw e (omega arith) ]

  do_write-write_console : do_write env p h ≡ write_console env p c.my_registers c.base h
  unfolding do_write
  do_write-write_console =
      rw (r.at, r.valid, r.arg, bad_fd-small n small, r.is, r.opened, r.writing, r.console)

  numbered : (not (pos n ==ℤ pos 1) && not (pos n ==ℤ pos 2)) ≡ false
  numbered = elim r.number [ inl e ↦ rw e refl | inr e ↦ rw e refl ]

  abbrev taken : Kernel
  taken = record h { sems = update h.sems h.writers (h.sems h.writers - 1) }

  loop_starts :
      attend env (write_console env p c.my_registers c.base h)
      ≡ attend env (
          write_console_loop len
            (pos (a + c.base))
            (λ _ g. v_kt_sem env g.writers (λ _. syscall_return env p (pos len)) g)
            taken)
  unfolding write_console attend
  loop_starts = rw (
    r.arg,
    numbered,
    check_range-inside env p c.my_registers _ h a len r.from r.size r.fits,
    r.apart,
    ==_ne h.writers h.writeok r.apart,
    env.kt.p-suc h.sems h.writers (h.sems h.writers - 1) (omega (arith, r.idle)),
    r.from,
    r.size,
    pos_add a c.base,
  )

  sems_back :
      (let s = update h.sems h.writers (h.sems h.writers - 1) in
        update s h.writers (s h.writers + 1))
      ≡ h.sems
  sems_back = fun_ext λ i. ground (arith, r.idle)

  write_ends :
      attend env (
        v_kt_sem env h.writers
          (λ _. syscall_return env p (pos len))
          (printed len (a + c.base) taken))
      ≡ exited (finished p (pos len) c (printed len (a + c.base) h))
  unfolding attend v_kt_sem
  write_ends =
      rw (env.kt.v_lem, sems_back)
        (ap (attend env) (syscall_return-finished env p (pos len) c _ r.at))

  -- write to the console by number 1 or 2, while no other thread writes to it and the console tells of each character
  -- that it is out: the call ends and returns `len`, the bytes at the user's address went to the console, in order,
  -- behind what was there, and nothing else changes but the process and the ready queue.
  pub do_write-printed :
      attend env (do_write env p h) ≡ exited (finished p (pos len) c (printed len (a + c.base) h))
  do_write-printed =
      ap (attend env) do_write-write_console
      ∙ loop_starts
      ∙ write_console_loop-printed env len (a + c.base) taken _ (r.target)
      ∙ write_ends
