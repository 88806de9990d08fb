-- ===== src/Syscall/Sbrk/Grow.antt =====
-- Where do_sbrk lets the break go.
use cs170lab.Prelude.{
  ℕ, ◌+◌, ◌-◌, ◌^◌, ◌⊎◌, inl, inr, ◌<◌, ◌≤◌, ◌≡◌, ap, ◌∙◌, true, false, some, arith, ==_refl,
}
use cs170lab.Prelude.Int.{ℤ, pos, negsuc, ltb_ℤ, add_int, add_int-pos}
use native.Mathlib.Decide.{dec_le}
use cs170lab.Structs.{Ptr, Pcb}
use cs170lab.Env.{Env}
use cs170lab.Kernel.{Kernel, exited, put_pcb}
use cs170lab.Syscall.{valid_address}
use cs170lab.Syscall.Errno.{enomem}
use cs170lab.Syscall.Return.{finished, finished-put_pcb, syscall_return-finished}
use cs170lab.Syscall.Sbrk.{do_sbrk}

-- A call of `sbrk` at the break `b`, to move it by `n`.
pub record Moves (h : Kernel) (p : Ptr) (c : Pcb) (b n : ℕ) : Type 0 where
  pub at : h.pcbs p ≡ some c
  pub valid : valid_address c ≡ true
  pub break : c.sbrk_ptr ≡ pos b
  pub arg : c.my_registers 5 ≡ pos n

add_int-wraps :
    (b n : ℕ)
    → b < 2 ^ 31
    → n < 2 ^ 31
    → 2 ^ 31 ≤ b + n
    → add_int (pos b) (pos n) ≡ negsuc (2 ^ 32 - (b + n) - 1)
unfolding add_int
add_int-wraps b n small small' large = ground arith

module _ (env : Env) (h : Kernel) (p : Ptr) (c : Pcb) (at : h.pcbs p ≡ some c)
    (valid : valid_address c ≡ true) (s : ℤ) (sum : add_int c.sbrk_ptr (c.my_registers 5) ≡ s) where
  accepted :
      ltb_ℤ (pos h.user_limit) s ≡ false
      → do_sbrk env p h ≡ exited (finished p c.sbrk_ptr (record c { sbrk_ptr = s }) h)
  unfolding do_sbrk
  accepted fits =
      rw (at, valid, sum, fits, at, sum)
        (syscall_return-finished env p c.sbrk_ptr (record c { sbrk_ptr = s })
            (put_pcb p (record c { sbrk_ptr = s }) h) (rw (==_refl p))
          ∙ ap exited (
              finished-put_pcb p c.sbrk_ptr (record c { sbrk_ptr = s }) (record c { sbrk_ptr = s })
                h))

  refused : ltb_ℤ (pos h.user_limit) s ≡ true → do_sbrk env p h ≡ exited (finished p enomem c h)
  unfolding do_sbrk
  refused over = rw (at, valid, sum, over) (syscall_return-finished env p enomem c h at)

module _ (env : Env) (h : Kernel) (p : Ptr) (c : Pcb) (b n : ℕ) (m : Moves h p c b n) where
  -- Up to the limit sbrk returns the old break and moves it by `n`; beyond, it returns -ENOMEM. In
  -- both cases nothing else changes. The sum must be a number that an `int` holds.
  pub do_sbrk-grows :
      b + n < 2 ^ 31
      → ((b + n ≤ h.user_limit)
          × (do_sbrk env p h ≡ exited (finished p (pos b) (record c { sbrk_ptr = pos (b + n) }) h)))
        ⊎ ((h.user_limit < b + n) × (do_sbrk env p h ≡ exited (finished p enomem c h)))
  do_sbrk-grows small = elim (dec_le (b + n) h.user_limit) [
    | yes fits ↦ inl (
      fits,
      accepted env h p c m.at m.valid (pos (b + n)) sum (ground arith)
          ∙ ap (λ v. exited (finished p v (record c { sbrk_ptr = pos (b + n) }) h)) m.break,
    )
    | no over ↦ inr (omega arith, refused env h p c m.at m.valid (pos (b + n)) sum (ground arith))
  ]
    where
      sum : add_int c.sbrk_ptr (c.my_registers 5) ≡ pos (b + n)
      sum = rw (m.break, m.arg) (add_int-pos b n (omega (arith, small)))

  -- Where the sum is too large for an `int`, the test lets it pass, whatever the limit is: the break
  -- becomes negative.
  pub do_sbrk-wraps :
      b < 2 ^ 31
      → n < 2 ^ 31
      → 2 ^ 31 ≤ b + n
      → do_sbrk env p h
        ≡ exited (finished p (pos b) (record c { sbrk_ptr = negsuc (2 ^ 32 - (b + n) - 1) }) h)
  do_sbrk-wraps small small' large =
      accepted env h p c m.at m.valid (negsuc (2 ^ 32 - (b + n) - 1)) sum (ground arith)
      ∙ ap (λ v. exited (finished p v (record c { sbrk_ptr = negsuc (2 ^ 32 - (b + n) - 1) }) h))
          m.break
    where
      sum : add_int c.sbrk_ptr (c.my_registers 5) ≡ negsuc (2 ^ 32 - (b + n) - 1)
      sum = rw (m.break, m.arg) (add_int-wraps b n small small' large)
