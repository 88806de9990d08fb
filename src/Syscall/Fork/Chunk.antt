-- ===== src/Syscall/Fork/Chunk.antt =====
-- do_fork: the chunk of memory that it takes, and what it does when there is none.
use cs170lab.Prelude.{
  ℕ, zero, suc, ◌+◌, ◌<◌, ◌≤◌, ◌≡◌, ◌≢◌, ◌⊎◌, inl, inr, refl, Option, none, some, arith, ==_ne,
  ℕ_discrete,
}
use native.Mathlib.Decide.{dec_le}
use cs170lab.Structs.{Ptr, Pcb}
use cs170lab.Env.{Env}
use cs170lab.Kernel.{Kernel, exited, put_pcb}
use cs170lab.Syscall.Errno.{eagain}
use cs170lab.Syscall.Return.{finished, syscall_return-finished}
use cs170lab.Syscall.Fork.{find_chunk, fork_found, do_fork}

-- `r` is the first of the `n` chunks from `i` on that is free; with `none` all are taken.
abbrev pub FirstFree : (ℕ → ℕ) → ℕ → ℕ → Option ℕ → Type 0
FirstFree chunk i n none = (j : ℕ) → i ≤ j → j < i + n → chunk j ≢ 0
FirstFree chunk i n (some r) =
    (i ≤ r) × (r < i + n) × (chunk r ≡ 0) × ((j : ℕ) → i ≤ j → j < r → chunk j ≢ 0)

-- One more chunk in front that is taken.
FirstFree-taken :
    (chunk : ℕ → ℕ) (i n : ℕ) (r : Option ℕ)
    → chunk i ≢ 0
    → FirstFree chunk (i + 1) n r
    → FirstFree chunk i (suc n) r
FirstFree-taken chunk i n none here rest =
    λ j p q. elim (ℕ_discrete j i) [ yes e ↦ rw e here | no e ↦ rest j (omega arith) (omega arith) ]
FirstFree-taken chunk i n (some r) here (low, high, free, before) = (
  omega arith,
  omega arith,
  free,
  λ j p q. elim (ℕ_discrete j i) [ yes e ↦ rw e here | no e ↦ before j (omega arith) q ],
)

pub find_chunk-FirstFree : (n i : ℕ) (chunk : ℕ → ℕ) → FirstFree chunk i n (find_chunk n i chunk)
unfolding find_chunk
find_chunk-FirstFree zero i chunk = λ j p q. absurd (omega arith)
find_chunk-FirstFree (suc n) i chunk = elim (ℕ_discrete (chunk i) 0) [
  | yes e ↦ rw e (omega arith, omega arith, e, λ j p q. absurd (omega arith))
  | no e ↦ rw (==_ne (chunk i) 0 e) (
      FirstFree-taken chunk i n (find_chunk n (i + 1) chunk) e
        (find_chunk-FirstFree n (i + 1) chunk))
]

pub find_chunk-least :
    (n : ℕ) (chunk : ℕ → ℕ) (i : ℕ)
    → i < n
    → chunk i ≡ 0
    → ((j : ℕ) → j < i → chunk j ≢ 0)
    → find_chunk n 0 chunk ≡ some i
find_chunk-least n chunk i small free least =
    same (find_chunk n 0 chunk) (find_chunk-FirstFree n 0 chunk)
  where
    same : (r : Option ℕ) → FirstFree chunk 0 n r → r ≡ some i
    same none all = absurd (all i (omega arith) (omega arith) free)
    same (some r) (low, high, zero_at, before) = elim (ℕ_discrete r i) [
      | yes e ↦ rw e
      | no e ↦ elim (dec_le i r) [
        | yes over ↦ absurd (before i (omega arith) (omega arith) free)
        | no under ↦ absurd (least r (omega arith) zero_at)
      ]
    ]

-- The kernel behind the `malloc` of the structure of the child.
abbrev pub with_child : Env → Kernel → Kernel
with_child env h = put_pcb h.next env.uninit_pcb (record h { next = h.next + 1 })

module _ (env : Env) (h : Kernel) (p : Ptr) (c : Pcb) (at : h.pcbs p ≡ some c)
    (new : h.next ≢ p) where
  -- fork takes the lowest chunk of memory that is free; with all eight taken it returns -EAGAIN, and
  -- of the kernel nothing else changes but that a structure for the child stays allocated.
  pub do_fork_cases :
      (((j : ℕ) → j < 8 → h.memory_chunk j ≢ 0)
        × (do_fork env p h ≡ exited (finished p eagain c (with_child env h))))
      ⊎ ((i : ℕ) × (i < 8)
          × (h.memory_chunk i ≡ 0)
          × ((j : ℕ) → j < i → h.memory_chunk j ≢ 0)
          × (do_fork env p h ≡ fork_found env p h.next (some i) (with_child env h)))
  unfolding do_fork fork_found
  do_fork_cases =
      split (find_chunk 8 0 h.memory_chunk) refl (find_chunk-FirstFree 8 0 h.memory_chunk)
    where
      split :
          (r : Option ℕ)
          → find_chunk 8 0 h.memory_chunk ≡ r
          → FirstFree h.memory_chunk 0 8 r
          → (((j : ℕ) → j < 8 → h.memory_chunk j ≢ 0)
              × (do_fork env p h ≡ exited (finished p eagain c (with_child env h))))
            ⊎ ((i : ℕ) × (i < 8)
                × (h.memory_chunk i ≡ 0)
                × ((j : ℕ) → j < i → h.memory_chunk j ≢ 0)
                × (do_fork env p h ≡ fork_found env p h.next (some i) (with_child env h)))
      split none e all = inl (
        (λ j q. all j (omega arith) (omega arith)),
        rw e (
            syscall_return-finished env p eagain c (with_child env h) (rw (==_ne h.next p new) at)),
      )
      split (some i) e (low, high, free, before) =
          inr (i, omega arith, free, (λ j q. before j (omega arith) q), rw e)
