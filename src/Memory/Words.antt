-- ===== src/Memory/Words.antt =====
-- The four bytes of an `int` in memory.
use Prim.Native.Nat.{◌/◌}
use cs170lab.Prelude.{ℕ, ◌+◌, ◌*◌, ◌%◌, ◌^◌, ◌≤◌, ◌≡◌, arith}
use cs170lab.Prelude.Int.{ℤ, pos, update_at, pos_add}
use cs170lab.Structs.{Mem, memory_size}
use cs170lab.Kernel.{Kernel, Cmd}
use cs170lab.Memory.{load_word, store_word, int_of_word}
use cs170lab.Memory.Bounds.{in_memory-pos}

-- The memory with the four bytes of `w` from `x` on.
abbrev pub with_word : ℕ → ℕ → Mem → Mem
with_word x w m =
    update_at
      (update_at (update_at (update_at m (pos x) (w % 2 ^ 8)) (pos (x + 1)) (w / 2 ^ 8 % 2 ^ 8))
        (pos (x + 2)) (w / 2 ^ 16 % 2 ^ 8))
      (pos (x + 3)) (w / 2 ^ 24 % 2 ^ 8)

-- The four bytes from `x` on.
abbrev pub word_of : ℕ → Mem → ℕ
word_of x m =
    m (pos x) + 2 ^ 8 * m (pos (x + 1)) + 2 ^ 16 * m (pos (x + 2)) + 2 ^ 24 * m (pos (x + 3))

module _ (x : ℕ) (inside : x + 4 ≤ memory_size) where
  pub store_word-with_word :
      (w : ℕ) (k : Unit {0} → Cmd) (h : Kernel)
      → store_word (pos x) w k h ≡ k tt (record h { main_memory = with_word x w h.main_memory })
  unfolding store_word
  store_word-with_word w k h = rw (
    in_memory-pos x (omega (arith, inside)),
    pos_add x 1,
    in_memory-pos (x + 1) (omega (arith, inside)),
    pos_add x 2,
    in_memory-pos (x + 2) (omega (arith, inside)),
    pos_add x 3,
    in_memory-pos (x + 3) (omega (arith, inside)),
  )

  pub load_word-word_of :
      (k : ℤ → Cmd) (h : Kernel)
      → load_word (pos x) k h ≡ k (int_of_word (word_of x h.main_memory)) h
  unfolding load_word
  load_word-word_of k h = rw (
    in_memory-pos x (omega (arith, inside)),
    pos_add x 1,
    in_memory-pos (x + 1) (omega (arith, inside)),
    pos_add x 2,
    in_memory-pos (x + 2) (omega (arith, inside)),
    pos_add x 3,
    in_memory-pos (x + 3) (omega (arith, inside)),
  )
