-- ===== src/Memory.antt =====
-- Words, strings and blocks of `main_memory`, as the calls of syscall.c read and write them.
pub mod Bounds
pub mod Words
use cs170lab.Prelude.{
  ℕ, zero, suc, ◌+◌, ◌-◌, ◌*◌, ◌%◌, ◌^◌, ◌&&◌, List, [], ◌∷◌, ltb, leb, ◌==◌, if◌then◌else◌,
}
use cs170lab.Prelude.Int.{ℤ, pos, negsuc, sub_ℕ, ◌+ℤ◌}
use cs170lab.Structs.{Mem, memory_size}
use cs170lab.Kernel.{M, fault, spins, ◌>>=◌, ◌>>◌, load_byte, store_byte}
use Prim.Native.Nat.{◌/◌}

-- The `int` whose 32 bits are those of `w`.
abbrev pub int_of_word : ℕ → ℤ
int_of_word w = if ltb w (2 ^ 31) then pos w else sub_ℕ w (2 ^ 32)

-- `*(int *)a`, with the low byte first.
unfoldable pub load_word : ℤ → M ℤ
load_word a k = do
  b0 ← load_byte a
  b1 ← load_byte (a +ℤ pos 1)
  b2 ← load_byte (a +ℤ pos 2)
  b3 ← load_byte (a +ℤ pos 3)
  k (int_of_word (b0 + 2 ^ 8 * b1 + 2 ^ 16 * b2 + 2 ^ 24 * b3))

-- `memcpy(a, &w, 4)` of an `int` that is not negative.
unfoldable pub store_word : ℤ → ℕ → M (Unit {0})
store_word a w k = do
  store_byte a (w % 2 ^ 8)
  store_byte (a +ℤ pos 1) (w / 2 ^ 8 % 2 ^ 8)
  store_byte (a +ℤ pos 2) (w / 2 ^ 16 % 2 ^ 8)
  store_byte (a +ℤ pos 3) (w / 2 ^ 24 % 2 ^ 8)
  k tt

-- The bytes from `a` up to the next zero: what `strdup(a)` copies.
unfoldable pub load_string : ℕ → ℤ → M (List ℕ)
load_string zero a k = λ h. spins
load_string (suc fuel) a k =
    load_byte a λ b.
      let rest = load_string fuel (a +ℤ pos 1) (λ s. k (b ∷ s)) in if b == 0 then k [] else rest

-- A string that ends inside the memory is shorter than it.
abbrev pub strdup : ℤ → M (List ℕ)
strdup = load_string (memory_size + 1)

-- `memcpy(main_memory + dst, main_memory + src, n)`, and `memset(main_memory + dst, 0, n)`.
unfoldable pub copied : ℕ → ℕ → ℕ → Mem → Mem
copied dst src n m (pos a) =
    if leb dst a && ltb a (dst + n) then m (pos (src + (a - dst))) else m (pos a)
copied dst src n m (negsuc a) = m (negsuc a)

unfoldable pub cleared : ℕ → ℕ → Mem → Mem
cleared dst n m (pos a) = if leb dst a && ltb a (dst + n) then 0 else m (pos a)
cleared dst n m (negsuc a) = m (negsuc a)

abbrev pub copy_block : ℕ → ℕ → ℕ → M (Unit {0})
copy_block dst src n k h =
    if leb (dst + n) memory_size && leb (src + n) memory_size
    then k tt (record h { main_memory = copied dst src n h.main_memory })
    else fault

abbrev pub clear_block : ℕ → ℕ → M (Unit {0})
clear_block dst n k h =
    if leb (dst + n) memory_size
    then k tt (record h { main_memory = cleared dst n h.main_memory })
    else fault
