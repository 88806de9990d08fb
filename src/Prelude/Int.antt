-- ===== src/Prelude/Int.antt =====
-- The `int` of the source: signed 32-bit numbers, as integers over the native numbers.
-- Sums and orders go through the two parts of an integer, which are numbers that `omega` reads.
use cs170lab.Prelude.{
  ℕ, suc, ◌+◌, ◌-◌, ◌%◌, ◌^◌, ◌≤◌, ◌≡◌, Bool, ◌&&◌, arith, ltb, leb, ◌==◌, if◌then◌else◌,
}

-- `negsuc n` is -(n + 1).
pub data ℤ : Type 0 where
  pos : ℕ → ℤ
  negsuc : ℕ → ℤ

abbrev pub pos_part : ℤ → ℕ
pos_part (pos n) = n
pos_part (negsuc n) = 0

abbrev pub neg_part : ℤ → ℕ
neg_part (pos n) = 0
neg_part (negsuc n) = suc n

-- a - b, as an integer.
abbrev pub sub_ℕ : ℕ → ℕ → ℤ
sub_ℕ a b = if leb b a then pos (a - b) else negsuc (b - a - 1)

infixl 65 ◌+ℤ◌
unfoldable pub ◌+ℤ◌ : ℤ → ℤ → ℤ
a +ℤ b = sub_ℕ (pos_part a + pos_part b) (neg_part a + neg_part b)

abbrev pub ltb_ℤ : ℤ → ℤ → Bool
ltb_ℤ a b = ltb (pos_part a + neg_part b) (pos_part b + neg_part a)

infix 50 ◌==ℤ◌
abbrev pub ◌==ℤ◌ : ℤ → ℤ → Bool
a ==ℤ b = (pos_part a == pos_part b) && (neg_part a == neg_part b)

-- `-n`, the way the error numbers are returned.
abbrev pub neg : ℕ → ℤ
neg n = sub_ℕ 0 n

-- The number from -2^31 to 2^31 - 1 with the same low 32 bits as `a` (for `a` above -2^32): what a
-- 32-bit register keeps of a sum.
abbrev pub wrap_int : ℤ → ℤ
wrap_int a =
    let w = (pos_part a + 2 ^ 32 - neg_part a) % 2 ^ 32 in
    if ltb w (2 ^ 31) then pos w else sub_ℕ w (2 ^ 32)

-- `int` addition, with the wrap-around of the machine.
unfoldable pub add_int : ℤ → ℤ → ℤ
unfolding ◌+ℤ◌
add_int a b = wrap_int (a +ℤ b)

-- A store into memory at an offset, which may be any integer.
abbrev pub update_at : (ℤ → ℕ) → ℤ → ℕ → ℤ → ℕ
update_at f p v q = if p ==ℤ q then v else f q

-- Numbers below 2^31 add without wrapping as long as the sum stays below.
pub add_int-pos : (a b : ℕ) → a + b + 1 ≤ 2 ^ 31 → add_int (pos a) (pos b) ≡ pos (a + b)
unfolding add_int
add_int-pos a b h = ground arith

pub +ℤ_parts :
    (a b : ℤ)
    → pos_part (a +ℤ b) + neg_part a + neg_part b ≡ neg_part (a +ℤ b) + pos_part a + pos_part b
unfolding ◌+ℤ◌
+ℤ_parts a b = ground arith

pub pos_add : (a b : ℕ) → pos a +ℤ pos b ≡ pos (a + b)
unfolding ◌+ℤ◌
pos_add a b = ground arith
