-- ===== src/TeePipe/Copy.antt =====
-- How tee-pipe sends a block to a pipe.
use cs170lab.Prelude.{
  ℕ, suc, Bool, true, false, ◌<◌, ◌≡◌, refl, ap, fun_ext, if◌then◌else◌, arith, lt→ltb,
}
use cs170lab.Prelude.Int.{ℤ, pos, negsuc, ltb_ℤ, ◌+ℤ◌}
use cs170lab.TeePipe.{Prog, exits, minus, send}

below_zero : (a : ℕ) → ltb_ℤ (pos 0) (negsuc a) ≡ false
below_zero a = ground arith

above_zero : (b : ℕ) → 0 < b → ltb_ℤ (pos 0) (pos b) ≡ true
above_zero b h = ground (arith, lt→ltb 0 b h)

minus_zero : (b : ℕ) → minus (pos b) (pos 0) ≡ pos b
unfolding minus ◌+ℤ◌
minus_zero b = ground arith

pick : (t : Bool) (x y z : Prog) → t ≡ false → (if t then x else z) ≡ (if t then y else z)
pick t x y z e = rw e refl

-- What follows a `write` that has returned `r`.
behind_write :
    (fuel b : ℕ) (fd : ℤ) (k : Prog) (r : ℤ)
    → (if ltb_ℤ (pos 0) r then send (suc fuel) fd (pos b) (r +ℤ pos b) k else exits 1)
      ≡ (if ltb_ℤ (pos 0) r then k else exits 1)
unfolding send ◌+ℤ◌
behind_write fuel b fd k (pos a) = ground arith
behind_write fuel b fd k (negsuc a) = pick (ltb_ℤ (pos 0) (negsuc a)) _ k (exits 1) (below_zero a)

-- A block of at least one byte is sent in a single `write` of all of it, whatever positive number of bytes that
-- call takes: what a short write has left is never sent, and an error or a 0 ends the program. Two rounds of the
-- loop are enough.
pub send-once :
    (fuel b : ℕ) (fd : ℤ) (k : Prog)
    → 0 < b
    → send (suc (suc fuel)) fd (pos b) (pos 0) k
      ≡ Prog.write fd (pos 0) (pos b) (λ r. if ltb_ℤ (pos 0) r then k else exits 1)
unfolding send
send-once fuel b fd k some_byte =
    rw (above_zero b some_byte, minus_zero b)
      (ap (Prog.write fd (pos 0) (pos b)) (fun_ext (behind_write fuel b fd k)))
