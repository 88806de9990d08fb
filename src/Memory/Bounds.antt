-- ===== src/Memory/Bounds.antt =====
-- Accesses of `main_memory` that lie inside it.
use cs170lab.Prelude.{ℕ, ◌<◌, ◌≤◌, ◌≡◌, true, false, arith}
use cs170lab.Prelude.Int.{pos}
use cs170lab.Structs.{memory_size}
use cs170lab.Kernel.{in_memory}

pub in_memory-pos : (x : ℕ) → x < memory_size → in_memory (pos x) ≡ true
in_memory-pos x h = ground arith

pub in_memory-large : (x : ℕ) → memory_size ≤ x → in_memory (pos x) ≡ false
in_memory-large x h = ground arith
