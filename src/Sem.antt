-- ===== src/Sem.antt =====
-- The calls of kt.h that create and raise a semaphore, and `kt_fork`. Memory for a semaphore, as for
-- a structure, comes from `malloc`, which returns the next address and does not fail.
pub mod Drive
use cs170lab.Prelude.{ℕ, zero, suc, ◌+◌, [], ◌∷◌, ◌++◌}
use cs170lab.Structs.{Ptr}
use cs170lab.Env.{Env}
use cs170lab.Kernel.{M, Task}

abbrev pub malloc : M Ptr
malloc k h = k h.next (record h { next = h.next + 1 })

abbrev pub kt_fork : Task → M (Unit {0})
kt_fork t k h = k tt (record h { forked = h.forked ++ t ∷ [] })

module _ (env : Env) where
  abbrev pub make_kt_sem : ℕ → M Ptr
  make_kt_sem value k h =
      k h.next (record h { next = h.next + 1; sems = env.kt.make h.sems h.next value })

  abbrev pub v_kt_sem : Ptr → M (Unit {0})
  v_kt_sem s k h = k tt (record h { sems = env.kt.v h.sems s })

  -- `for (f = 0; f < n; f++) V_kt_sem(s);`
  unfoldable pub v_times : ℕ → Ptr → M (Unit {0})
  v_times zero s k = k tt
  v_times (suc n) s k = v_kt_sem s λ _. v_times n s k
