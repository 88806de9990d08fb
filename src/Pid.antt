-- ===== src/Pid.antt =====
-- Process numbers: get_new_pid and destroy_pid of scheduler.c, over the tree `rbtree`.
pub mod Fresh
use cs170lab.Prelude.{ℕ, zero, suc, ◌+◌, Option, none, some, length}
use cs170lab.Structs.{Tree}
use cs170lab.Env.{Env}
use cs170lab.Kernel.{M, Kernel, spins}

module _ (env : Env) where
  open env use {jrb}

  -- `while (jrb_find_int(rbtree, curpid) != NULL) curpid++;` from `c` on.
  find_pid : ℕ → ℕ → Tree → Option ℕ
  find_pid zero c t = none
  find_pid (suc fuel) c t =
      let rest = find_pid fuel (c + 1) t in
      elim (jrb.find_int t c) [ none ↦ some c | some n ↦ rest ]

  -- One round more than the tree has entries is enough.
  unfoldable pub get_new_pid : M ℕ
  unfolding find_pid
  get_new_pid k h = elim (find_pid (length h.rbtree + 1) 0 h.rbtree) [
    | none ↦ spins
    | some c ↦ k c (record h { curpid = c; rbtree = jrb.insert_int h.rbtree c 0 })
  ]

  unfoldable pub destroy_pid : ℕ → Kernel → Kernel
  destroy_pid pid h = elim (jrb.find_int h.rbtree pid) [
    | none ↦ h
    | some n ↦ record h { rbtree = jrb.delete_node h.rbtree n }
  ]
