-- ===== src/Syscall/Wait/Reap.antt =====
-- A process that has ended, and the parent that collects it.
use cs170lab.Prelude.{
  ◌+◌, ◌≡◌, ◌≢◌, refl, some, none, [], ◌∷◌, ◌++◌, arith, ==_refl, ==_ne, update, sym, fun_ext,
}
use cs170lab.Prelude.Int.{pos}
use cs170lab.Structs.{Ptr, Pcb, Entry}
use cs170lab.Env.{Env, entry, without}
use cs170lab.Kernel.{Kernel, exited}
use cs170lab.Sem.Drive.{drive}
use cs170lab.Syscall.{returned}
use cs170lab.Syscall.Return.{finished}
use cs170lab.Syscall.Exit.{clean_up}
use cs170lab.Syscall.Wait.{do_wait}
use cs170lab.Syscall.Wait.Collect.{Collects, do_wait-collected}

-- The process `p` ends, as a child of `r`, which is not `init` and has collected all others; the
-- number of `p` is the key of the entry `n`.
pub record Ends (h : Kernel) (p r : Ptr) (c d : Pcb) (n : Entry) : Type 0 where
  pub at : h.pcbs p ≡ some c
  pub apart : p ≢ r
  pub parent : c.parent ≡ r
  pub is : h.pcbs r ≡ some d
  pub user : d.pid ≢ 0
  pub none_left : d.waiters ≡ []
  pub idle : h.sems d.waiters_sem ≡ 0
  pub used : entry h.rbtree c.pid ≡ some n

module _ (env : Env) (h : Kernel) (p r : Ptr) (c d : Pcb) (n : Entry) (e : Ends h p r c d n) where
  abbrev waiting : Kernel
  waiting = record h {
    sems = update h.sems d.waiters_sem (h.sems d.waiters_sem + 1);
    pcbs = update h.pcbs r (some (record d { waiters = p ∷ [] }));
  }

  -- What the parent leaves behind.
  abbrev pub reaped : Kernel
  reaped = record h {
    sems =
        update (update h.sems d.waiters_sem (h.sems d.waiters_sem + 1)) d.waiters_sem
          (h.sems d.waiters_sem);
    rbtree = without h.rbtree n;
    pcbs =
        update
          (update (update h.pcbs r (some (record d { waiters = p ∷ [] }))) r
            (some (record d { waiters = [] })))
          p none;
  }

  clean_up-waiting : clean_up env p (λ _. exited) h ≡ exited waiting
  unfolding clean_up
  clean_up-waiting = rw (
    e.at,
    e.parent,
    e.is,
    ==_ne d.pid 0 e.user,
    env.kt.v_lem,
    e.is,
    env.dll.append_lem,
    e.none_left,
  )

  Collects-waiting :
      Collects waiting r p (record d { waiters = p ∷ [] }) c [] (h.sems d.waiters_sem) n
  Collects-waiting = record {
    at = rw (==_refl r) refl;
    first = refl;
    count = rw (==_refl d.waiters_sem) (omega (arith, e.idle));
    apart = e.apart;
    is = rw (==_ne r p (λ z. e.apart (sym z))) e.at;
    used = e.used;
  }

  do_wait-reaped :
      drive env (do_wait env r waiting)
      ≡ exited (finished r (pos c.pid) (record d { waiters = [] }) reaped)
  do_wait-reaped =
      do_wait-collected env waiting r p _ c [] (h.sems d.waiters_sem) n Collects-waiting

  -- A child that ends and the parent that then waits: the parent's call ends and returns the number of
  -- the child. The structure of the child is freed, its number is given back, the parent has no child
  -- to collect, and its semaphore and all other structures are as before.
  pub clean_up-do_wait :
      (k1 : Kernel) × (k2 : Kernel) × (clean_up env p (λ _. exited) h ≡ exited k1)
      × (drive env (do_wait env r k1) ≡ exited k2)
      × (k2.pcbs r ≡ some (returned (pos c.pid) (record d { waiters = [] })))
      × (k2.pcbs p ≡ none)
      × (k2.rbtree ≡ without h.rbtree n)
      × (k2.readyq ≡ h.readyq ++ r ∷ [])
      × (k2.sems ≡ h.sems)
      × ((a : Ptr) → a ≢ p → a ≢ r → k2.pcbs a ≡ h.pcbs a)
  clean_up-do_wait = (
    waiting,
    finished r (pos c.pid) (record d { waiters = [] }) reaped,
    clean_up-waiting,
    do_wait-reaped,
    rw (==_refl r),
    rw (==_ne r p (λ z. e.apart (sym z)), ==_refl p),
    refl,
    refl,
    fun_ext (λ s. ground arith),
    λ a u v. ground arith,
  )
