-- ===== src/Syscall/Wait/Collect.antt =====
-- do_wait of a parent that has zombies to collect.
use cs170lab.Prelude.{
  ℕ, suc, ◌≡◌, ◌≢◌, refl, some, none, List, ◌∷◌, ==_refl, ==_ne, update, sym, ap,
}
use cs170lab.Prelude.Int.{pos}
use cs170lab.Structs.{Ptr, Pcb, Entry}
use cs170lab.Env.{Env, entry, without}
use cs170lab.Kernel.{Kernel, exited}
use cs170lab.Pid.{destroy_pid}
use cs170lab.Sem.Drive.{drive}
use cs170lab.Syscall.Return.{finished, syscall_return-finished}
use cs170lab.Syscall.Wait.{do_wait, collect}

-- The zombie `z` is the first in the list of `r`, whose semaphore counts `m` more; the number of `z` is the key of the
-- entry `n`.
pub record Collects (h : Kernel) (r z : Ptr) (d x : Pcb) (rest : List Ptr) (m : ℕ) (n : Entry)
    : Type 0 where
  pub at : h.pcbs r ≡ some d
  pub first : d.waiters ≡ z ∷ rest
  pub count : h.sems d.waiters_sem ≡ suc m
  pub apart : z ≢ r
  pub is : h.pcbs z ≡ some x
  pub used : entry h.rbtree x.pid ≡ some n

module _ (env : Env) (h : Kernel) (r z : Ptr) (d x : Pcb) (rest : List Ptr) (m : ℕ) (n : Entry)
    (c : Collects h r z d x rest m n) where
  abbrev pub relieved : Pcb
  relieved = record d { waiters = rest }

  abbrev pub collected : Kernel
  collected = record h {
    sems = update h.sems d.waiters_sem m;
    rbtree = without h.rbtree n;
    pcbs = update (update h.pcbs r (some relieved)) z none;
  }

  -- The kernel when the number of the zombie is given back.
  abbrev collecting : Kernel
  collecting = record h {
    sems = update h.sems d.waiters_sem m;
    pcbs = update h.pcbs r (some relieved);
  }

  destroyed : destroy_pid env x.pid collecting ≡ record collecting { rbtree = without h.rbtree n }
  unfolding destroy_pid
  destroyed =
      rw (
        env.jrb.find_int_lem h.rbtree x.pid,
        destroy_pid,
        c.used,
        env.jrb.delete_node_lem h.rbtree n,
      )

  first_is : env.dll.first d.waiters ≡ some z
  first_is = rw c.first (env.dll.first-cons z rest)

  rest_is : env.dll.delete_first d.waiters ≡ rest
  rest_is = rw c.first (env.dll.delete_first-cons z rest)

  -- wait of a parent that has a zombie, without another thread in between: the call ends and returns the number of
  -- the first one, whose structure is freed and whose number is given back; the others stay in their order, and the
  -- semaphore counts one less.
  pub do_wait-collected :
      drive env (do_wait env r h) ≡ exited (finished r (pos x.pid) relieved collected)
  unfolding do_wait collect drive
  do_wait-collected =
      rw
        (
          c.at,
          env.kt.p-suc h.sems d.waiters_sem m c.count,
          c.at,
          first_is,
          c.at,
          rest_is,
          ==_ne r z (λ e. c.apart (sym e)),
          c.is,
          destroyed,
          ==_ne r z (λ e. c.apart (sym e)),
          c.is,
        )
        (ap (drive env) (
          syscall_return-finished env r (pos x.pid) relieved collected
            (rw (==_ne z r c.apart, ==_refl r) refl)))
