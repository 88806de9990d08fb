-- ===== src/Undone/Circle.antt =====
-- do_fork, do_exit of the child and do_wait of the parent, of syscall.c.
use cs170lab.Prelude.{
  ℕ, ◌+◌, ◌*◌, ◌<◌, ◌≤◌, ◌≡◌, ◌≢◌, ◌⊎◌, refl, sym, Option, none, some, [], arith, ==_refl, ==_ne,
}
use cs170lab.Prelude.Int.{pos}
use cs170lab.Structs.{Ptr, Fd, Pipe, Pcb, to_ushort}
use cs170lab.Env.{Env, entry}
use cs170lab.Kernel.{Kernel}
use cs170lab.Pid.Fresh.{entry-placed_self}
use cs170lab.Syscall.{returned}
use cs170lab.Syscall.Return.{finished}
use cs170lab.Syscall.Fork.Child.{Forks, Born}
use cs170lab.Syscall.Exit.Rounds.{Alive}
use cs170lab.Syscall.Exit.Release.{Released}
use cs170lab.Syscall.Exit.Leaf.{Leaves, gone, told, dead}
use cs170lab.Syscall.Wait.Collect.{Collects, collected, relieved}
use cs170lab.Undone.{Undone, caller, fits, Leaves-born}

-- What is left of the child at `child` when its parent `p` has collected it, between `h` before the call of `fork` and
-- `k` behind the call of `wait`: of what was there at `h`, all but its own chunk of memory is as before.
pub record Circle (h k : Kernel) (p child : Ptr) (c : Pcb) (i : ℕ) : Type 0 where
  pub pipes : k.pipes ≡ h.pipes
  pub chunks : k.memory_chunk ≡ h.memory_chunk
  pub numbers : k.rbtree ≡ h.rbtree
  pub semaphores : (s : Ptr) → s < h.next → k.sems s ≡ h.sems s
  pub descriptors : (a : Ptr) → a < h.next → k.fds a ≡ h.fds a
  pub memory :
      (x : ℕ)
      → (x < i * h.user_limit) ⊎ (i * h.user_limit + h.user_limit ≤ x)
      → k.main_memory (pos x) ≡ h.main_memory (pos x)
  pub freed : k.pcbs child ≡ none
  pub others : (a : Ptr) → a ≢ p → a ≢ child → k.pcbs a ≡ h.pcbs a
  pub pid : ℕ
  pub fresh : entry h.rbtree pid ≡ none
  pub e : Pcb
  pub at : k.pcbs p ≡ some (returned (pos pid) e)
  pub children : e.children ≡ c.children
  pub waiters : e.waiters ≡ []

module _ (env : Env) (h : Kernel) (p : Ptr) (c : Pcb) (i : ℕ) (f : Forks h p c i)
    (living : (a : Ptr) (q : Pipe) → h.pipes a ≡ some q → Alive q) (user : c.pid ≢ 0)
    (numbered : (j : ℕ) → j < 65536 → entry h.rbtree j ≡ none → entry c.children j ≡ none)
    (room : (j : ℕ) × (j < 65536) × (entry h.rbtree j ≡ none)) (none_left : c.waiters ≡ [])
    (idle : h.sems c.waiters_sem ≡ 0) (old : c.waiters_sem < h.next) where
  abbrev new : Ptr
  new = h.next

  module _ (k : Kernel) (b : Born h k p new c i) (fds : Ptr → Option Fd)
      (r : Released k fds b.d.fd 64 0) where
    abbrev parent : Pcb
    parent = caller env h p c i f living user numbered room k b

    abbrev leaving : Leaves k new b.d parent (to_ushort b.pid, new) h.pipes
    leaving = Leaves-born env h p c i f living user numbered room k b

    -- The kernel when the child has ended.
    abbrev ended : Kernel
    ended = gone env k new b.d parent (to_ushort b.pid, new) h.pipes leaving fds

    abbrev ready : Pcb
    ready = told env k new b.d parent (to_ushort b.pid, new) h.pipes leaving

    abbrev zombie : Pcb
    zombie = dead env k new b.d parent (to_ushort b.pid, new) h.pipes leaving

    apart : new ≢ p
    apart e = absurd (omega (arith, e, f.old))

    Collects-ended : Collects ended p new ready zombie [] 0 (b.pid, 0)
    unfolding returned
    Collects-ended = record {
      at = rw (b.parent, ==_refl p) refl;
      first = rw none_left refl;
      count = rw (==_refl c.waiters_sem, b.semaphores c.waiters_sem old, idle) refl;
      apart = apart;
      is = rw (b.parent, ==_ne p new (λ e. apart (sym e)), ==_refl new) refl;
      used =
          rw (b.numbers, b.numbered, (fits env h p c i f living user numbered room k b).1)
            (entry-placed_self h.rbtree b.pid 0 b.fresh);
    }

    -- The parent at the end, but for the return.
    abbrev remaining : Pcb
    remaining = relieved env ended p new ready zombie [] 0 (b.pid, 0) Collects-ended

    -- The kernel at the end.
    abbrev after : Kernel
    after =
        finished p (pos zombie.pid) remaining
          (collected env ended p new ready zombie [] 0 (b.pid, 0) Collects-ended)
