-- ===== src/Syscall/Exit/Leaf.antt =====
-- do_exit of a process without children, as a whole.
use cs170lab.Prelude.{
  length, ◌+◌, ◌≤◌, ◌≡◌, ◌≢◌, ◌∙◌, refl, sym, Option, some, [], ◌∷◌, ◌++◌, ==_refl, ==_ne, update,
  update-update, le→leb,
}
use cs170lab.Structs.{Ptr, Fd, Pipe, Pcb, Entry, memory_size}
use cs170lab.Env.{Env, entry, without}
use cs170lab.Kernel.{Kernel, Cmd, exited}
use cs170lab.Memory.{cleared}
use cs170lab.Syscall.Exit.{exit_fds, adopt_children, hand_zombies, clean_up, do_exit}
use cs170lab.Syscall.Exit.Rounds.{Counts, Owned}
use cs170lab.Syscall.Exit.Release.{Distinct, Released, exit_fds-Released}

-- The process `p` without children is a child of another one, which is not `init`; `n` is its entry among the children of that one,
-- and `base` is what is left of the pipes without its references.
pub record Leaves (h : Kernel) (p : Ptr) (c d : Pcb) (n : Entry) (base : Ptr → Option Pipe)
    : Type 0 where
  pub at : h.pcbs p ≡ some c
  pub apart : p ≢ c.parent
  pub is : h.pcbs c.parent ≡ some d
  pub user : d.pid ≢ 0
  pub no_children : c.children ≡ []
  pub no_zombies : c.waiters ≡ []
  pub inside : c.base + c.limit ≤ memory_size
  pub listed : entry d.children c.pid ≡ some n
  pub owned : Owned h c.fd base 64 0
  pub distinct : Distinct c.fd 64 0
  pub counts : Counts h c.fd base 64 0

module _ (env : Env) (h : Kernel) (p : Ptr) (c d : Pcb) (n : Entry) (base : Ptr → Option Pipe)
    (l : Leaves h p c d n base) where
  -- The process with its exit value, and its parent with the process among those that it can collect.
  abbrev pub dead : Pcb
  dead = record c { exit_value = c.my_registers 5 }

  abbrev pub told : Pcb
  told = record d { children = without d.children n; waiters = d.waiters ++ p ∷ [] }

  -- The kernel that the call leaves.
  abbrev pub gone : (Ptr → Option Fd) → Kernel
  gone fds = record h {
    memory_chunk = update h.memory_chunk c.memory_num 0;
    main_memory = cleared c.base c.limit h.main_memory;
    sems = update h.sems d.waiters_sem (h.sems d.waiters_sem + 1);
    pcbs = update (update h.pcbs p (some dead)) c.parent (some told);
    pipes = base;
    fds = fds;
  }

  -- The kernel before the loop over the descriptors.
  abbrev unlisted : Kernel
  unlisted = record h {
    memory_chunk = update h.memory_chunk c.memory_num 0;
    main_memory = cleared c.base c.limit h.main_memory;
    pcbs =
        update (update h.pcbs p (some dead)) c.parent
          (some (record d { children = without d.children n }));
  }

  at_p : unlisted.pcbs p ≡ some dead
  at_p = rw (==_ne c.parent p (λ e. l.apart (sym e)), ==_refl p) refl

  -- There is nobody to hand on to `init`.
  childless :
      (g : Kernel) (x : Pcb) (k : Unit {0} → Cmd)
      → g.pcbs p ≡ some x
      → x.children ≡ []
      → x.waiters ≡ []
      → adopt_children env
          (length x.children + 1)
          p
          (λ _. hand_zombies env (length x.waiters + 1) p k)
          g
        ≡ k tt g
  unfolding adopt_children hand_zombies
  childless g x k at e e' =
      rw (e, e', at, e, env.jrb.is_empty-nil, at, e', env.dll.is_empty-nil) refl

  do_exit-unlisted : do_exit env p h ≡ exit_fds 64 0 p (λ _. clean_up env p (λ _. exited)) unlisted
  unfolding do_exit
  do_exit-unlisted =
      rw
        (
          l.at,
          ==_refl p,
          le→leb (c.base + c.limit) memory_size l.inside,
          ==_ne p c.parent l.apart,
          l.is,
          env.jrb.find_int_lem d.children c.pid,
          l.listed,
          ==_ne p c.parent l.apart,
          l.is,
          env.jrb.delete_node_lem d.children n,
          ==_ne c.parent p (λ e. l.apart (sym e)),
          ==_refl p,
        )
        (childless unlisted dead (λ _. exit_fds 64 0 p (λ _. clean_up env p (λ _. exited))) at_p
          l.no_children l.no_zombies)

  clean_up-gone :
      (fds : Ptr → Option Fd)
      → clean_up env p (λ _. exited) (record unlisted { pipes = base; fds = fds })
        ≡ exited (gone fds)
  unfolding clean_up
  clean_up-gone fds =
      rw
        (
          at_p,
          ==_refl c.parent,
          ==_ne d.pid 0 l.user,
          env.kt.v_lem,
          ==_refl c.parent,
          env.dll.append_lem,
          update-update,
        )
        refl

  pub do_exit-gone :
      (fds : Ptr → Option Fd) × (do_exit env p h ≡ exited (gone fds)) × Released h fds c.fd 64 0
  do_exit-gone =
      let (fds, run, rel) =
        exit_fds-Released p dead base (λ _. clean_up env p (λ _. exited)) 64 0 unlisted at_p l.owned
          l.distinct l.counts in
      (
        fds,
        do_exit-unlisted ∙ run ∙ clean_up-gone fds,
        record { closed = rel.closed; others = rel.others },
      )
