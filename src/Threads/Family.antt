-- ===== src/Threads/Family.antt =====
-- wait: the child that it collects is a zombie.
use cs170lab.Prelude.{◌≡◌, inl, inr, refl, none, some, List, [], ◌∷◌, update, arith}
use cs170lab.Prelude.Int.{pos}
use cs170lab.Structs.{Ptr, Pcb}
use cs170lab.Env.{Env}
use cs170lab.Kernel.{Kernel, get_pcb, set_pcb, free_pcb, modify, ◌>>=◌, ◌>>◌}
use cs170lab.Pid.{destroy_pid}
use cs170lab.Syscall.{syscall_return}
use cs170lab.Syscall.Wait.{collect, do_wait}
use cs170lab.Threads.{In, Follows, Nobody}
use cs170lab.Threads.Calls.{Good, rules}
use cs170lab.Threads.Frames.{
  Still, Still-refl, Still-pcbs, Keeps-put, Keeps-free, Keeps-refl, Still-destroy_pid, ready_behind,
  Follows-deref, Follows-syscall_return,
}

-- The first of a list, and the others.
pub first_of :
    (env : Env) (l : List Ptr) (z : Ptr)
    → env.dll.first l ≡ some z
    → In z l × ((y : Ptr) → In y (env.dll.delete_first l) → In y l)
first_of env [] z e = absurd (ground (arith, env.dll.first-nil))
first_of env (x ∷ l) z e = (
  inl (ground (arith, env.dll.first-cons x l)),
  λ y m. inr (rw (env.dll.delete_first-cons x l) at m),
)

module _ (env : Env) (p : Ptr) where
  -- What follows when the structure `c` of the process and the child `z` to be collected are known.
  collect_child :
      (h : Kernel) (c : Pcb) (z : Ptr)
      → h.pcbs p ≡ some c
      → env.dll.first c.waiters ≡ some z
      → Follows Nobody (ready_behind p) h (
          (do
            set_pcb p λ c. record c { waiters = env.dll.delete_first c.waiters }
            child ← get_pcb z
            modify (destroy_pid env child.pid)
            free_pcb z
            syscall_return env p (pos child.pid))
            h)
  collect_child h c z at e = Follows-deref Nobody (ready_behind p) h (h.pcbs p) _ h λ c1 at1.
      let c1_c : c1 ≡ c = ground (arith) in
      let g : Kernel = record h {
        pcbs = update h.pcbs p (some (record c1 { waiters = env.dll.delete_first c1.waiters }));
      } in
      let s : Still Nobody h g = Still-pcbs Nobody h h g.pcbs (Still-refl Nobody h) (
        Keeps-put Nobody h.pcbs h.pcbs p c1 _ (Keeps-refl Nobody h.pcbs) at1 (refl, refl, refl)
          (λ y m. inl (p, c1, at1, (first_of env c1.waiters z (rw c1_c e)).1 y m))) in
      Follows-deref Nobody (ready_behind p) h (g.pcbs z) _ g λ child is.
        let g' : Kernel = destroy_pid env child.pid g in
        let s' : Still Nobody h g' = Still-destroy_pid Nobody env h g child.pid s in
        Follows-deref Nobody (ready_behind p) h (g'.pcbs z) _ g' λ child' is'.
          Follows-syscall_return env p h (record g' { pcbs = update g'.pcbs z none })
            (pos child.pid)
            (Still-pcbs Nobody h g' (update g'.pcbs z none) s' (
              Keeps-free Nobody h.pcbs g'.pcbs z s'.keeps
                (inl (p, c1, at1, (first_of env c1.waiters z (rw c1_c e)).0))))

  pub collect-Good : Good env p (collect env p)
  unfolding collect
  collect-Good h = Follows-deref Nobody (ready_behind p) h (h.pcbs p) _ h λ c at.
      Follows-deref Nobody (ready_behind p) h (env.dll.first c.waiters) _ h
        λ z e. collect_child h c z at e

  -- wait, up to its wait and behind it, from whatever kernel the other threads left: structures and chunks of all
  -- processes that are no zombies stay, nobody becomes a zombie, and where the call ends its process is behind
  -- the ready queue.
  pub do_wait-Good : Good env p (do_wait env p)
  unfolding do_wait
  do_wait-Good h = search (rules, collect-Good)
