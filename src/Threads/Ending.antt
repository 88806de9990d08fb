-- ===== src/Threads/Ending.antt =====
-- exit, part by part: the children, the zombies that wait to be collected, the descriptors, and the clean-up.
use mathlib.Core.Option.{some-injective}
use cs170lab.Prelude.{
  length, ℕ, zero, suc, ◌+◌, ◌≡◌, ◌⊎◌, inl, inr, refl, ap, sym, ◌∙◌, Option, none, some, List, [],
  ◌∷◌, ◌++◌, update, arith, ==_refl, ==_ne, ◌==◌, ℕ_discrete,
}
use cs170lab.Structs.{Ptr, Pcb}
use cs170lab.Env.{Env}
use cs170lab.Kernel.{
  Kernel, Cmd, deref, get_pcb, set_pcb, free_pcb, modify, exited, get, ◌>>=◌, ◌>>◌,
}
use cs170lab.Memory.{clear_block}
use cs170lab.Pid.{destroy_pid}
use cs170lab.Sem.{v_kt_sem}
use cs170lab.Syscall.Exit.{exit_fd, exit_fds, adopt_children, hand_zombies, clean_up, do_exit}
use cs170lab.Threads.{In, Follows}
use cs170lab.Threads.Family.{first_of}
use cs170lab.Threads.Frames.{
  Still, Still-refl, Still-pcbs, Still-put, Moves-put, Keeps-put, Keeps-free, Still-destroy_pid,
  Follows-deref, Follows-if, Follows-if_cmd, Follows-if_part,
}

ruleset rules = (Follows-deref, Follows-if, Follows-if_cmd, Follows-if_part, Moves-put, refl)

In-append : (y z : ℕ) (l : List ℕ) → In y (l ++ z ∷ []) → In y l ⊎ (y ≡ z)
In-append y z [] (inl e) = inr e
In-append y z [] (inr m) = absurd m
In-append y z (x ∷ l) (inl e) = inl (inl e)
In-append y z (x ∷ l) (inr m) = elim (In-append y z l m) [ inl n ↦ inl (inr n) | inr e ↦ inr e ]

first-append :
    (env : Env) (l : List Ptr) (z w : Ptr)
    → env.dll.first l ≡ some z
    → env.dll.first (env.dll.append l w) ≡ some z
first-append env [] z w e = absurd (ground (arith, env.dll.first-nil))
first-append env (x ∷ l) z w e =
    rw (env.dll.append_lem (x ∷ l) w, env.dll.first-cons x (l ++ w ∷ []))
      (ground (arith, env.dll.first-cons x l))

module _ (env : Env) (p : Ptr) where
  -- The process that ends.
  abbrev pub Ended : Ptr → Type 0
  Ended a = a ≡ p

  abbrev Rest : Cmd → Type 0
  Rest c = (h0 h : Kernel) → Still Ended h0 h → Follows Ended (λ q. q) h0 (c h)

  exit_fd-Follows : (a : Ptr) (k : Unit {0} → Cmd) → Rest (k tt) → Rest (exit_fd a k)
  unfolding exit_fd
  exit_fd-Follows a k r h0 h s = search (rules, r) depth 20 fits 2000

  exit_fds-Follows : (n i : ℕ) (k : Unit {0} → Cmd) → Rest (k tt) → Rest (exit_fds n i p k)
  unfolding exit_fds
  exit_fds-Follows zero i k r h0 h s = r h0 h s
  exit_fds-Follows (suc n) i k r h0 h s =
      search (rules, exit_fd-Follows, exit_fds-Follows n (i + 1) k r) depth 20 fits 2000

  adopt_children-Follows :
      (fuel : ℕ) (k : Unit {0} → Cmd) → Rest (k tt) → Rest (adopt_children env fuel p k)
  unfolding adopt_children
  adopt_children-Follows zero k r h0 h s = tt
  adopt_children-Follows (suc fuel) k r h0 h s =
      search (rules, adopt_children-Follows fuel k r, r) depth 20 fits 2000

  -- The list of the process, if it has a structure, begins with `z`.
  abbrev First : Ptr → (Ptr → Option Pcb) → Type 0
  First z f = (d : Pcb) → f p ≡ some d → env.dll.first d.waiters ≡ some z

  First-put :
      (z : Ptr) (f : Ptr → Option Pcb) (a : Ptr) (c c' : Pcb)
      → First z f
      → f a ≡ some c
      → (env.dll.first c.waiters ≡ some z → env.dll.first c'.waiters ≡ some z)
      → First z (update f a (some c'))
  First-put z f a c c' r at more d is = elim (ℕ_discrete a p) [
    | yes q ↦
        rw (some-injective d c' (sym is ∙ rw (q, ==_refl p) refl)) (more (r c (rw (sym q) at)))
    | no q ↦ r d (rw (==_ne a p q) at is)
  ]

  -- One zombie, which `m` finds in the list of the process, goes to `init`.
  hand_zombie :
      (fuel : ℕ) (k : Unit {0} → Cmd) (h0 h : Kernel) (c : Pcb) (z : Ptr)
      → Rest (hand_zombies env fuel p k)
      → Still Ended h0 h
      → h.pcbs p ≡ some c
      → env.dll.first c.waiters ≡ some z
      → Follows Ended
          (λ q. q)
          h0
          ((do
            h ← get
            set_pcb z λ x. record x { parent = h.init }
            set_pcb h.init λ x. record x { waiters = env.dll.append x.waiters z }
            set_pcb p λ c. record c { waiters = env.dll.delete_first c.waiters }
            i ← get_pcb h.init
            v_kt_sem env i.waiters_sem
            hand_zombies env fuel p k)
            h)
  hand_zombie fuel k h0 h c z r s at e =
      let z_gone = s.keeps.zombies z (p, c, at, (first_of env c.waiters z e).0) in
      Follows-deref Ended (λ q. q) h0 (h.pcbs z) _ h
        λ x is.
          let x' : Pcb = record x { parent = h.init } in
          let g : Kernel = record h { pcbs = update h.pcbs z (some x') } in
          let s1 : Still Ended h0 g = Still-put Ended h0 h z x x' s is (refl, refl, refl) refl in
          Follows-deref Ended (λ q. q) h0 (g.pcbs h.init) _ g
            λ i is1.
              let i' : Pcb = record i { waiters = env.dll.append i.waiters z } in
              let g1 : Kernel = record g { pcbs = update g.pcbs h.init (some i') } in
              let s2 : Still Ended h0 g1 = Still-pcbs Ended h0 g g1.pcbs s1 (
                Keeps-put Ended h0.pcbs g.pcbs h.init i i' s1.keeps is1 (refl, refl, refl)
                  (λ y m.
                    elim (In-append y z i.waiters (rw (env.dll.append_lem i.waiters z) at m)) [
                      | inl n ↦ s1.keeps.zombies y (h.init, i, is1, n)
                      | inr same ↦ rw same z_gone
                    ])) in
              let first1 : First z g.pcbs =
                First-put z h.pcbs z x x'
                  (λ b is'. rw (ap (λ b. b.waiters) (some-injective _ _ (sym is' ∙ at))) e) is
                  (λ e. e) in
              let first2 : First z g1.pcbs =
                First-put z g.pcbs h.init i i' first1 is1 (first-append env i.waiters z z) in
              Follows-deref Ended (λ q. q) h0 (g1.pcbs p) _ g1
                λ d is2.
                  let d' : Pcb = record d { waiters = env.dll.delete_first d.waiters } in
                  let g2 : Kernel = record g1 { pcbs = update g1.pcbs p (some d') } in
                  Follows-deref Ended (λ q. q) h0 (g2.pcbs h.init) _ g2
                    λ j is3. r h0 _ (
                      Still-pcbs Ended h0 g1 g2.pcbs s2 (
                        Keeps-put Ended h0.pcbs g1.pcbs p d d' s2.keeps is2 (refl, refl, refl)
                          (λ y m.
                            s2.keeps.zombies y
                              (p, d, is2, (first_of env d.waiters z (first2 d is2)).1 y m))))

  hand_zombies-Follows :
      (fuel : ℕ) (k : Unit {0} → Cmd) → Rest (k tt) → Rest (hand_zombies env fuel p k)
  unfolding hand_zombies
  hand_zombies-Follows zero k r h0 h s = tt
  hand_zombies-Follows (suc fuel) k r h0 h s =
      Follows-deref Ended (λ q. q) h0 (h.pcbs p) _ h
        λ c at.
          Follows-if_cmd Ended (λ q. q) h0 (env.dll.is_empty c.waiters) (k tt) _ h (λ e. r h0 h s)
            (λ e.
              Follows-deref Ended (λ q. q) h0 (env.dll.first c.waiters) _ h
                λ z e. hand_zombie fuel k h0 h c z (hand_zombies-Follows fuel k r) s at e)

  clean_up-Follows : (k : Unit {0} → Cmd) → Rest (k tt) → Rest (clean_up env p k)
  unfolding clean_up
  clean_up-Follows k r h0 h s =
      Follows-deref Ended (λ q. q) h0 (h.pcbs p) _ h
        λ c at.
          Follows-deref Ended (λ q. q) h0 (h.pcbs c.parent) _ h
            λ x is.
              Follows-if Ended (λ q. q) h0 (x.pid == 0) _ _ (λ e. freed c)
                (λ e.
                  Follows-deref Ended (λ q. q) h0 (h.pcbs c.parent) _ _
                    λ x is. r h0 _ (
                      Still-pcbs Ended h0 (record h { sems = env.kt.v h.sems x.waiters_sem }) _ s
                        (Keeps-put Ended h0.pcbs h.pcbs c.parent x _ s.keeps is (refl, refl, refl)
                          (λ y m.
                            elim (In-append y p x.waiters
                              (rw (env.dll.append_lem x.waiters p) at m)) [
                                | inl n ↦ s.keeps.zombies y (c.parent, x, is, n)
                                | inr same ↦ inr same
                              ]))))
    where
      freed :
          (c : Pcb)
          → Follows Ended (λ q. q) h0 ((do modify (destroy_pid env c.pid); free_pcb p; k tt) h)
      freed c =
          let g : Kernel = destroy_pid env c.pid h in
          let t : Still Ended h0 g = Still-destroy_pid Ended env h0 h c.pid s in
          Follows-deref Ended (λ q. q) h0 (g.pcbs p) _ g
            λ d at'. r h0 _ (
              Still-pcbs Ended h0 g (update g.pcbs p none) t
                (Keeps-free Ended h0.pcbs g.pcbs p t.keeps (inr refl)))

  exited-Follows : Rest exited
  exited-Follows h0 h s = s

  -- What follows when the chunk of the process is marked free.
  leave-Follows :
      (c : Pcb)
      → Rest (do
        clear_block c.base c.limit
        parent ← get_pcb c.parent
        node ← deref (env.jrb.find_int parent.children c.pid)
        set_pcb c.parent λ x. record x { children = env.jrb.delete_node x.children node }
        c ← get_pcb p
        adopt_children env (length c.children + 1) p
        hand_zombies env (length c.waiters + 1) p
        exit_fds 64 0 p
        clean_up env p
        exited)
  leave-Follows c h0 h s =
      search
        (
          rules, tt, adopt_children-Follows, hand_zombies-Follows, exit_fds-Follows,
          clean_up-Follows, exited-Follows,
        )
        depth 40 fits 4000

  -- exit of a process that has its structure: only the chunk of the process becomes free; the call does not wait,
  -- and where it ends nobody has been put on the ready queue and no task added; the structures of all other
  -- processes that are no zombies are there, in the same chunks, and nobody but the process became a zombie.
  pub do_exit-Follows :
      (h : Kernel) (c : Pcb)
      → h.pcbs p ≡ some c
      → Follows Ended
          (λ q. q)
          (record h { memory_chunk = update h.memory_chunk c.memory_num 0 })
          (do_exit env p h)
  unfolding do_exit
  do_exit-Follows h c at =
      rw (at, ==_refl p) (leave-Follows (record c { exit_value = c.my_registers 5 }) h0 _ start)
    where
      h0 : Kernel
      h0 = record h { memory_chunk = update h.memory_chunk c.memory_num 0 }

      start :
          Still Ended h0 (record h0 {
            pcbs = update h.pcbs p (some (record c { exit_value = c.my_registers 5 }));
          })
      start =
          Still-put Ended h0 h0 p c (record c { exit_value = c.my_registers 5 })
            (Still-refl Ended h0) at (refl, refl, refl) refl
