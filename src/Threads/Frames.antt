-- ===== src/Threads/Frames.antt =====
-- Rules for `To` and `Follows`, one for each way to go on in a thread.
use cs170lab.Prelude.{
  ℕ, ◌+◌, ◌≡◌, refl, ap, ◌∙◌, ◌⊎◌, inl, inr, Bool, true, false, Option, none, some, List, [], ◌∷◌,
  ◌++◌, arith, ltb, if◌then◌else◌, ==_refl, ==_ne, update, ℕ_discrete,
}
use cs170lab.Structs.{Ptr, Pcb}
use cs170lab.Env.{Env}
use cs170lab.Kernel.{Kernel, Cmd, M, Run, Task, deref, in_bounds, fault, get, ◌>>=◌, ◌>>◌}
use cs170lab.Pid.{destroy_pid}
use cs170lab.Syscall.{syscall_return, execve_return, make_ready, returned, restarted}
use cs170lab.Prelude.Int.{ℤ}
use cs170lab.Threads.{Pause, In, Pcbs, Zombie, SameChunk, Keeps, Moves, To, Follows, Nobody}

module _ (E : Ptr → Type 0) where
  pub Keeps-refl : (f : Pcbs) → Keeps E f f
  Keeps-refl f = record { kept = λ a c z e at. (c, at, (refl, refl, refl)); zombies = λ z m. inl m }

  -- A store to the structure `c` at `a` that leaves its chunk alone; those that wait to be collected there
  -- were zombies before.
  pub Keeps-put :
      (f g : Pcbs) (a : Ptr) (c c' : Pcb)
      → Keeps E f g
      → g a ≡ some c
      → SameChunk c c'
      → ((z : Ptr) → In z c'.waiters → Zombie f z ⊎ E z)
      → Keeps E f (update g a (some c'))
  Keeps-put f g a c c' r at same waiting = record { kept = kept; zombies = zombies }
    where
      kept :
          (b : Ptr) (d : Pcb)
          → (Zombie f b → ⊥)
          → (E b → ⊥)
          → f b ≡ some d
          → (d' : Pcb) × (update g a (some c') b ≡ some d') × SameChunk d d'
      kept b d alive other is =
          let (d', at', keeps) = r.kept b d alive other is in
          elim (ℕ_discrete a b) [
            | yes e ↦ (c', rw (e, ==_refl b), ground (arith))
            | no e ↦ (d', rw (==_ne a b e) at', keeps)
          ]

      zombies : (z : Ptr) → Zombie (update g a (some c')) z → Zombie f z ⊎ E z
      zombies z (b, d, is, m) = elim (ℕ_discrete a b) [
        | yes e ↦ waiting z (ground arith)
        | no e ↦ r.zombies z (b, d, rw (==_ne a b e) at is, m)
      ]

  -- `free` of a process that was to be collected.
  pub Keeps-free :
      (f g : Pcbs) (z : Ptr) → Keeps E f g → Zombie f z ⊎ E z → Keeps E f (update g z none)
  Keeps-free f g z r gone = record { kept = kept; zombies = zombies }
    where
      kept :
          (b : Ptr) (d : Pcb)
          → (Zombie f b → ⊥)
          → (E b → ⊥)
          → f b ≡ some d
          → (d' : Pcb) × (update g z none b ≡ some d') × SameChunk d d'
      kept b d alive other is =
          let (d', at', keeps) = r.kept b d alive other is in
          elim (ℕ_discrete z b) [
            | yes e ↦ absurd (elim gone [ inl m ↦ alive (rw e at m) | inr m ↦ other (rw e at m) ])
            | no e ↦ (d', rw (==_ne z b e) at', keeps)
          ]

      zombies : (y : Ptr) → Zombie (update g z none) y → Zombie f y ⊎ E y
      zombies y (b, d, is, m) = elim (ℕ_discrete z b) [
        | yes e ↦ absurd (ground arith)
        | no e ↦ r.zombies y (b, d, rw (==_ne z b e) at is, m)
      ]

  -- The parts are as they were.
  abbrev pub Still : Kernel → Kernel → Type 0
  Still h g = To E h g h.readyq

  pub Still-refl : (h : Kernel) → Still h h
  Still-refl h = record {
    keeps = Keeps-refl h.pcbs;
    grows = omega arith;
    chunks = refl;
    limits = refl;
    roots = refl;
    queued = refl;
    forks = refl;
  }

  -- Memory that is allocated.
  pub Moves-next :
      (h : Kernel) (f : Pcbs) (n : Ptr) (chunk : ℕ → ℕ) (limit : ℕ) (root : Ptr) (q e : List Ptr)
      (t : List Task)
      → Moves E h f n chunk limit root q e t
      → Moves E h f (n + 1) chunk limit root q e t
  Moves-next h f n chunk limit root q e t s = record {
    keeps = s.keeps;
    grows = omega (arith, s.grows);
    chunks = s.chunks;
    limits = s.limits;
    roots = s.roots;
    queued = s.queued;
    forks = s.forks;
  }

  pub Still-if :
      (h : Kernel) (b : Bool) (x y : Kernel) → Still h x → Still h y → Still h (if b then x else y)
  Still-if h true x y r s = r
  Still-if h false x y r s = s

  pub Still-pcbs :
      (h g : Kernel) (f : Pcbs) → Still h g → Keeps E h.pcbs f → Still h (record g { pcbs = f })
  Still-pcbs h g f s k = record {
    keeps = k;
    grows = s.grows;
    chunks = s.chunks;
    limits = s.limits;
    roots = s.roots;
    queued = s.queued;
    forks = s.forks;
  }

  -- A store that leaves the chunk and the list of those to be collected alone.
  pub Still-put :
      (h g : Kernel) (a : Ptr) (c c' : Pcb)
      → Still h g
      → g.pcbs a ≡ some c
      → SameChunk c c'
      → c'.waiters ≡ c.waiters
      → Still h (record g { pcbs = update g.pcbs a (some c') })
  Still-put h g a c c' s at same e = Still-pcbs h g (update g.pcbs a (some c')) s (
      Keeps-put h.pcbs g.pcbs a c c' s.keeps at same
        (λ z m. s.keeps.zombies z (a, c, at, rw e at m)))

  pub Moves-put :
      (h : Kernel) (f : Pcbs) (n : Ptr) (chunk : ℕ → ℕ) (limit : ℕ) (root : Ptr) (q e : List Ptr)
      (t : List Task) (a : Ptr) (c c' : Pcb)
      → Moves E h f n chunk limit root q e t
      → f a ≡ some c
      → SameChunk c c'
      → c'.waiters ≡ c.waiters
      → Moves E h (update f a (some c')) n chunk limit root q e t
  Moves-put h f n chunk limit root q e t a c c' s at same w = record {
    keeps =
        Keeps-put h.pcbs f a c c' s.keeps at same (λ z m. s.keeps.zombies z (a, c, at, rw w at m));
    grows = s.grows;
    chunks = s.chunks;
    limits = s.limits;
    roots = s.roots;
    queued = s.queued;
    forks = s.forks;
  }

  pub Still-destroy_pid :
      (env : Env) (h g : Kernel) (pid : ℕ) → Still h g → Still h (destroy_pid env pid g)
  unfolding destroy_pid
  Still-destroy_pid env h g pid s =
      elim (env.jrb.find_int g.rbtree pid)
        as (λ o.
          Still h
            (elim o [ none ↦ g | some n ↦ record g { rbtree = env.jrb.delete_node g.rbtree n } ])) [
              | none ↦ s
              | some n ↦ s
            ]

  module _ (done : List Ptr → List Ptr) where
    -- The structure behind a pointer: a bad one ends the thread.
    pub Follows-deref :
        {A : Type 0} (h : Kernel) (o : Option A) (k : A → Cmd) (g : Kernel)
        → ((a : A) → o ≡ some a → Follows E done h (k a g))
        → Follows E done h (deref o k g)
    Follows-deref h none k g r = tt
    Follows-deref h (some a) k g r = r a refl

    pub Follows-if :
        (h : Kernel) (b : Bool) (x y : Run)
        → (b ≡ true → Follows E done h x)
        → (b ≡ false → Follows E done h y)
        → Follows E done h (if b then x else y)
    Follows-if h true x y r s = r refl
    Follows-if h false x y r s = s refl

    pub Follows-get :
        (h : Kernel) (f : Kernel → Cmd) (g : Kernel)
        → Follows E done h (f g g)
        → Follows E done h ((get >>= f) g)
    Follows-get h f g r = r

    -- An access beyond the end of an array ends the thread.
    pub Follows-in_bounds :
        (h : Kernel) (n i : ℕ) (c : Cmd) (g : Kernel)
        → Follows E done h (c g)
        → Follows E done h ((in_bounds n i >> c) g)
    Follows-in_bounds h n i c g r = Follows-if h (ltb i n) (c g) fault (λ e. r) (λ e. tt)

    -- The same for a test between the rests of a thread, and between parts that go on in the same way.
    pub Follows-if_cmd :
        (h : Kernel) (b : Bool) (x y : Cmd) (g : Kernel)
        → (b ≡ true → Follows E done h (x g))
        → (b ≡ false → Follows E done h (y g))
        → Follows E done h ((if b then x else y) g)
    Follows-if_cmd h true x y g r s = r refl
    Follows-if_cmd h false x y g r s = s refl

    pub Follows-if_part :
        (h : Kernel) (b : Bool) (x y : M (Unit {0})) (k : Unit {0} → Cmd) (g : Kernel)
        → (b ≡ true → Follows E done h (x k g))
        → (b ≡ false → Follows E done h (y k g))
        → Follows E done h ((if b then x else y) k g)
    Follows-if_part h true x y k g r s = r refl
    Follows-if_part h false x y k g r s = s refl

pub pauses :
    {now : Type 0} {later : Kernel → Type 0}
    → now
    → ((g : Kernel) → later g)
    → Pause now ((a : Ptr) → Nobody a → ⊥) ((g : Kernel) → later g)
pauses n l = record { before = n; intact = λ a e. e; behind = l }

abbrev pub ready_behind : Ptr → List Ptr → List Ptr
ready_behind p q = q ++ p ∷ []

module _ (env : Env) (p : Ptr) where
  -- The end of a call.
  pub Follows-syscall_return :
      (h g : Kernel) (v : ℤ)
      → Still Nobody h g
      → Follows Nobody (ready_behind p) h (syscall_return env p v g)
  unfolding syscall_return
  Follows-syscall_return h g v s = Follows-deref Nobody (ready_behind p) h (g.pcbs p) _ g λ c at.
      let t = Still-put Nobody h g p c (returned v c) s at (refl, refl, refl) refl in
      record {
        keeps = t.keeps;
        grows = t.grows;
        chunks = t.chunks;
        limits = t.limits;
        roots = t.roots;
        queued = env.dll.append_lem g.readyq p ∙ ap (ready_behind p) t.queued;
        forks = t.forks;
      }

  pub Follows-execve_return :
      (h g : Kernel) (v : ℤ)
      → Still Nobody h g
      → Follows Nobody (ready_behind p) h (execve_return env p v g)
  unfolding execve_return make_ready
  Follows-execve_return h g v s = Follows-deref Nobody (ready_behind p) h (g.pcbs p) _ g λ c at.
      let t = Still-put Nobody h g p c (restarted v c) s at (refl, refl, refl) refl in
      record {
        keeps = t.keeps;
        grows = t.grows;
        chunks = t.chunks;
        limits = t.limits;
        roots = t.roots;
        queued = env.dll.append_lem g.readyq p ∙ ap (ready_behind p) t.queued;
        forks = t.forks;
      }
