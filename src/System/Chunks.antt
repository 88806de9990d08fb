-- ===== src/System/Chunks.antt =====
-- exit gives the chunk of memory of a process back, and fork takes one for a new process.
use mathlib.Core.Option.{some-injective}
use cs170lab.Prelude.{
  ℕ, ◌<◌, ◌≤◌, ◌≡◌, ◌≢◌, ◌∙◌, refl, sym, ap, some, [], arith, ==_refl, ==_ne, update, ℕ_discrete,
}
use cs170lab.Structs.{Ptr, Pcb}
use cs170lab.Env.{Env}
use cs170lab.Kernel.{Kernel}
use cs170lab.Syscall.Fork.Chunk.{with_child}
use cs170lab.Threads.{Pcbs, Zombie}
use cs170lab.Threads.Spawning.{Housed, spawned}
use cs170lab.System.Sound.{Placed, Sound}

-- The chunk of `p`, which goes away, is free.
pub Sound-free :
    (h : Kernel) (p : Ptr) (c : Pcb) (n m : Ptr → ℕ)
    → Sound h n
    → 1 ≤ n p
    → h.pcbs p ≡ some c
    → ((x : Ptr) → m x ≤ n x)
    → m p ≡ 0
    → Sound (record h { memory_chunk = update h.memory_chunk c.memory_num 0 }) m
Sound-free h p c n m s here at less gone = record {
  once = λ x. omega (arith, s.once x, less x);
  placed = placed;
  apart = λ x y d e a b. s.apart x y d e (omega (arith, less x)) (omega (arith, less y));
  zombies = s.zombies;
  whole = s.whole;
  root = record {
    d = s.root.d;
    at = s.root.at;
    nowhere = omega (arith, s.root.nowhere, less h.init);
    alive = s.root.alive;
    old = s.root.old;
  };
}
  where
    placed :
        (x : Ptr)
        → 1 ≤ m x
        → Placed (record h { memory_chunk = update h.memory_chunk c.memory_num 0 }) x
    placed x l =
        let a = s.placed x (omega (arith, less x)) in
        let other : p ≢ x = λ e. absurd (omega (arith, gone, rw (sym e) at l)) in
        let differ : c.memory_num ≢ a.c.memory_num =
          s.apart p x c a.c here (omega (arith, less x)) other at a.at in
        record {
          c = a.c;
          at = a.at;
          number = a.number;
          base = a.base;
          limit = a.limit;
          taken = rw (==_ne c.memory_num a.c.memory_num differ) a.taken;
          old = a.old;
          alive = a.alive;
        }

-- A structure with an empty list makes no zombie.
pub Zombie-put :
    (f : Pcbs) (a z : Ptr) (d : Pcb) → d.waiters ≡ [] → Zombie (update f a (some d)) z → Zombie f z
Zombie-put f a z d none (b, c, is, m) = elim (ℕ_discrete a b) [
  | yes e ↦
      absurd (
        rw (ap (λ c. c.waiters) (some-injective c d (sym is ∙ rw (e, ==_refl b) refl)) ∙ none) at m)
  | no e ↦ (b, c, rw (==_ne a b e) at is, m)
]

-- A structure at a new address is no process yet.
pub Sound-with_child :
    (env : Env) (h : Kernel) (n : Ptr → ℕ)
    → env.uninit_pcb.waiters ≡ []
    → Sound h n
    → Sound (with_child env h) n
Sound-with_child env h n clean s = record {
  once = s.once;
  placed = λ x p.
      let a = s.placed x p in
      record {
        c = a.c;
        at = rw (==_ne h.next x (new x p)) a.at;
        number = a.number;
        base = a.base;
        limit = a.limit;
        taken = a.taken;
        old = omega (arith, a.old);
        alive = λ m. a.alive (Zombie-put h.pcbs h.next x env.uninit_pcb clean m);
      };
  apart = λ x y c d p q e at is.
      s.apart x y c d p q e (rw (==_ne h.next x (new x p)) at at)
        (rw (==_ne h.next y (new y q)) at is);
  zombies = λ z m. omega (arith, s.zombies z (Zombie-put h.pcbs h.next z env.uninit_pcb clean m));
  whole = s.whole;
  root = record {
    d = s.root.d;
    at = rw (==_ne h.next h.init (λ e. absurd (omega (arith, e, s.root.old)))) s.root.at;
    nowhere = s.root.nowhere;
    alive = λ m. s.root.alive (Zombie-put h.pcbs h.next h.init env.uninit_pcb clean m);
    old = omega (arith, s.root.old);
  };
}
  where
    new : (x : Ptr) → 1 ≤ n x → h.next ≢ x
    new x p e = absurd (omega (arith, (s.placed x p).old))

-- A child in a chunk that was free.
module _ (h : Kernel) (n m : Ptr → ℕ) (i : ℕ) (d : Pcb) (s : Sound h n) (small : i < 8)
    (free : h.memory_chunk i ≡ 0) (housed : Housed h i d) (one : m h.next ≤ 1)
    (less : (x : Ptr) → h.next ≢ x → m x ≤ n x) where
  -- A process that was there has another chunk.
  before : (x : Ptr) → h.next ≢ x → 1 ≤ m x → (a : Placed h x) → i ≢ a.c.memory_num
  before x e l a same = a.taken (rw (sym same) free)

  Placed-spawned : (x : Ptr) → 1 ≤ m x → Placed (spawned h i d) x
  Placed-spawned x l = elim (ℕ_discrete h.next x) [
    | yes e ↦ record {
      c = d;
      at = rw (e, ==_refl x);
      number = rw housed.number small;
      base = rw (housed.base, housed.number, s.whole);
      limit = housed.limit ∙ s.whole;
      taken = λ z. absurd (omega (arith, rw (housed.number, ==_refl i) at z));
      old = omega arith;
      alive =
          λ z. absurd (omega (arith, s.zombies x (Zombie-put h.pcbs h.next x d housed.waiters z)));
    }
    | no e ↦
        let a = s.placed x (omega (arith, less x e)) in
        record {
          c = a.c;
          at = rw (==_ne h.next x e) a.at;
          number = a.number;
          base = a.base;
          limit = a.limit;
          taken = rw (==_ne i a.c.memory_num (before x e l a)) a.taken;
          old = omega (arith, a.old);
          alive = λ z. a.alive (Zombie-put h.pcbs h.next x d housed.waiters z);
        }
  ]

  pub Sound-spawned : Sound (spawned h i d) m
  Sound-spawned = record {
    once = λ x. elim (ℕ_discrete h.next x) [
      | yes e ↦ rw (sym e) one
      | no e ↦ omega (arith, less x e, s.once x)
    ];
    placed = Placed-spawned;
    apart = apart;
    zombies = λ z w. omega (arith, s.zombies z (Zombie-put h.pcbs h.next z d housed.waiters w));
    whole = s.whole;
    root = record {
      d = s.root.d;
      at = rw (==_ne h.next h.init (λ e. absurd (omega (arith, e, s.root.old)))) s.root.at;
      nowhere =
          omega (arith, s.root.nowhere, less h.init (λ e. absurd (omega (arith, e, s.root.old))));
      alive = λ z. s.root.alive (Zombie-put h.pcbs h.next h.init d housed.waiters z);
      old = omega (arith, s.root.old);
    };
  }
    where
      -- The child and a process that was there.
      child_apart :
          (x : Ptr) (c : Pcb)
          → h.next ≢ x
          → 1 ≤ m x
          → h.pcbs x ≡ some c
          → d.memory_num ≢ c.memory_num
      child_apart x c e l at same =
          let a = s.placed x (omega (arith, less x e)) in
          before x e l a (
            sym housed.number
            ∙ same
            ∙ ap (λ c. c.memory_num) (some-injective c a.c (sym at ∙ a.at)))

      apart :
          (x y : Ptr) (a b : Pcb)
          → 1 ≤ m x
          → 1 ≤ m y
          → x ≢ y
          → update h.pcbs h.next (some d) x ≡ some a
          → update h.pcbs h.next (some d) y ≡ some b
          → a.memory_num ≢ b.memory_num
      apart x y a b p q e at is = elim (ℕ_discrete h.next x) [
        | yes l ↦
            let r : h.next ≢ y = λ z. e (sym l ∙ z) in
            rw (some-injective a d (sym at ∙ rw (l, ==_refl x) refl))
              (child_apart y b r q (rw (==_ne h.next y r) at is))
        | no l ↦ elim (ℕ_discrete h.next y) [
          | yes r ↦ λ z.
              child_apart x a l p (rw (==_ne h.next x l) at at)
                (ap (λ c. c.memory_num) (some-injective d b (rw (r, ==_refl y) refl ∙ is)) ∙ sym z)
          | no r ↦
              s.apart x y a b (omega (arith, less x l)) (omega (arith, less y r)) e
                (rw (==_ne h.next x l) at at) (rw (==_ne h.next y r) at is)
        ]
      ]
