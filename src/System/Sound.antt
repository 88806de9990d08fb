-- ===== src/System/Sound.antt =====
-- What the scheduler and the system calls rely on: the places of the processes, and their chunks of memory.
use mathlib.Core.Option.{some-injective}
use cs170lab.Prelude.{ℕ, ◌*◌, ◌<◌, ◌≤◌, ◌≡◌, ◌≢◌, ◌∙◌, inl, inr, sym, some, List, arith}
use cs170lab.Structs.{Ptr, Pcb}
use cs170lab.Kernel.{Kernel, Task}
use cs170lab.Threads.{Zombie, Moves, To, Nobody}

-- A process at `x`: its structure, whose chunk is one of the eight and is taken.
pub record Placed (h : Kernel) (x : Ptr) : Type 0 where
  pub c : Pcb
  pub at : h.pcbs x ≡ some c
  pub number : c.memory_num < 8
  pub base : c.base ≡ c.memory_num * 131072
  pub limit : c.limit ≡ 131072
  pub taken : h.memory_chunk c.memory_num ≢ 0
  pub old : x < h.next
  pub alive : Zombie h.pcbs x → ⊥

-- `init` has a structure, is at no place, and does not wait to be collected.
pub record Rooted (h : Kernel) (n : Ptr → ℕ) : Type 0 where
  pub d : Pcb
  pub at : h.pcbs h.init ≡ some d
  pub nowhere : n h.init ≡ 0
  pub alive : Zombie h.pcbs h.init → ⊥
  pub old : h.init < h.next

-- `n` is the number of places where a process is.
pub record Sound (h : Kernel) (n : Ptr → ℕ) : Type 0 where
  pub once : (x : Ptr) → n x ≤ 1
  pub placed : (x : Ptr) → 1 ≤ n x → Placed h x
  pub apart :
      (x y : Ptr) (c d : Pcb)
      → 1 ≤ n x
      → 1 ≤ n y
      → x ≢ y
      → h.pcbs x ≡ some c
      → h.pcbs y ≡ some d
      → c.memory_num ≢ d.memory_num
  pub zombies : (z : Ptr) → Zombie h.pcbs z → z < h.next
  pub whole : h.user_limit ≡ 131072
  pub root : Rooted h n

-- Processes may go away.
pub Sound-less : (h : Kernel) (n m : Ptr → ℕ) → Sound h n → ((x : Ptr) → m x ≤ n x) → Sound h m
Sound-less h n m s r = record {
  once = λ x. omega (arith, s.once x, r x);
  placed = λ x p. s.placed x (omega (arith, r x));
  apart = λ x y c d p q. s.apart x y c d (omega (arith, r x)) (omega (arith, r y));
  zombies = s.zombies;
  whole = s.whole;
  root = record {
    d = s.root.d;
    at = s.root.at;
    nowhere = omega (arith, s.root.nowhere, r h.init);
    alive = s.root.alive;
    old = s.root.old;
  };
}

-- What a thread does between two waits keeps all that is placed.
pub Sound-Moves :
    (E : Ptr → Type 0) (h g : Kernel) (q e : List Ptr) (tasks : List Task) (n : Ptr → ℕ)
    → Sound h n
    → Moves E h g.pcbs g.next g.memory_chunk g.user_limit g.init q e tasks
    → ((x : Ptr) → 1 ≤ n x → E x → ⊥)
    → ((z : Ptr) → E z → z < h.next)
    → (E h.init → ⊥)
    → Sound g n
Sound-Moves E h g q e tasks n s t other low stays = record {
  once = s.once;
  placed = placed;
  apart = λ x y c d p l differ at is.
      let a = s.placed x p in
      let b = s.placed y l in
      let (c', at', same) = t.keeps.kept x a.c a.alive (other x p) a.at in
      let (d', is', same') = t.keeps.kept y b.c b.alive (other y l) b.at in
      rw (some-injective c c' (sym at ∙ at'), same.0, some-injective d d' (sym is ∙ is'), same'.0)
        (s.apart x y a.c b.c p l differ a.at b.at);
  zombies = λ z m. elim (t.keeps.zombies z m) [
    | inl m' ↦ omega (arith, s.zombies z m', t.grows)
    | inr e ↦ omega (arith, low z e, t.grows)
  ];
  whole = t.limits ∙ s.whole;
  root = rooted;
}
  where
    rooted : Rooted g n
    rooted =
        let (c', at', same) = t.keeps.kept h.init s.root.d s.root.alive stays s.root.at in
        record {
          d = c';
          at = rw t.roots at';
          nowhere = rw t.roots s.root.nowhere;
          alive = λ m. elim (t.keeps.zombies h.init (rw t.roots at m)) [
            | inl m' ↦ s.root.alive m'
            | inr e ↦ stays e
          ];
          old = rw t.roots (omega (arith, s.root.old, t.grows));
        }

    placed : (x : Ptr) → 1 ≤ n x → Placed g x
    placed x p =
        let a = s.placed x p in
        let (c', at', same) = t.keeps.kept x a.c a.alive (other x p) a.at in
        record {
          c = c';
          at = at';
          number = rw same.0 a.number;
          base = rw (same.1, same.0) a.base;
          limit = same.2 ∙ a.limit;
          taken = rw (t.chunks, same.0) a.taken;
          old = omega (arith, a.old, t.grows);
          alive = λ m. elim (t.keeps.zombies x m) [ inl m' ↦ a.alive m' | inr e ↦ other x p e ];
        }

pub Sound-To :
    (E : Ptr → Type 0) (h g : Kernel) (q : List Ptr) (n : Ptr → ℕ)
    → Sound h n
    → To E h g q
    → ((x : Ptr) → 1 ≤ n x → E x → ⊥)
    → ((z : Ptr) → E z → z < h.next)
    → (E h.init → ⊥)
    → Sound g n
Sound-To E h g q = Sound-Moves E h g g.readyq q g.forked

-- The scheduler's bookkeeping: the structures and the chunks stay, whatever becomes of the queues.
pub Sound-same :
    (h g : Kernel) (n m : Ptr → ℕ)
    → Sound h n
    → Moves Nobody h g.pcbs g.next g.memory_chunk g.user_limit g.init h.readyq h.readyq h.forked
    → ((x : Ptr) → m x ≤ n x)
    → Sound g m
Sound-same h g n m s t = Sound-less g n m (
    Sound-Moves Nobody h g h.readyq h.readyq h.forked n s t (λ x l e. e) (λ z e. absurd e) (λ e. e))
