-- ===== src/Undone.antt =====
-- do_fork and then do_exit of the child, of syscall.c.
pub mod Circle
use cs170lab.Prelude.{
  ℕ, ◌+◌, ◌*◌, ◌<◌, ◌≤◌, ◌≡◌, ◌≢◌, ◌⊎◌, ◌∙◌, refl, sym, ap, fun_ext, Bool, true, false, Option,
  none, some, [], ◌∷◌, ◌++◌, ◌&&◌, arith, ==_refl, ==_ne, update, inl, inr, ltb, ◌==◌,
  if◌then◌else◌, Bool-cases, zero, suc,
}
use mathlib.Core.Option
use cs170lab.Prelude.Int.{pos}
use cs170lab.Structs.{Ptr, Mem, Fd, Pipe, Pcb, Tree, memory_size, to_ushort}
use cs170lab.Env.{Env, entry, placed, without}
use cs170lab.Kernel.{Kernel, exited}
use cs170lab.Memory.{cleared}
use cs170lab.Pid.Fresh.{entry-placed_self}
use cs170lab.Syscall.{returned}
use cs170lab.Syscall.Fork.{do_fork}
use cs170lab.Syscall.Fork.Counts.{refers, counted, counted_ext}
use cs170lab.Syscall.Fork.Child.{Forks, Born, do_fork-Born}
use cs170lab.Syscall.Exit.{do_exit}
use cs170lab.Syscall.Exit.Rounds.{Alive, Counts, Owned}
use cs170lab.Syscall.Exit.Release.{Distinct, Released}
use cs170lab.Syscall.Exit.Leaf.{Leaves, gone, do_exit-gone}

-- What is left of the child at `child` when it has ended, between `h` before the call of `fork` and `k` behind the
-- child's call of `exit`: nothing but its structures and its entry among the zombies of its parent `p`.
pub record Undone (h k : Kernel) (p child : Ptr) (c : Pcb) (i : ℕ) : Type 0 where
  pub pipes : k.pipes ≡ h.pipes
  pub chunks : k.memory_chunk ≡ h.memory_chunk
  pub descriptors : (a : Ptr) → a < h.next → k.fds a ≡ h.fds a
  pub memory :
      (x : ℕ)
      → (x < i * h.user_limit) ⊎ (i * h.user_limit + h.user_limit ≤ x)
      → k.main_memory (pos x) ≡ h.main_memory (pos x)
  pub queue : k.readyq ≡ h.readyq ++ p ∷ []
  pub e : Pcb
  pub at : k.pcbs p ≡ some e
  pub children : e.children ≡ c.children
  pub waiters : e.waiters ≡ c.waiters ++ child ∷ []

pub without-placed : (t : Tree) (x v : ℕ) → entry t x ≡ none → without (placed t x v) (x, v) ≡ t
without-placed [] x v e = rw (==_refl x, ==_refl v) refl
without-placed ((j, w) ∷ t) x v e = elim (Bool-cases (j == x)) [
  | inl hit ↦ absurd (ground (arith, e, hit))
  | inr miss ↦ elim (Bool-cases (ltb x j)) [
    | inl before ↦ rw (before, ==_refl x, ==_refl v) refl
    | inr behind ↦ rw (behind, miss) (ap (λ t. (j, w) ∷ t) (without-placed t x v (rw miss at e)))
  ]
]

pub cleared_elsewhere :
    (to n x : ℕ) (m : Mem) → (x < to) ⊎ (to + n ≤ x) → cleared to n m (pos x) ≡ m (pos x)
unfolding cleared
cleared_elsewhere to n x m out = ground arith

fitting : (j n : ℕ) → j < 65536 → ltb j n ≡ false → (n < 65536) × (to_ushort n ≡ n)
fitting j n small l = (ground (arith, l), ground (arith, l))

-- The numbers of the children of the parent are in use, and a number below 65536 is not.
module _ (env : Env) (h : Kernel) (p : Ptr) (c : Pcb) (i : ℕ) (f : Forks h p c i)
    (living : (a : Ptr) (q : Pipe) → h.pipes a ≡ some q → Alive q) (user : c.pid ≢ 0)
    (numbered : (j : ℕ) → j < 65536 → entry h.rbtree j ≡ none → entry c.children j ≡ none)
    (room : (j : ℕ) × (j < 65536) × (entry h.rbtree j ≡ none)) where
  abbrev pub new : Ptr
  new = h.next

  module _ (k : Kernel) (b : Born h k p new c i) where
    abbrev pub caller : Pcb
    caller = returned (pos (to_ushort b.pid)) (record c { children = b.tree })

    -- The least number that is not in use fits.
    pub fits : (b.pid < 65536) × (to_ushort b.pid ≡ b.pid)
    fits =
        let (j, small, free) = room in
        elim (Bool-cases (ltb j b.pid)) [
          | inl l ↦ absurd (b.least j (ground (arith, l)) free)
          | inr l ↦ fitting j b.pid small l
        ]

    -- No child of the parent has the number of the new one.
    pub unlisted : entry c.children (to_ushort b.pid) ≡ none
    unlisted = rw fits.1 (numbered b.pid fits.0 b.fresh)

    pub tree : b.tree ≡ placed c.children (to_ushort b.pid) new
    tree = b.listed unlisted

    -- The references that the child has are those of the parent.
    same : (x : Bool) (a : Ptr) → counted x k.fds b.d.fd a 64 0 ≡ counted x h.fds c.fd a 64 0
    same x a =
        counted_ext x h.fds k.fds c.fd b.d.fd a 64 0
          (λ j low high. (b.descriptors j (omega arith)).1)

    Counts-born : Counts k b.d.fd h.pipes 64 0
    Counts-born a = rw (same true a, same false a) (b.counts a)

    Owned-born : Owned k b.d.fd h.pipes 64 0
    Owned-born j low high =
        let (g, below, at, piped) = f.table j low high in
        (
          g,
          (b.descriptors j (omega arith)).1 ∙ at,
          elim piped [ inl off ↦ inl off | inr (q, e) ↦ inr (q, e, living g.my_pipe q e) ],
        )

    pub Leaves-born : Leaves k new b.d caller (to_ushort b.pid, new) h.pipes
    unfolding returned
    Leaves-born = record {
      at = b.at;
      apart = rw b.parent (λ e. absurd (omega (arith, e, f.old)));
      is = rw b.parent b.result;
      user = user;
      no_children = b.children;
      no_zombies = b.waiters;
      inside = rw (b.base, b.limit) f.to;
      listed =
          ap (λ t. entry t b.d.pid) tree
          ∙ rw b.numbered (entry-placed_self c.children (to_ushort b.pid) new unlisted);
      owned = Owned-born;
      distinct = λ j l low less high e. absurd (omega (arith, e, b.apart j l less (omega arith)));
      counts = Counts-born;
    }

    pub Undone-born :
        (fds : Ptr → Option Fd)
        → Released k fds b.d.fd 64 0
        → Undone h
            (gone env k new b.d caller (to_ushort b.pid, new) h.pipes Leaves-born fds)
            p
            new
            c
            i
    unfolding returned
    Undone-born fds r = record {
      pipes = refl;
      chunks = rw (b.chunks, b.place) (fun_ext (λ j. ground (arith, f.free)));
      descriptors = λ a low.
          r.others a (λ j l small e. absurd (omega (arith, e, (b.descriptors j (omega arith)).0)))
          ∙ b.kept a low;
      memory = λ x out.
          rw (b.base, b.limit)
            (cleared_elsewhere (i * h.user_limit) h.user_limit x k.main_memory out
              ∙ b.elsewhere x out);
      queue = b.queue;
      e = record caller {
        children = without b.tree (to_ushort b.pid, new);
        waiters = c.waiters ++ new ∷ [];
      };
      at = rw (b.parent, ==_refl p) refl;
      children = rw tree (without-placed c.children (to_ushort b.pid) new unlisted);
      waiters = refl;
    }

  -- fork by a process that is not init, and then exit of the child before anything else happens, where the numbers of
  -- the children of the parent are in use, one below 65536 is not, and all pipes count references: both calls
  -- end, and every pipe has the counts of before, no pipe is freed, the chunk of the child is free again, no other
  -- byte of memory and no descriptor that was there has changed, and the parent has its children of before and the
  -- child as the last of those that it can collect.
  pub do_fork-do_exit :
      (k1 : Kernel) × (k2 : Kernel) × (do_fork env p h ≡ exited k1)
      × (do_exit env h.next k1 ≡ exited k2)
      × Undone h k2 p h.next c i
  do_fork-do_exit =
      let (k, run, b) = do_fork-Born env h p c i f in
      let (fds, ends, r) =
        do_exit-gone env k new b.d (caller k b) (to_ushort b.pid, new) h.pipes (Leaves-born k b) in
      (
        k,
        gone env k new b.d (caller k b) (to_ushort b.pid, new) h.pipes (Leaves-born k b) fds,
        run,
        ends,
        Undone-born k b fds r,
      )
