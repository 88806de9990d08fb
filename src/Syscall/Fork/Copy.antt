-- ===== src/Syscall/Fork/Copy.antt =====
-- The loop of do_fork over the descriptors: the child gets descriptors of its own with the same contents.
use cs170lab.Prelude.{
  ℕ, zero, suc, ◌+◌, ◌<◌, ◌≤◌, ◌≡◌, ◌≢◌, ◌⊎◌, inl, inr, ◌∙◌, refl, Bool, true, false, some, arith,
  ==_refl, ==_ne, update, ℕ_discrete, Bool-cases, sym, Option,
}
use cs170lab.Structs.{Ptr, Fd, Pipe, Pcb}
use cs170lab.Kernel.{Kernel, Cmd}
use mathlib.Core.Option
use cs170lab.Syscall.Fork.{add_reference, copy_fds}
use cs170lab.Syscall.Fork.Counts.{
  refers, ends, counted, counted_ext, add_references, map-zero, map-add, ends-off, referred,
}

-- The `n` descriptors from number `i` on are there, at addresses below `top`, and so is the pipe of
-- each that refers to one.
abbrev pub Copyable : Kernel → (ℕ → Ptr) → Ptr → ℕ → ℕ → Type 0
Copyable h fd top i n =
    (j : ℕ)
    → i ≤ j
    → j < i + n
    → (f : Fd) × (fd j < top)
      × (h.fds (fd j) ≡ some f)
      × ((refers f ≡ false) ⊎ ((q : Pipe) × (h.pipes f.my_pipe ≡ some q)))

-- What the rounds over the numbers from `i` on do to the kernel `h`, where `d` is the structure of
-- the child: `h'` differs in the child's table and in descriptors and pipes alone, no descriptor
-- that was there has changed, and the child's numbers from `i` on have copies at new addresses. Each
-- pipe counts one reference more for each of those numbers that refers to it.
pub record Copies (h h' : Kernel) (child : Ptr) (d : Pcb) (from : ℕ → Ptr) (i n : ℕ) : Type 0 where
  pub memory : h'.main_memory ≡ h.main_memory
  pub queue : h'.readyq ≡ h.readyq
  pub chunks : h'.memory_chunk ≡ h.memory_chunk
  pub numbers : h'.rbtree ≡ h.rbtree
  pub semaphores : h'.sems ≡ h.sems
  pub forked : h'.forked ≡ h.forked
  pub others : (a : Ptr) → a ≢ child → h'.pcbs a ≡ h.pcbs a
  pub kept : (a : Ptr) → a < h.next → h'.fds a ≡ h.fds a
  pub fd : ℕ → Ptr
  pub at : h'.pcbs child ≡ some (record d { fd = fd })
  pub before : (j : ℕ) → j < i → fd j ≡ d.fd j
  pub copied : (j : ℕ) → i ≤ j → j < i + n → (h.next ≤ fd j) × (h'.fds (fd j) ≡ h.fds (from j))
  pub apart : (j l : ℕ) → i ≤ j → j < l → l < i + n → fd j < fd l
  pub piped :
      (a : Ptr)
      → h'.pipes a
        ≡ Option.map
            (add_references (counted true h.fds from a n i) (counted false h.fds from a n i))
            (h.pipes a)

-- The kernel behind the round for number `i`, whose descriptor is `f`, but for the pipe.
abbrev pub round : Kernel → Ptr → Pcb → ℕ → Fd → Kernel
round h child d i f = record h {
  next = h.next + 1;
  pcbs = update h.pcbs child (some (record d { fd = update d.fd i h.next }));
  fds = update h.fds h.next (some f);
}

-- Each pipe counts the reference `f` more.
abbrev pub Adds : Fd → (Ptr → Option Pipe) → (Ptr → Option Pipe) → Type 0
Adds f pipes pipes' =
    (a : Ptr) → pipes' a ≡ Option.map (add_references (ends true f a) (ends false f a)) (pipes a)

Adds-off : (f : Fd) (pipes : Ptr → Option Pipe) → refers f ≡ false → Adds f pipes pipes
Adds-off f pipes off a = rw (ends-off true f a off, ends-off false f a off, map-zero (pipes a)) refl

module _ (p child : Ptr) (c : Pcb) (apart : p ≢ child) (k : Unit {0} → Cmd) where
  copy_round :
      (n i : ℕ) (h : Kernel) (d : Pcb) (f : Fd)
      → h.pcbs p ≡ some c
      → h.pcbs child ≡ some d
      → c.fd i < h.next
      → h.fds (c.fd i) ≡ some f
      → (refers f ≡ false) ⊎ ((q : Pipe) × (h.pipes f.my_pipe ≡ some q))
      → (pipes : Ptr → Option Pipe) × (copy_fds (suc n) i p child k h
          ≡ copy_fds n (i + 1) p child k (record (round h child d i f) { pipes = pipes }))
        × Adds f h.pipes pipes
  unfolding copy_fds
  copy_round n i h d f at is low there (inl off) =
      (h.pipes, rw (is, ==_ne child p (λ e. apart (sym e)), at, there, off), Adds-off f h.pipes off)
  copy_round n i h d f at is low there (inr (q, e)) = elim (Bool-cases (refers f)) [
    | inl on ↦ (
      update h.pipes f.my_pipe (some (add_reference f q)),
      rw (is, ==_ne child p (λ e. apart (sym e)), at, there, on, e),
      λ a. referred f q h.pipes a on e,
    )
    | inr off ↦ (
      h.pipes,
      rw (is, ==_ne child p (λ e. apart (sym e)), at, there, off),
      Adds-off f h.pipes off,
    )
  ]

  -- The rounds behind the first one.
  Copyable-round :
      (n i : ℕ) (top : Ptr) (h : Kernel) (d : Pcb) (f : Fd) (pipes : Ptr → Option Pipe)
      → top ≤ h.next
      → Copyable h c.fd top i (suc n)
      → Adds f h.pipes pipes
      → Copyable (record (round h child d i f) { pipes = pipes }) c.fd top (i + 1) n
  Copyable-round n i top h d f pipes new there more j low high =
      let (g, below, at, piped) = there j (omega arith) (omega arith) in
      (
        g,
        below,
        rw (==_ne h.next (c.fd j) (λ e. absurd (omega arith))) at,
        elim piped [
          | inl off ↦ inl off
          | inr (q, e) ↦ inr (
            add_references (ends true f g.my_pipe) (ends false f g.my_pipe) q,
            rw (more g.my_pipe, e) refl,
          )
        ],
      )

  Copies-round :
      (n i : ℕ) (top : Ptr) (h h' : Kernel) (d : Pcb) (f : Fd) (pipes : Ptr → Option Pipe)
      → top ≤ h.next
      → Copyable h c.fd top i (suc n)
      → h.fds (c.fd i) ≡ some f
      → Adds f h.pipes pipes
      → Copies
          (record (round h child d i f) { pipes = pipes })
          h'
          child
          (record d { fd = update d.fd i h.next })
          c.fd
          (i + 1)
          n
      → Copies h h' child d c.fd i (suc n)
  Copies-round n i top h h' d f pipes new there is more r = record {
    memory = r.memory;
    queue = r.queue;
    chunks = r.chunks;
    numbers = r.numbers;
    semaphores = r.semaphores;
    forked = r.forked;
    others = λ a e. r.others a e ∙ rw (==_ne child a (λ e'. e (sym e')));
    kept = λ a low. r.kept a (omega arith) ∙ rw (==_ne h.next a (λ e. absurd (omega arith)));
    fd = r.fd;
    at = r.at;
    before = λ j low. r.before j (omega arith) ∙ rw (==_ne i j (λ e. absurd (omega arith)));
    copied = λ j low high. elim (ℕ_discrete j i) [
      | yes e ↦ rw e (here)
      | no e ↦ later j (omega arith) (omega arith)
    ];
    apart = λ j l low less high. elim (ℕ_discrete j i) [
      | yes e ↦
          let (above, same) = r.copied l (omega arith) (omega arith) in
          rw e (omega (arith, place, above))
      | no e ↦ r.apart j l (omega arith) less (omega arith)
    ];
    piped = λ a.
        r.piped a ∙ rw (older true a, older false a, more a, map-add _ _ _ _ (h.pipes a), is) refl;
  }
    where
      place : r.fd i ≡ h.next
      place = r.before i (omega arith) ∙ rw (==_refl i)

      here : (h.next ≤ r.fd i) × (h'.fds (r.fd i) ≡ h.fds (c.fd i))
      here =
          (omega (arith, place), rw (place, is) (r.kept h.next (omega arith) ∙ rw (==_refl h.next)))

      older :
          (b : Bool) (a : Ptr)
          → counted b (update h.fds h.next (some f)) c.fd a n (i + 1)
            ≡ counted b h.fds c.fd a n (i + 1)
      older b a =
          counted_ext b h.fds (update h.fds h.next (some f)) c.fd c.fd a n (i + 1) λ j low high.
            let (g, below, at, piped) = there j (omega arith) (omega arith) in
            rw (==_ne h.next (c.fd j) (λ e. absurd (omega arith))) refl

      later :
          (j : ℕ)
          → i + 1 ≤ j
          → j < i + 1 + n
          → (h.next ≤ r.fd j) × (h'.fds (r.fd j) ≡ h.fds (c.fd j))
      later j low high =
          let (g, below, at, piped) = there j (omega arith) (omega arith) in
          let (above, same) = r.copied j low high in
          (omega arith, same ∙ rw (==_ne h.next (c.fd j) (λ e. absurd (omega arith))))

  -- The loop ends, and the child has its copies.
  pub copy_fds-Copies :
      (n i : ℕ) (top : Ptr) (h : Kernel) (d : Pcb)
      → top ≤ h.next
      → h.pcbs p ≡ some c
      → h.pcbs child ≡ some d
      → Copyable h c.fd top i n
      → (h' : Kernel) × (copy_fds n i p child k h ≡ k tt h') × Copies h h' child d c.fd i n
  unfolding copy_fds
  copy_fds-Copies zero i top h d new at is there = (
    h,
    refl,
    record {
      memory = refl;
      queue = refl;
      chunks = refl;
      numbers = refl;
      semaphores = refl;
      forked = refl;
      others = λ a e. refl;
      kept = λ a low. refl;
      fd = d.fd;
      at = is;
      before = λ j low. refl;
      copied = λ j low high. absurd (omega arith);
      apart = λ j l low less high. absurd (omega arith);
      piped = λ a. sym (map-zero (h.pipes a));
    },
  )
  copy_fds-Copies (suc n) i top h d new at is there =
      let (f, low, e, piped) = there i (omega arith) (omega arith) in
      let (pipes, run, more) = copy_round n i h d f at is (omega arith) e piped in
      let (h', rest, r) =
        copy_fds-Copies n (i + 1) top (record (round h child d i f) { pipes = pipes })
          (record d { fd = update d.fd i h.next }) (omega arith)
          (rw (==_ne child p (λ e'. apart (sym e'))) at) (rw (==_refl child))
          (Copyable-round n i top h d f pipes new there more) in
      (h', run ∙ rest, Copies-round n i top h h' d f pipes new there e more r)
