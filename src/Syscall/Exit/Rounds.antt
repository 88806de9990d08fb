-- ===== src/Syscall/Exit/Rounds.antt =====
-- The rounds of the loop of do_exit over the descriptors, and the counts of the pipes.
use cs170lab.Prelude.{
  ℕ, suc, ◌+◌, ◌<◌, ◌≤◌, ◌≡◌, ◌≢◌, ◌∙◌, ◌⊎◌, refl, ap, Bool, true, false, not, ◌&&◌, Option, some,
  arith, ==_refl, ==_ne, ℕ_discrete, update, Bool-cases, inl, inr,
}
use mathlib.Core.Option
use native.Mathlib.Nat.{zero-add}
use cs170lab.Prelude.Int.{ℤ, pos, negsuc, ◌+ℤ◌, ◌==ℤ◌}
use cs170lab.Structs.{Ptr, Fd, Pipe, Pcb}
use cs170lab.Kernel.{Kernel, Cmd}
use cs170lab.Syscall.Fork.Counts.{refers, ends, counted, counted_ext, add_references, ends-off}
use cs170lab.Syscall.Exit.{drop_reference, exit_fd, exit_fds}

-- The pipe still counts a reference.
pub record Alive (q : Pipe) : Type 0 where
  pub readers : ℕ
  pub writers : ℕ
  pub reading : q.read_count ≡ pos readers
  pub writing : q.write_count ≡ pos writers
  pub some_left : 1 ≤ readers + writers

-- The pipes, with the references of the `n` numbers from `i` on counted on top of `base`.
abbrev pub Counts : Kernel → (ℕ → Ptr) → (Ptr → Option Pipe) → ℕ → ℕ → Type 0
Counts g fd base n i =
    (a : Ptr)
    → g.pipes a
      ≡ Option.map (add_references (counted true g.fds fd a n i) (counted false g.fds fd a n i))
          (base a)

-- The descriptors of the `n` numbers from `i` on are there, and each pipe that one refers to counts other references
-- in `base`.
abbrev pub Owned : Kernel → (ℕ → Ptr) → (Ptr → Option Pipe) → ℕ → ℕ → Type 0
Owned g fd base n i =
    (j : ℕ)
    → i ≤ j
    → j < i + n
    → (f : Fd) × (g.fds (fd j) ≡ some f)
      × ((refers f ≡ false) ⊎ ((q : Pipe) × (base f.my_pipe ≡ some q) × Alive q))

drop_add : (x : ℤ) (n : ℕ) → (x +ℤ pos (1 + n)) +ℤ negsuc 0 ≡ x +ℤ pos n
unfolding ◌+ℤ◌
drop_add (pos m) n = ground arith
drop_add (negsuc m) n = ground arith

drop_reference-add :
    (f : Fd) (q : Pipe) (r w : ℕ)
    → refers f ≡ true
    → drop_reference f (add_references (ends true f f.my_pipe + r) (ends false f f.my_pipe + w) q)
      ≡ add_references r w q
drop_reference-add f q r w on = elim (Bool-cases f.is_read) [
  | inl reading ↦ rw (on, ==_refl f.my_pipe, reading, drop_add q.read_count r, zero-add w) refl
  | inr writing ↦ rw (on, ==_refl f.my_pipe, writing, drop_add q.write_count w, zero-add r) refl
]

unfreed :
    (r w u v : ℕ)
    → 1 ≤ u + v
    → (((pos u +ℤ pos r) ==ℤ pos 0) && ((pos v +ℤ pos w) ==ℤ pos 0)) ≡ false
unfolding ◌+ℤ◌
unfreed r w u v l = ground arith

Alive-unfreed :
    (q : Pipe) (r w : ℕ)
    → Alive q
    → (((q.read_count +ℤ pos r) ==ℤ pos 0) && ((q.write_count +ℤ pos w) ==ℤ pos 0)) ≡ false
Alive-unfreed q r w l = rw (l.reading, l.writing) (unfreed r w l.readers l.writers l.some_left)

flip : (a b : Bool) → (a && b) ≡ (b && a)
flip true true = refl
flip true false = refl
flip false true = refl
flip false false = refl

-- The kernel behind the round that closes the descriptor `f` at `a`, where `q` is what is left of its pipe.
abbrev pub let_go : Kernel → Ptr → Fd → Pipe → Kernel
let_go g a f q = record g {
  pipes = update g.pipes f.my_pipe (some q);
  fds = update g.fds a (some (record f { is_open = false }));
}

-- Does the pipe count no reference any more?
abbrev unused : Pipe → Bool
unused q = (q.read_count ==ℤ pos 0) && (q.write_count ==ℤ pos 0)

exit_fd-dropped :
    (a : Ptr) (k : Unit {0} → Cmd) (g : Kernel) (f : Fd) (x : Pipe)
    → g.fds a ≡ some f
    → g.pipes f.my_pipe ≡ some x
    → unused (drop_reference f x) ≡ false
    → exit_fd a k g ≡ k tt (let_go g a f (drop_reference f x))
unfolding exit_fd ◌+ℤ◌
exit_fd-dropped a k g f x is e live = rw (is, e, ==_refl f.my_pipe, live, is) refl

exit_fd-let_go :
    (a : Ptr) (k : Unit {0} → Cmd) (g : Kernel) (f : Fd) (q : Pipe) (r w : ℕ)
    → g.fds a ≡ some f
    → refers f ≡ true
    → g.pipes f.my_pipe
      ≡ some (add_references (ends true f f.my_pipe + r) (ends false f f.my_pipe + w) q)
    → Alive q
    → exit_fd a k g ≡ k tt (let_go g a f (add_references r w q))
exit_fd-let_go a k g f q r w is on e alive =
    exit_fd-dropped a k g f _ is e (ap unused dropped ∙ Alive-unfreed q r w alive)
    ∙ ap (λ y. k tt (let_go g a f y)) dropped
  where
    dropped :
        drop_reference f (add_references (ends true f f.my_pipe + r) (ends false f f.my_pipe + w) q)
        ≡ add_references r w q
    dropped = drop_reference-add f q r w on

module _ (p : Ptr) (c : Pcb) (base : Ptr → Option Pipe) (k : Unit {0} → Cmd) where
  pub skip :
      (n i : ℕ) (g : Kernel) (f : Fd)
      → g.pcbs p ≡ some c
      → g.fds (c.fd i) ≡ some f
      → refers f ≡ false
      → exit_fds (suc n) i p k g ≡ exit_fds n (i + 1) p k g
  unfolding exit_fds
  skip n i g f at is off = rw (at, is, flip (not f.console) f.is_open, off) refl

  pub drop :
      (n i : ℕ) (g : Kernel) (f : Fd) (q : Pipe) (r w : ℕ)
      → g.pcbs p ≡ some c
      → g.fds (c.fd i) ≡ some f
      → refers f ≡ true
      → g.pipes f.my_pipe
        ≡ some (add_references (ends true f f.my_pipe + r) (ends false f f.my_pipe + w) q)
      → Alive q
      → exit_fds (suc n) i p k g
        ≡ exit_fds n (i + 1) p k (let_go g (c.fd i) f (add_references r w q))
  unfolding exit_fds
  drop n i g f q r w at is on e alive =
      rw (at, is, flip (not f.console) f.is_open, on)
        (exit_fd-let_go (c.fd i) (λ _. exit_fds n (i + 1) p k) g f q r w is on e alive)

  -- The counts behind a round.
  pub Counts-skip :
      (n i : ℕ) (g : Kernel) (f : Fd)
      → g.fds (c.fd i) ≡ some f
      → refers f ≡ false
      → Counts g c.fd base (suc n) i
      → Counts g c.fd base n (i + 1)
  Counts-skip n i g f is off all a =
      rw (is, ends-off true f a off, ends-off false f a off, zero-add, zero-add) at (all a)

  -- The rounds behind the first one look at other descriptors.
  module _ (n i : ℕ) (g : Kernel) (f : Fd) (q : Pipe)
      (other : (j : ℕ) → i + 1 ≤ j → j < i + 1 + n → c.fd i ≢ c.fd j) where
    abbrev pub next_kernel : Kernel
    next_kernel = let_go g (c.fd i) f (
        add_references (counted true g.fds c.fd f.my_pipe n (i + 1))
          (counted false g.fds c.fd f.my_pipe n (i + 1)) q)

    kept : (j : ℕ) → i + 1 ≤ j → j < i + 1 + n → next_kernel.fds (c.fd j) ≡ g.fds (c.fd j)
    kept j low high = rw (==_ne (c.fd i) (c.fd j) (other j low high)) refl

    pub Counts-drop :
        g.fds (c.fd i) ≡ some f
        → base f.my_pipe ≡ some q
        → Counts g c.fd base (suc n) i
        → Counts next_kernel c.fd base n (i + 1)
    Counts-drop is e all a =
        rw
          (
            counted_ext true g.fds next_kernel.fds c.fd c.fd a n (i + 1) kept,
            counted_ext false g.fds next_kernel.fds c.fd c.fd a n (i + 1) kept,
          )
          (elim (ℕ_discrete f.my_pipe a) [
            | yes hit ↦ rw (← hit, ==_refl f.my_pipe, e) refl
            | no miss ↦ rw (==_ne f.my_pipe a miss) (away a miss)
          ])
      where
        away :
            (a : Ptr)
            → f.my_pipe ≢ a
            → g.pipes a
              ≡ Option.map
                  (add_references
                    (counted true g.fds c.fd a n (i + 1))
                    (counted false g.fds c.fd a n (i + 1)))
                  (base a)
        away a miss =
            rw (is, ends-away true a miss, ends-away false a miss, zero-add, zero-add) at (all a)
          where
            ends-away : (b : Bool) (a : Ptr) → f.my_pipe ≢ a → ends b f a ≡ 0
            ends-away b a miss =
                rw (==_ne f.my_pipe a miss)
                  (elim (Bool-cases (refers f)) [ inl x ↦ rw x refl | inr x ↦ rw x refl ])

    pub Owned-drop : Owned g c.fd base (suc n) i → Owned next_kernel c.fd base n (i + 1)
    Owned-drop own j low high =
        let (f', at, piped) = own j (omega arith) (omega arith) in (f', kept j low high ∙ at, piped)
