-- ===== src/Syscall/Exit/Release.antt =====
-- The loop of do_exit over the descriptors.
use cs170lab.Prelude.{
  ℕ, zero, suc, ◌+◌, ◌<◌, ◌≤◌, ◌≡◌, ◌≢◌, ◌∙◌, refl, sym, ap, fun_ext, true, false, Option, some,
  arith, ==_ne, ==_refl, ℕ_discrete, Bool-cases, inl, inr,
}
use cs170lab.Structs.{Ptr, Fd, Pipe, Pcb}
use cs170lab.Kernel.{Kernel, Cmd}
use cs170lab.Syscall.Fork.Counts.{refers, map-zero}
use cs170lab.Syscall.Exit.{exit_fds}
use cs170lab.Syscall.Exit.Rounds.{
  Alive, Counts, Owned, let_go, skip, drop, Counts-skip, Counts-drop, Owned-drop, next_kernel,
}

-- What the loop leaves: the pipes are those of `base`, the `n` numbers from `i` on refer to no pipe any more, and the
-- other descriptors are as before.
pub record Released (g : Kernel) (fds : Ptr → Option Fd) (fd : ℕ → Ptr) (n i : ℕ) : Type 0 where
  pub closed : (j : ℕ) → i ≤ j → j < i + n → (f : Fd) × (fds (fd j) ≡ some f) × (refers f ≡ false)
  pub others : (a : Ptr) → ((j : ℕ) → i ≤ j → j < i + n → fd j ≢ a) → fds a ≡ g.fds a

-- The descriptors of the `n` numbers from `i` on are different structures.
abbrev pub Distinct : (ℕ → Ptr) → ℕ → ℕ → Type 0
Distinct fd n i = (j l : ℕ) → i ≤ j → j < l → l < i + n → fd j ≢ fd l

Released-skip :
    (g : Kernel) (fds : Ptr → Option Fd) (fd : ℕ → Ptr) (n i : ℕ) (f : Fd)
    → g.fds (fd i) ≡ some f
    → refers f ≡ false
    → Distinct fd (suc n) i
    → Released g fds fd n (i + 1)
    → Released g fds fd (suc n) i
Released-skip g fds fd n i f is off apart r = record {
  closed = λ j low high. elim (ℕ_discrete j i) [
    | yes e ↦ (
      f,
      rw e (
          r.others (fd i)
            (λ l low' high' e'. apart i l (omega arith) (omega arith) (omega arith) (sym e'))
          ∙ is),
      off,
    )
    | no e ↦ r.closed j (omega arith) (omega arith)
  ];
  others = λ a out. r.others a (λ j low high. out j (omega arith) (omega arith));
}

Released-drop :
    (g : Kernel) (fds : Ptr → Option Fd) (fd : ℕ → Ptr) (n i : ℕ) (f : Fd) (q : Pipe)
    → Distinct fd (suc n) i
    → Released (let_go g (fd i) f q) fds fd n (i + 1)
    → Released g fds fd (suc n) i
Released-drop g fds fd n i f q apart r = record {
  closed = λ j low high. elim (ℕ_discrete j i) [
    | yes e ↦ (
      record f { is_open = false },
      rw e (
          r.others (fd i)
            (λ l low' high' e'. apart i l (omega arith) (omega arith) (omega arith) (sym e'))
          ∙ rw (==_refl (fd i)) refl),
      refl,
    )
    | no e ↦ r.closed j (omega arith) (omega arith)
  ];
  others = λ a out.
      r.others a (λ j low high. out j (omega arith) (omega arith))
      ∙ rw (==_ne (fd i) a (out i (omega arith) (omega arith))) refl;
}

module _ (p : Ptr) (c : Pcb) (base : Ptr → Option Pipe) (k : Unit {0} → Cmd) where
  abbrev Ends : ℕ → ℕ → Kernel → Type 0
  Ends n i g =
      (fds : Ptr → Option Fd) × (exit_fds n i p k g ≡ k tt (record g { pipes = base; fds = fds }))
      × Released g fds c.fd n i

  -- What is claimed of the `n` rounds from number `i` on.
  abbrev Frees : ℕ → ℕ → Type 0
  Frees n i =
      (g : Kernel)
      → g.pcbs p ≡ some c
      → Owned g c.fd base n i
      → Distinct c.fd n i
      → Counts g c.fd base n i
      → Ends n i g

  module _ (n i : ℕ) (rest : Frees n (i + 1)) (g : Kernel) (at : g.pcbs p ≡ some c)
      (own : Owned g c.fd base (suc n) i) (apart : Distinct c.fd (suc n) i)
      (all : Counts g c.fd base (suc n) i) (f : Fd) (is : g.fds (c.fd i) ≡ some f) where
    later : Distinct c.fd n (i + 1)
    later j l low less high = apart j l (omega arith) less (omega arith)

    passes : refers f ≡ false → Ends (suc n) i g
    passes off =
        let (fds, run, r) =
          rest g at (λ j low high. own j (omega arith) (omega arith)) later
            (Counts-skip p c base k n i g f is off all) in
        (
          fds,
          skip p c base k n i g f at is off ∙ run,
          Released-skip g fds c.fd n i f is off apart r,
        )

    lets_go : (q : Pipe) → base f.my_pipe ≡ some q → Alive q → refers f ≡ true → Ends (suc n) i g
    lets_go q e alive on =
        let other : (j : ℕ) → i + 1 ≤ j → j < i + 1 + n → c.fd i ≢ c.fd j =
          (λ j low high. apart i j (omega arith) (omega arith) (omega arith)) in
        let (fds, run, r) =
          rest (next_kernel p c base k n i g f q other) at
            (Owned-drop p c base k n i g f q other own) later
            (Counts-drop p c base k n i g f q other is e all) in
        (
          fds,
          drop p c base k n i g f q _ _ at is on (rw (e, is) at (all f.my_pipe)) alive ∙ run,
          Released-drop g fds c.fd n i f _ apart r,
        )

  -- The loop over descriptors that are different structures ends, and takes from each pipe exactly the references
  -- of the table, while other references keep it.
  pub exit_fds-Released : (n i : ℕ) → Frees n i
  unfolding exit_fds
  exit_fds-Released zero i g at own apart all = (
    g.fds,
    ap (λ ps. k tt (record g { pipes = ps })) (fun_ext (λ a. all a ∙ map-zero (base a))),
    record { closed = λ j low high. absurd (omega arith); others = λ a out. refl },
  )
  exit_fds-Released (suc n) i g at own apart all =
      let rest = exit_fds-Released n (i + 1) in
      let (f, is, piped) = own i (omega arith) (omega arith) in
      elim piped [
        | inl off ↦ passes n i rest g at own apart all f is off
        | inr (q, e, alive) ↦ elim (Bool-cases (refers f)) [
          | inl on ↦ lets_go n i rest g at own apart all f is q e alive on
          | inr off ↦ passes n i rest g at own apart all f is off
        ]
      ]
