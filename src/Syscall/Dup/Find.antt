-- ===== src/Syscall/Dup/Find.antt =====
-- The search for the lowest descriptor that is not open.
use cs170lab.Prelude.{
  ℕ, zero, suc, ◌+◌, ◌≤◌, ◌<◌, ◌≡◌, refl, inl, inr, Bool, true, false, Option, none, some, arith,
  Bool-cases, ℕ_discrete,
}
use cs170lab.Structs.{Ptr, Fd}
use cs170lab.Kernel.{Kernel, Cmd}
use cs170lab.Syscall.Dup.{find_fd}

-- The descriptor at `a` is there, and is open or not.
abbrev pub OpenAt : Kernel → Ptr → Bool → Type 0
OpenAt h a b = (f : Fd) × (h.fds a ≡ some f) × (f.is_open ≡ b)

-- The `n` descriptors from number `i` on are there.
abbrev pub Table : Kernel → (ℕ → Ptr) → ℕ → ℕ → Type 0
Table h fd i n = (j : ℕ) → i ≤ j → j < i + n → (f : Fd) × (h.fds (fd j) ≡ some f)

-- `r` is the first of the `n` descriptors from `i` on that is not open; with `none` all are open.
abbrev pub First : Kernel → (ℕ → Ptr) → ℕ → ℕ → Option ℕ → Type 0
First h fd i n none = (j : ℕ) → i ≤ j → j < i + n → OpenAt h (fd j) true
First h fd i n (some r) =
    (i ≤ r) × (r < i + n) × OpenAt h (fd r) false × ((j : ℕ) → i ≤ j → j < r → OpenAt h (fd j) true)

-- One more open descriptor in front.
First-open :
    (h : Kernel) (fd : ℕ → Ptr) (i n : ℕ) (r : Option ℕ)
    → OpenAt h (fd i) true
    → First h fd (i + 1) n r
    → First h fd i (suc n) r
First-open h fd i n none here rest =
    λ j p q. elim (ℕ_discrete j i) [ yes e ↦ rw e here | no e ↦ rest j (omega arith) (omega arith) ]
First-open h fd i n (some r) here rest = (
  omega arith,
  omega arith,
  rest.2,
  λ j p q. elim (ℕ_discrete j i) [ yes e ↦ rw e here | no e ↦ rest.3 j (omega arith) q ],
)

module _ (h : Kernel) (fd : ℕ → Ptr) (k : Option ℕ → Cmd) where
  -- The search ends, with the first such descriptor, and changes nothing.
  pub find_fd-First :
      (n i : ℕ) → Table h fd i n → (r : Option ℕ) × (find_fd n i fd k h ≡ k r h) × First h fd i n r
  unfolding find_fd
  find_fd-First zero i there = (none, refl, λ j p q. absurd (omega arith))
  find_fd-First (suc n) i there =
      let (f, e) = there i (omega arith) (omega arith) in
      let (r, found, first) =
        find_fd-First n (i + 1) (λ j p q. there j (omega arith) (omega arith)) in
      elim (Bool-cases f.is_open) [
        | inl o ↦ (r, rw (e, o) found, First-open h fd i n r (f, e, o) first)
        | inr o ↦ (
          some i,
          rw (e, o),
          (omega arith, omega arith, (f, e, o), λ j p q. absurd (omega arith)),
        )
      ]
