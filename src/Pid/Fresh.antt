-- ===== src/Pid/Fresh.antt =====
-- The pid that get_new_pid hands out.
use cs170lab.Prelude.{
  ℕ, zero, suc, ◌+◌, ◌≤◌, ◌<◌, ◌≡◌, refl, ◌≢◌, ◌∙◌, inl, inr, none, some, [], ◌∷◌, arith, length,
  leb, if◌then◌else◌, Option-cases, ℕ_discrete,
}
use cs170lab.Structs.{Tree}
use cs170lab.Env.{Env, entry, placed}
use cs170lab.Kernel.{Kernel, Cmd}
use cs170lab.Pid.{find_pid, get_new_pid}

-- The number of entries with a key from `c` on.
abbrev above : ℕ → Tree → ℕ
above c [] = 0
above c ((j, v) ∷ t) = (if leb c j then 1 else 0) + above c t

above-le-length : (c : ℕ) (t : Tree) → above c t ≤ length t
above-le-length c [] = omega arith
above-le-length c ((j, v) ∷ t) = ground (arith, above-le-length c t)

above_mono : (c : ℕ) (t : Tree) → above (c + 1) t ≤ above c t
above_mono c [] = omega arith
above_mono c ((j, v) ∷ t) = ground (arith, above_mono c t)

above-lt : (c : ℕ) (t : Tree) → entry t c ≢ none → above (c + 1) t < above c t
above-lt c [] h = absurd (h refl)
above-lt c ((j, v) ∷ t) h = ground (arith, above-lt c t, above_mono c t)

pub entry-placed_self :
    (t : Tree) (k v : ℕ) → entry t k ≡ none → entry (placed t k v) k ≡ some (k, v)
entry-placed_self [] k v h = ground arith
entry-placed_self ((j, w) ∷ t) k v h = ground (arith, entry-placed_self t k v)

-- What the search promises of the number that it stops at.
abbrev IsLeast : Tree → ℕ → ℕ → Type 0
IsLeast t c r = (c ≤ r) × (entry t r ≡ none) × ((j : ℕ) → c ≤ j → j < r → entry t j ≢ none)

module _ (env : Env) where
  find_pid-IsLeast :
      (fuel c : ℕ) (t : Tree)
      → above c t < fuel
      → (r : ℕ) × (find_pid env fuel c t ≡ some r) × IsLeast t c r
  unfolding find_pid
  find_pid-IsLeast zero c t h = absurd (omega arith)
  find_pid-IsLeast (suc fuel) c t h = elim (Option-cases (entry t c)) [
    | inl e ↦ (
      c,
      rw (env.jrb.find_int_lem t c ∙ e, find_pid),
      (omega arith, e, λ j p q. absurd (omega arith)),
    )
    | inr (n, e) ↦
        let (r, found, (low, free, taken)) =
          find_pid-IsLeast fuel (c + 1) t (omega (arith, above-lt c t (λ z. cc))) in
        (
          r,
          rw (env.jrb.find_int_lem t c ∙ e, find_pid) found,
          (
            omega arith,
            free,
            λ j p q. elim (ℕ_discrete j c) [
              | yes here ↦ rw here (λ z. cc)
              | no later ↦ taken j (omega arith) q
            ],
          ),
        )
  ]

  -- The same for whatever comes after the call.
  pub get_new_pid-any :
      (h : Kernel)
      → (c : ℕ) × ((k : ℕ → Cmd)
          → get_new_pid env k h ≡ k c (record h { curpid = c; rbtree = placed h.rbtree c 0 }))
        × (entry h.rbtree c ≡ none)
        × ((j : ℕ) → j < c → entry h.rbtree j ≢ none)
  unfolding get_new_pid
  get_new_pid-any h = entered (
      find_pid-IsLeast (length h.rbtree + 1) 0 h.rbtree (omega (arith, above-le-length 0 h.rbtree)))
    where
      entered :
          (r : ℕ) × (find_pid env (length h.rbtree + 1) 0 h.rbtree ≡ some r) × IsLeast h.rbtree 0 r
          → (c : ℕ) × ((k : ℕ → Cmd)
              → get_new_pid env k h ≡ k c (record h { curpid = c; rbtree = placed h.rbtree c 0 }))
            × (entry h.rbtree c ≡ none)
            × ((j : ℕ) → j < c → entry h.rbtree j ≢ none)
      entered (r, found, (low, free, taken)) = (
        r,
        (λ k. rw (found, get_new_pid, env.jrb.insert_int_lem h.rbtree r 0 free)),
        free,
        λ j q. taken j (omega arith) q,
      )

  -- get_new_pid ends, with the smallest number that is no key of `rbtree`, which it enters there;
  -- nothing else of the kernel changes but `curpid`.
  pub get_new_pid-least :
      (k : ℕ → Cmd) (h : Kernel)
      → (c : ℕ) × (get_new_pid env k h
          ≡ k c (record h { curpid = c; rbtree = placed h.rbtree c 0 }))
        × (entry h.rbtree c ≡ none)
        × ((j : ℕ) → j < c → entry h.rbtree j ≢ none)
        × (entry (placed h.rbtree c 0) c ≡ some (c, 0))
  get_new_pid-least k h =
      let (c, run, free, taken) = get_new_pid-any h in
      (c, run k, free, taken, entry-placed_self h.rbtree c 0 free)
