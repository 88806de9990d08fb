-- ===== src/System/Steps/Order/Reached.antt =====
-- The order of the ready queue in the states that the kernel gets to.
use cs170lab.Prelude.{◌≡◌, ◌∙◌, ◌⊎◌, refl, sym, ap, inl, inr, List, [], ◌∷◌, ◌++◌}
use mathlib.Core.List.{append_assoc, append-nil}
use cs170lab.Structs.{Ptr, Regs}
use cs170lab.Env.{Env}
use cs170lab.Kernel.{Kernel}
use cs170lab.Trap.{Main, joining, runs, idles, halts, aborts, crashes}
use cs170lab.System.{
  Thread, Step, Reach, here, next, user_store, exception, interrupt, interrupt_noop, start_call,
  start_init, start_console, wake, join,
}
use cs170lab.System.Steps.{Inv}
use cs170lab.System.Steps.Reached.{Reach-Inv}
use cs170lab.System.Steps.Order.{Goes, ready, Step-Goes}

-- The simulation has ended.
abbrev pub Over : Main → Type 0
Over (joining h) = ⊥
Over (runs p regs h) = ⊥
Over (idles h) = ⊥
Over m = Unit {0}

-- `p` is ready behind those of `xs` that have not had their turns, and others come behind `ys`.
abbrev pub Behind : Ptr → List Ptr → List Ptr → Main → Type 0
Behind p xs ys m =
    (gone : List Ptr) × (left : List Ptr) × (zs : List Ptr) × (xs ≡ gone ++ left)
    × (ready m ≡ left ++ p ∷ (ys ++ zs))

-- More comes behind.
further :
    (l : List Ptr) (p : Ptr) (left ys zs more : List Ptr)
    → l ≡ (left ++ p ∷ (ys ++ zs)) ++ more
    → l ≡ left ++ p ∷ (ys ++ (zs ++ more))
further l p left ys zs more e =
    e ∙ append_assoc left (p ∷ (ys ++ zs)) more ∙ ap (λ l. left ++ p ∷ l) (append_assoc ys zs more)

-- The first one of the queue runs: it is `p`, or one before it.
first_runs :
    (p q : Ptr) (regs : Regs) (h : Kernel) (xs ys gone left zs : List Ptr)
    → xs ≡ gone ++ left
    → left ++ p ∷ (ys ++ zs) ≡ q ∷ h.readyq
    → Behind p xs ys (runs q regs h) ⊎ (q ≡ p)
first_runs p q regs h xs ys gone [] zs e r = inr cc
first_runs p q regs h xs ys gone (x ∷ left) zs e r =
    inl (gone ++ x ∷ [], left, zs, e ∙ sym (append_assoc gone (x ∷ []) left), cc)

after_step :
    (p : Ptr) (n : Main) (xs ys gone left zs : List Ptr)
    → xs ≡ gone ++ left
    → Goes (left ++ p ∷ (ys ++ zs)) n
    → Over n ⊎ Behind p xs ys n ⊎ ((regs : Regs) × (h : Kernel) × (n ≡ runs p regs h))
after_step p (joining h) xs ys gone left zs e (more, r) =
    inr (inl (gone, left, zs ++ more, e, further h.readyq p left ys zs more r))
after_step p (idles h) xs ys gone left zs e (more, r) =
    inr (inl (gone, left, zs ++ more, e, further h.readyq p left ys zs more r))
after_step p (runs q regs h) xs ys gone left zs e (inr r) = inr (inl (gone, left, zs, e, sym r))
after_step p (runs q regs h) xs ys gone left zs e (inl r) =
    elim (first_runs p q regs h xs ys gone left zs e r) [
      | inl b ↦ inr (inl b)
      | inr same ↦ inr (inr (regs, h, ap (λ q. runs q regs h) same))
    ]
after_step p (halts h) xs ys gone left zs e r = inl tt
after_step p (aborts h) xs ys gone left zs e r = inl tt
after_step p crashes xs ys gone left zs e r = inl tt

module _ (env : Env) where
  -- The program of `p` has run on the way from one state to the other.
  abbrev pub HadTurn : Ptr → Main → List Thread → Main → List Thread → Type 0
  HadTurn p m ts n us =
      (regs : Regs) × (h : Kernel) × (vs : List Thread) × Reach env m ts (runs p regs h) vs
      × Reach env (runs p regs h) vs n us

module _ (env : Env) (clean : env.uninit_pcb.waiters ≡ []) where
  pub no-Step : {m n : Main} {ts us : List Thread} → Step env m ts n us → Over m → ⊥
  no-Step (user_store a b p regs h ts inside byte) o = o
  no-Step (exception machine which p regs h ts) o = o
  no-Step (interrupt machine which p regs h ts) o = o
  no-Step (interrupt_noop machine which h ts) o = o
  no-Step (start_call c p rest h ts e) o = o
  no-Step (start_init argv rest h ts e) o = o
  no-Step (start_console n rest h ts e) o = o
  no-Step (wake t sems h xs ys e) o = o
  no-Step (join h ts e b) o = o

  -- From a state in the invariant with the process `p` ready behind `xs`: in every state that the kernel gets to, the
  -- simulation has ended, or `p` is ready behind what is left of `xs`, in its order, and no other process, or the
  -- program of `p` has run on the way. So no process overtakes another one that is ready. The list that `malloc`
  -- leaves in a structure is taken to be empty.
  pub Reach-Behind :
      {m : Main} {ts : List Thread} {n : Main} {us : List Thread} (p : Ptr) (xs ys : List Ptr)
      → Reach env m ts n us
      → Inv m ts
      → ready m ≡ xs ++ p ∷ ys
      → Over n ⊎ Behind p xs ys n ⊎ HadTurn env p m ts n us
  Reach-Behind p xs ys here i e =
      inr (inl ([], xs, [], refl, e ∙ ap (λ l. xs ++ p ∷ l) (sym (append-nil ys))))
  Reach-Behind {m} {ts} p xs ys (next {n} {l} {us} {vs} r s) i e =
      elim (Reach-Behind p xs ys r i e) [
        | inl over ↦ absurd (no-Step s over)
        | inr (inl (gone, left, zs, cut, shape)) ↦
            elim (after_step p l xs ys gone left zs cut
              (rw shape at (Step-Goes env s (Reach-Inv env clean r i)))) [
                | inl over ↦ inl over
                | inr (inl b) ↦ inr (inl b)
                | inr (inr (regs, h, runs_now)) ↦
                    inr (inr (regs, h, vs, rw runs_now at (next r s), rw runs_now here))
              ]
        | inr (inr (regs, h, ws, before, behind)) ↦ inr (inr (regs, h, ws, before, next behind s))
      ]
