-- ===== src/Trap/Idle.antt =====
-- When the scheduler ends the simulation, and what becomes of a process after a machine exception.
use cs170lab.Prelude.{
  ℕ, zero, suc, ◌≡◌, refl, ◌⊎◌, inl, inr, ◌≢◌, true, false, some, List, [], ◌∷◌, arith,
}
use cs170lab.Structs.{Ptr, null, Regs, Pcb, Tree, Entry}
use cs170lab.Env.{Env}
use cs170lab.Kernel.{Kernel}
use cs170lab.Trap.{
  Main, runs, idles, halts, Exception, syscall, unknown, timer, interrupt_handler, dispatch,
}
use cs170lab.Trap.Turns.{Alive, resume, dispatch-runs}

-- The exceptions of the machine that are no system call.
abbrev pub IsTrap : Exception → Type 0
IsTrap syscall = ⊥
IsTrap unknown = ⊥
IsTrap _ = Unit {0}

module _ (env : Env) where
  dispatch-halts :
      (h : Kernel) (i : Pcb)
      → h.readyq ≡ []
      → h.pcbs h.init ≡ some i
      → i.children ≡ []
      → dispatch env h ≡ halts (record h { curr = null })
  unfolding dispatch
  dispatch-halts h i e at none = ground (arith, env.dll.is_empty-nil, env.jrb.is_empty-nil)

  pub dispatch-idles :
      (h : Kernel) (i : Pcb) (n : Entry) (t : Tree)
      → h.readyq ≡ []
      → h.pcbs h.init ≡ some i
      → i.children ≡ n ∷ t
      → dispatch env h ≡ idles (record h { curr = null; is_noop = true })
  unfolding dispatch
  dispatch-idles h i n t e at more = ground (arith, env.dll.is_empty-nil, env.jrb.is_empty-cons n t)

  -- The scheduler ends the simulation if no process is ready and `init` has no child, idles if no
  -- process is ready and `init` has one, and otherwise runs the first process that is ready.
  pub dispatch_cases :
      (h : Kernel) (i : Pcb)
      → h.pcbs h.init ≡ some i
      → Alive h h.readyq
      → ((h.readyq ≡ []) × (i.children ≡ []) × (dispatch env h ≡ halts (record h { curr = null })))
        ⊎ ((h.readyq ≡ [])
            × (i.children ≢ [])
            × (dispatch env h ≡ idles (record h { curr = null; is_noop = true })))
        ⊎ ((q : Ptr) × (xs : List Ptr) × (d : Pcb) × (h.readyq ≡ q ∷ xs)
            × (h.pcbs q ≡ some d)
            × (dispatch env h
                ≡ runs q d.my_registers (record h {
                  curr = q;
                  readyq = xs;
                  is_noop = false;
                  user_base = d.base;
                  user_limit = d.limit;
                })))
  dispatch_cases h i at alive = split h.readyq i.children refl refl alive
    where
      split :
          (l : List Ptr) (t : Tree)
          → h.readyq ≡ l
          → i.children ≡ t
          → Alive h l
          → ((h.readyq ≡ [])
              × (i.children ≡ [])
              × (dispatch env h ≡ halts (record h { curr = null })))
            ⊎ ((h.readyq ≡ [])
                × (i.children ≢ [])
                × (dispatch env h ≡ idles (record h { curr = null; is_noop = true })))
            ⊎ ((q : Ptr) × (xs : List Ptr) × (d : Pcb) × (h.readyq ≡ q ∷ xs)
                × (h.pcbs q ≡ some d)
                × (dispatch env h
                    ≡ runs q d.my_registers (record h {
                      curr = q;
                      readyq = xs;
                      is_noop = false;
                      user_base = d.base;
                      user_limit = d.limit;
                    })))
      split [] [] e c a = inl (e, c, dispatch-halts h i e at c)
      split [] (n ∷ t) e c a = inr (inl (e, (λ z. cc), dispatch-idles h i n t e at c))
      split (q ∷ xs) t e c a =
          let (d, is) = a.0 in inr (inr (q, xs, d, e, is, dispatch-runs env h q xs d e is))

  -- `n` timer interrupts while the machine idles.
  unfoldable pub idle_ticks : ℕ → Regs → Main → Main
  idle_ticks zero machine m = m
  idle_ticks (suc n) machine (idles h) =
      idle_ticks n machine (resume env (interrupt_handler env machine timer h))
  idle_ticks (suc n) machine m = m
