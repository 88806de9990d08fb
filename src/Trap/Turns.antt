-- ===== src/Trap/Turns.antt =====
-- The timer and the scheduler: the processes take turns.
use mathlib.Core.List.{append_assoc}
use cs170lab.Prelude.{
  suc, ◌≡◌, refl, ap, ◌∙◌, inl, inr, false, some, List, [], ◌∷◌, ◌++◌, arith, length, ◌==◌, update,
  Bool-cases,
}
use cs170lab.Structs.{Ptr, Regs, Pcb}
use cs170lab.Env.{Env}
use cs170lab.Kernel.{Kernel, put_pcb}
use cs170lab.Trap.{Main, joining, runs, timer, interrupt_handler, dispatch}

-- Each of the processes has its structure.
abbrev pub Alive : Kernel → List Ptr → Type 0
Alive h [] = Unit {0}
Alive h (x ∷ xs) = ((c : Pcb) × (h.pcbs x ≡ some c)) × Alive h xs

-- A kernel in which the user program of `p` runs and the processes `xs` wait for their turns.
pub record Running (h : Kernel) (p : Ptr) (xs : List Ptr) : Type 0 where
  pub busy : h.is_noop ≡ false
  pub current : h.curr ≡ p
  pub queue : h.readyq ≡ xs
  pub alive : Alive h (p ∷ xs)

Alive-append : (h : Kernel) (xs ys : List Ptr) → Alive h xs → Alive h ys → Alive h (xs ++ ys)
Alive-append h [] ys l r = r
Alive-append h (x ∷ xs) ys l r = (l.0, Alive-append h xs ys l.1 r)

Alive-update :
    (h g : Kernel) (p : Ptr) (c : Pcb) (xs : List Ptr)
    → g.pcbs ≡ update h.pcbs p (some c)
    → Alive h xs
    → Alive g xs
Alive-update h g p c [] e a = tt
Alive-update h g p c (x ∷ xs) e ((d, at), rest) = (here, Alive-update h g p c xs e rest)
  where
    here : (z : Pcb) × (g.pcbs x ≡ some z)
    here = elim (Bool-cases (p == x)) [
      | inl hit ↦ (c, rw (e, hit))
      | inr miss ↦ (d, rw (e, miss) at)
    ]

module _ (env : Env) where
  -- scheduler, when no other thread has anything to do.
  unfoldable pub resume : Main → Main
  resume (joining h) = dispatch env h
  resume m = m

  -- A timer interrupt, with the machine's registers.
  unfoldable pub tick : Regs → Main → Main
  tick machine (runs p regs h) = resume (interrupt_handler env machine timer h)
  tick machine m = m

  unfoldable pub ticks : List Regs → Main → Main
  ticks [] m = m
  ticks (machine ∷ ms) m = ticks ms (tick machine m)

  interrupted :
      (machine : Regs) (h : Kernel) (c : Pcb)
      → h.is_noop ≡ false
      → h.pcbs h.curr ≡ some c
      → interrupt_handler env machine timer h
        ≡ joining (record (put_pcb h.curr (record c { my_registers = machine }) h) {
          readyq = h.readyq ++ h.curr ∷ [];
        })
  unfolding interrupt_handler
  interrupted machine h c busy at = ground (arith, env.dll.append_lem h.readyq h.curr)

  -- The first process of the ready queue gets the machine, with its registers and its memory.
  pub dispatch-runs :
      (g : Kernel) (q : Ptr) (xs : List Ptr) (d : Pcb)
      → g.readyq ≡ q ∷ xs
      → g.pcbs q ≡ some d
      → dispatch env g
        ≡ runs q d.my_registers (record g {
          curr = q;
          readyq = xs;
          is_noop = false;
          user_base = d.base;
          user_limit = d.limit;
        })
  unfolding dispatch
  dispatch-runs g q xs d e at = rw (
    e,
    env.dll.is_empty-cons q xs,
    env.dll.first-cons q xs,
    at,
    e,
    env.dll.delete_first-cons q xs,
  )

  tick-Running :
      (machine regs : Regs) (h : Kernel) (p q : Ptr) (xs : List Ptr)
      → Running h p (q ∷ xs)
      → (regs' : Regs) × (g : Kernel) × (tick machine (runs p regs h) ≡ runs q regs' g)
        × Running g q (xs ++ p ∷ [])
  unfolding tick resume
  tick-Running machine regs h p q xs r =
      let (c, at) = r.alive.0 in
      let at' : h.pcbs h.curr ≡ some c = rw r.current at in
      let g : Kernel = record (put_pcb h.curr (record c { my_registers = machine }) h) {
        readyq = h.readyq ++ h.curr ∷ [];
      } in
      let all : Alive g (q ∷ xs ++ p ∷ []) =
        Alive-update h g h.curr (record c { my_registers = machine }) (q ∷ xs ++ p ∷ []) refl
          (r.alive.1.0, Alive-append h xs (p ∷ []) r.alive.1.1 (r.alive.0, tt)) in
      let (d, is) = all.0 in
      let queue : g.readyq ≡ q ∷ xs ++ p ∷ [] = rw (r.queue, r.current) in
      (
        d.my_registers,
        record g {
          curr = q;
          readyq = xs ++ p ∷ [];
          is_noop = false;
          user_base = d.base;
          user_limit = d.limit;
        },
        ap resume (interrupted machine h c r.busy at')
            ∙ dispatch-runs g q (xs ++ p ∷ []) d queue is,
        record { busy = refl; current = refl; queue = refl; alive = all },
      )

  -- The process at some place of the ready queue runs after one tick more than there are processes
  -- before it, whatever the machine's registers are at the ticks. Then those behind it come next,
  -- and behind them the process that ran first and those that were before it.
  pub turn_comes :
      (ms : List Regs) (regs : Regs) (h : Kernel) (p r : Ptr) (before rest : List Ptr)
      → length ms ≡ suc (length before)
      → Running h p (before ++ r ∷ rest)
      → (regs' : Regs) × (g : Kernel) × (ticks ms (runs p regs h) ≡ runs r regs' g)
        × Running g r (rest ++ p ∷ before)
  unfolding ticks
  turn_comes [] regs h p r before rest e run = absurd (omega arith)
  turn_comes (machine ∷ []) regs h p r [] rest e run = tick-Running machine regs h p r rest run
  turn_comes (machine ∷ m ∷ ms) regs h p r [] rest e run = absurd (omega arith)
  turn_comes (machine ∷ ms) regs h p r (b ∷ before) rest e run =
      let (regs1, g1, ran, run1) = tick-Running machine regs h p b (before ++ r ∷ rest) run in
      let moved : (before ++ r ∷ rest) ++ p ∷ [] ≡ before ++ r ∷ (rest ++ p ∷ []) =
        append_assoc before (r ∷ rest) (p ∷ []) in
      let (regs2, g2, came, run2) =
        turn_comes ms regs1 g1 b r before (rest ++ p ∷ []) (omega (arith, e)) (rw moved at run1) in
      (regs2, g2, ap (ticks ms) ran ∙ came, rw (append_assoc rest (p ∷ []) (b ∷ before)) at run2)
