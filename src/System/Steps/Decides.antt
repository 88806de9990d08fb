-- ===== src/System/Steps/Decides.antt =====
-- What the scheduler of scheduler.c does in the states that the kernel gets to.
use cs170lab.Prelude.{◌≤◌, ◌≡◌, ◌≢◌, ◌⊎◌, inl, inr, true, false, some, List, [], ◌∷◌, arith}
use cs170lab.Structs.{Ptr, Pcb, null}
use cs170lab.Env.{Env}
use cs170lab.Kernel.{Kernel}
use cs170lab.Trap.{Main, joining, runs, idles, halts, dispatch}
use cs170lab.Trap.Turns.{Alive}
use cs170lab.Trap.Idle.{dispatch_cases}
use cs170lab.System.{Thread, Reach}
use cs170lab.System.Places.{count}
use cs170lab.System.Steps.{Whole, Kept}
use cs170lab.System.Steps.Calls.{count_self}
use cs170lab.System.Steps.Reached.{Reach-Kept}

-- The scheduler ends the simulation if no process is ready and `init` has no child, idles if none is ready and `init`
-- has one, and otherwise runs the first one that is ready, with the window of the machine on its memory.
abbrev pub Decides : Env → Kernel → Type 0
Decides env h =
    (i : Pcb) × (h.pcbs h.init ≡ some i)
    × (((h.readyq ≡ []) × (i.children ≡ []) × (dispatch env h ≡ halts (record h { curr = null })))
        ⊎ ((h.readyq ≡ [])
            × (i.children ≢ [])
            × (dispatch env h ≡ idles (record h { curr = null; is_noop = true })))
        ⊎ ((q : Ptr) × (xs : List Ptr) × (d : Pcb) × (h.readyq ≡ q ∷ xs)
            × (h.pcbs q ≡ some d)
            × (dispatch env h
                ≡ runs q d.my_registers (record h {
                  curr = q;
                  readyq = xs;
                  is_noop = false;
                  user_base = d.base;
                  user_limit = d.limit;
                }))))

-- The processes of a list have structures if those counted in it have.
Alive-counted :
    (h : Kernel) (l : List Ptr)
    → ((x : Ptr) → 1 ≤ count x l → (c : Pcb) × (h.pcbs x ≡ some c))
    → Alive h l
Alive-counted h [] r = tt
Alive-counted h (x ∷ l) r =
    (r x (omega (arith, count_self x)), Alive-counted h l (λ y m. r y (omega (arith, m))))

module _ (env : Env) (clean : env.uninit_pcb.waiters ≡ []) where
  from_Whole : (h : Kernel) (us : List Thread) → Whole h us (λ x. 0) → Decides env h
  from_Whole h us w =
      let r = w.sound.root in
      (
        r.d,
        r.at,
        dispatch_cases env h r.d r.at (
            Alive-counted h h.readyq
              (λ x m. let a = w.sound.placed x (omega (arith, m)) in (a.c, a.at))),
      )

  -- In every state that the kernel gets to in which no thread is left to start, the scheduler finds `init` and, if a
  -- process is ready, the structure of the first one: it runs that one, or idles, or ends the simulation when `init`
  -- has no child, and follows no bad pointer. The list that `malloc` leaves in a structure is taken to be empty.
  pub Reach-Decides :
      {m : Main} {ts : List Thread} (h : Kernel) (us : List Thread)
      → Kept m ts
      → Reach env m ts (joining h) us
      → h.forked ≡ []
      → Decides env h
  Reach-Decides h us i r none_asks = decides (Reach-Kept env clean r i)
    where
      decides : Kept (joining h) us → Decides env h
      decides (inl (argv, forked, none_left, clear, limit, queue)) = absurd cc
      decides (inr w) = from_Whole h us w
