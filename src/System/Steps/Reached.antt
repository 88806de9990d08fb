-- ===== src/System/Steps/Reached.antt =====
-- What holds of every state that the kernel gets to.
use mathlib.Core.List.{cons-ne-nil}
use mathlib.Core.Option.{some-injective}
use native.Mathlib.Decide.{dec_le}
use cs170lab.Prelude.{
  ℕ, ◌+◌, ◌*◌, ◌<◌, ◌≤◌, ◌≡◌, ◌≢◌, ◌⊎◌, ◌∙◌, inl, inr, sym, ap, some, List, [], ◌∷◌, ◌++◌, arith,
  false,
}
use cs170lab.Structs.{Ptr, Regs, Pcb, memory_size}
use cs170lab.Env.{Env}
use cs170lab.Kernel.{Kernel, Call, Task}
use cs170lab.Trap.{Main, joining, runs, dispatch}
use cs170lab.Trap.Turns.{dispatch-runs}
use cs170lab.Threads.{Nobody}
use cs170lab.System.{
  Thread, Step, Reach, stored, user_store, exception, interrupt, interrupt_noop, start_call,
  start_init, start_console, wake, join, here, next,
}
use cs170lab.System.Places.{count, tasked, owners-count, total}
use cs170lab.System.Sound.{Sound-same}
use cs170lab.System.Steps.{Threads, AtStart, Kept, Whole, Inv, Inv-run}
use cs170lab.System.Steps.Begun.{initialize_user_process-Inv}
use cs170lab.System.Steps.Calls.{After-handler, count_self}
use cs170lab.System.Steps.Turns.{exception-Inv, interrupt-Inv, interrupt_noop-Inv}
use cs170lab.System.Steps.Schedule.{dispatch-first, dispatch-Inv, cons_to_buff-Inv}
use cs170lab.Threads.Frames.{Still-refl}

-- The thread `t` out of those that wait.
pub Threads-split :
    (xs : List Thread) (t : Thread) (ys : List Thread)
    → Threads (xs ++ t ∷ ys)
    → Threads (t ∷ xs ++ ys)
Threads-split [] t ys r = r
Threads-split (x ∷ xs) t ys r =
    let (first, rest) = Threads-split xs t ys r.1 in (first, (r.0, rest))

-- A task leaves the list, and its process is in the hands of its thread.
pub Whole-start :
    (h : Kernel) (ts : List Thread) (c : Call) (p : Ptr) (rest : List Task)
    → h.forked ≡ Task.user c p ∷ rest
    → Whole h ts (λ x. 0)
    → Whole (record h { forked = rest }) ts (λ x. count x (p ∷ []))
Whole-start h ts c p rest e w =
    let g : Kernel = record h { forked = rest } in
    record {
      sound =
          Sound-same h g (λ x. total x h ts + 0) (λ x. total x g ts + count x (p ∷ [])) w.sound
            (Still-refl Nobody h) (λ x. omega (arith, ap (λ l. count x (tasked l)) e));
      started = rw e at w.started;
      threads = w.threads;
    }

pub Whole-start_console :
    (h : Kernel) (ts : List Thread) (rest : List Task)
    → h.forked ≡ Task.cons_to_buff ∷ rest
    → Whole h ts (λ x. 0)
    → Whole (record h { forked = rest }) ts (λ x. 0)
Whole-start_console h ts rest e w =
    let g : Kernel = record h { forked = rest } in
    record {
      sound =
          Sound-same h g (λ x. total x h ts + 0) (λ x. total x g ts + 0) w.sound
            (Still-refl Nobody h) (λ x. omega (arith, ap (λ l. count x (tasked l)) e));
      started = rw e at w.started;
      threads = w.threads;
    }

pub Whole-wake :
    (h : Kernel) (xs : List Thread) (t : Thread) (ys : List Thread) (sems : Ptr → ℕ)
    → Whole h (xs ++ t ∷ ys) (λ x. 0)
    → Whole (record h { sems = sems }) (xs ++ ys) (λ x. count x t.owner)
Whole-wake h xs t ys sems w =
    let g : Kernel = record h { sems = sems } in
    record {
      sound =
          Sound-same h g (λ x. total x h (xs ++ t ∷ ys) + 0)
            (λ x. total x g (xs ++ ys) + count x t.owner) w.sound (Still-refl Nobody h)
            (λ x. omega (arith, owners-count x xs t ys));
      started = w.started;
      threads = (Threads-split xs t ys w.threads).1;
    }

-- A store of the user program leaves all that the invariant is about.
pub Whole-stored :
    (a b : ℕ) (h : Kernel) (ts : List Thread) (extra : Ptr → ℕ)
    → Whole h ts extra
    → Whole (stored a b h) ts extra
Whole-stored a b h ts extra w = record {
  sound =
      Sound-same h (stored a b h) (λ x. total x h ts + extra x)
        (λ x. total x (stored a b h) ts + extra x) w.sound (Still-refl Nobody h) (λ x. omega arith);
  started = w.started;
  threads = w.threads;
}

thread_left : (xs : List Thread) (t : Thread) (ys : List Thread) → xs ++ t ∷ ys ≡ [] → ⊥
thread_left [] t ys e = cons-ne-nil t ys e
thread_left (x ∷ xs) t ys e = cons-ne-nil x (xs ++ t ∷ ys) e

-- A user program, or a process that is ready, is not there at the start.
from_runs :
    (p : Ptr) (regs : Regs) (h : Kernel) (us : List Thread)
    → Kept (runs p regs h) us
    → Inv (runs p regs h) us
from_runs p regs h us (inl a) = absurd a
from_runs p regs h us (inr i) = i

from_joining :
    (h : Kernel) (us : List Thread) (q : Ptr) (xs : List Ptr)
    → h.readyq ≡ q ∷ xs
    → Kept (joining h) us
    → Whole h us (λ x. 0)
from_joining h us q xs e (inl (argv, forked, none_left, clear, limit, queue)) =
    absurd (cons-ne-nil q xs (sym e ∙ queue))
from_joining h us q xs e (inr w) = w

-- The memories of two processes do not overlap, and lie in the main memory.
abbrev pub Apart : ℕ → ℕ → ℕ → ℕ → Type 0
Apart base limit other length =
    (base + limit ≤ memory_size)
    × (other + length ≤ memory_size)
    × ((base + limit ≤ other) ⊎ (other + length ≤ base))

chunks-Apart : (i j : ℕ) → i < 8 → j < 8 → i ≢ j → Apart (i * 131072) 131072 (j * 131072) 131072
chunks-Apart i j low high e = (
  omega arith,
  omega arith,
  elim (dec_le (i + 1) j) [ yes l ↦ inl (omega arith) | no l ↦ inr (omega arith) ],
)

-- The list that `malloc` leaves in a structure is taken to be empty.
module _ (env : Env) (clean : env.uninit_pcb.waiters ≡ []) where
  -- The invariant is kept by every step.
  Step-Inv : {m n : Main} {ts us : List Thread} → Step env m ts n us → Inv m ts → Inv n us
  Step-Inv (user_store a b p regs h ts inside byte) (cur, busy, window, w) =
      (cur, busy, window, Whole-stored a b h ts (λ x. count x (p ∷ [])) w)
  Step-Inv (exception machine which p regs h ts) w = exception-Inv env ts machine which p regs h w
  Step-Inv (interrupt machine which p regs h ts) w = interrupt-Inv env ts machine which p regs h w
  Step-Inv (interrupt_noop machine which h ts) w = interrupt_noop-Inv env ts machine which h w
  Step-Inv (start_call c p rest h ts e) w =
      After-handler env (record h { forked = rest }) p ts (Whole-start h ts c p rest e w) clean c
  Step-Inv (start_init argv rest h ts e) w = absurd (rw e at w.started)
  Step-Inv (start_console n rest h ts e) w =
      cons_to_buff-Inv env ts n (record h { forked = rest }) (Whole-start_console h ts rest e w)
  Step-Inv (wake t sems h xs ys e) w =
      Inv-run (t.rest (record h { sems = sems })) (record h { sems = sems }) t.owner (xs ++ ys)
        ((Threads-split xs t ys w.threads).0 (record h { sems = sems }))
        (Whole-wake h xs t ys sems w)
  Step-Inv (join h ts e b) w = dispatch-Inv env ts h w

  -- The first step of all.
  Step-AtStart : {m n : Main} {ts us : List Thread} → Step env m ts n us → AtStart m ts → Inv n us
  Step-AtStart (user_store a b p regs h ts inside byte) i = absurd i
  Step-AtStart (exception machine which p regs h ts) a = absurd a
  Step-AtStart (interrupt machine which p regs h ts) a = absurd a
  Step-AtStart (interrupt_noop machine which h ts) a = absurd a
  Step-AtStart (start_call c p rest h ts e) (argv, forked, none_left, clear, limit, queue) =
      absurd cc
  Step-AtStart (start_init argv rest h ts e) (argv', forked, none_left, clear, limit, queue) =
      let last : rest ≡ Task.cons_to_buff ∷ [] = cc in
      rw none_left (
        initialize_user_process-Inv env argv (record h { forked = rest }) clear limit queue
          (ap tasked last) (rw last tt))
  Step-AtStart (start_console n rest h ts e) (argv, forked, none_left, clear, limit, queue) =
      absurd cc
  Step-AtStart (wake t sems h xs ys e) (argv, forked, none_left, clear, limit, queue) =
      absurd (thread_left xs t ys none_left)
  Step-AtStart (join h ts e b) (argv, forked, none_left, clear, limit, queue) = absurd cc

  pub Reach-Inv :
      {m : Main} {ts : List Thread} {n : Main} {us : List Thread}
      → Reach env m ts n us
      → Inv m ts
      → Inv n us
  Reach-Inv here i = i
  Reach-Inv (next r s) i = Step-Inv s (Reach-Inv r i)

  -- From the state in which KOS calls the scheduler, or from a state in the invariant, every state that the kernel
  -- gets to is one of these: each process is in one place at most, has its structure, and a chunk of the memory
  -- that is taken and that no other process has; and, behind the start, `init` has a structure, is in no place and is no zombie. The list that `malloc` leaves in a structure is taken to be empty.
  pub Reach-Kept :
      {m : Main} {ts : List Thread} {n : Main} {us : List Thread}
      → Reach env m ts n us
      → Kept m ts
      → Kept n us
  Reach-Kept here w = w
  Reach-Kept (next r s) w = elim (Reach-Kept r w) [
    | inl a ↦ inr (Step-AtStart s a)
    | inr i ↦ inr (Step-Inv s i)
  ]

  -- While the program of a process runs, in every state that the kernel gets to, the process is in no other place;
  -- and for any other process that is ready, that a thread waits for, or for which a thread is to start, the memory
  -- of that process and the machine's window do not overlap, and both lie in the main memory.
  pub Reach-Apart :
      {m : Main} {ts : List Thread} (p : Ptr) (regs : Regs) (h : Kernel) (us : List Thread)
      → Kept m ts
      → Reach env m ts (runs p regs h) us
      → (total p h us ≡ 0)
        × ((q : Ptr)
            → 1 ≤ total q h us
            → (d : Pcb) × (h.pcbs q ≡ some d) × Apart h.user_base h.user_limit d.base d.limit)
  Reach-Apart p regs h us i r =
      let (cur, busy, (c, at, base, limit), w) = from_runs p regs h us (Reach-Kept r i) in
      let gone : total p h us ≡ 0 = omega (arith, w.sound.once p, count_self p) in
      (
        gone,
        λ q here.
            let a = w.sound.placed p (omega (arith, count_self p)) in
            let b = w.sound.placed q (omega (arith, here)) in
            let other : p ≢ q = λ e. absurd (omega (arith, rw (sym e) at here, gone)) in
            let differ : c.memory_num ≢ b.c.memory_num =
              w.sound.apart p q c b.c (omega (arith, count_self p)) (omega (arith, here)) other at
                b.at in
            let same : c ≡ a.c = some-injective c a.c (sym at ∙ a.at) in
            (
              b.c,
              b.at,
              rw (base, limit, same, a.base, a.limit, b.base, b.limit)
                  (chunks-Apart a.c.memory_num b.c.memory_num a.number b.number
                    (λ e. differ (ap (λ c. c.memory_num) same ∙ e))),
            ),
      )

  -- In every state that the kernel gets to with a process ready, the scheduler runs the first one: its structure is there.
  pub Reach-dispatch :
      {m : Main} {ts : List Thread} (h : Kernel) (us : List Thread) (q : Ptr) (xs : List Ptr)
      → Kept m ts
      → Reach env m ts (joining h) us
      → h.readyq ≡ q ∷ xs
      → (d : Pcb) × (h.pcbs q ≡ some d)
        × (dispatch env h
            ≡ runs q d.my_registers (record h {
              curr = q;
              readyq = xs;
              is_noop = false;
              user_base = d.base;
              user_limit = d.limit;
            }))
  Reach-dispatch h us q xs i r e =
      let (d, at, limit) =
        dispatch-first env us h q xs e (from_joining h us q xs e (Reach-Kept r i)) in
      (d, at, dispatch-runs env h q xs d e at)
