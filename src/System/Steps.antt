-- ===== src/System/Steps.antt =====
-- The invariant of the whole kernel, and how a thread that runs up to its next wait bears on it.
pub mod Calls
pub mod Turns
pub mod Schedule
pub mod Begun
pub mod Booted
pub mod Reached
pub mod Lives
pub mod Decides
pub mod Isolated
pub mod Lost
pub mod Order
use cs170lab.Prelude.{
  ℕ, ◌+◌, ◌<◌, ◌≡◌, ◌≢◌, sym, ◌⊎◌, refl, true, false, none, some, List, [], ◌∷◌, ◌++◌, arith,
}
use cs170lab.Structs.{Ptr, Pcb}
use cs170lab.Kernel.{Kernel, Run, Task, exited, waits, stopped, fault, spins}
use cs170lab.Trap.{Main, joining, runs, idles}
use cs170lab.Threads.{Follows, To, Nobody}
use cs170lab.System.{Thread, main_of, threads_of}
use cs170lab.System.Places.{count, count-append, owners, total}
use cs170lab.System.Sound.{Sound, Sound-less, Sound-To}

-- The threads that are to start are those of system calls and of the console.
abbrev pub Started : List Task → Type 0
Started [] = Unit {0}
Started (Task.user c p ∷ l) = Started l
Started (Task.initialize_user_process a ∷ l) = ⊥
Started (Task.cons_to_buff ∷ l) = Started l

-- A thread that waits puts its process, and no other, behind the ready queue.
abbrev pub Threads : List Thread → Type 0
Threads [] = Unit {0}
Threads (t ∷ ts) = ((g : Kernel) → Follows Nobody (λ q. q ++ t.owner) g (t.rest g)) × Threads ts

-- `extra` counts the processes that are not in the hands of the kernel.
pub record Whole (h : Kernel) (ts : List Thread) (extra : Ptr → ℕ) : Type 0 where
  pub sound : Sound h (λ x. total x h ts + extra x)
  pub started : Started h.forked
  pub threads : Threads ts

-- The machine's window on the memory is the chunk of the process.
abbrev pub Window : Kernel → Ptr → Type 0
Window h p = (c : Pcb) × (h.pcbs p ≡ some c) × (h.user_base ≡ c.base) × (h.user_limit ≡ c.limit)

-- The invariant. The user program that runs is that of the current process.
abbrev pub Inv : Main → List Thread → Type 0
Inv (joining h) ts = Whole h ts (λ x. 0)
Inv (runs p regs h) ts =
    (h.curr ≡ p) × (h.is_noop ≡ false) × Window h p × Whole h ts (λ x. count x (p ∷ []))
Inv (idles h) ts = (h.is_noop ≡ true) × Whole h ts (λ x. 0)
Inv m ts = Unit {0}

-- KOS has just called `scheduler`: there is no process, and two threads are to start.
abbrev pub AtStart : Main → List Thread → Type 0
AtStart (joining h) ts =
    (argv : List (List ℕ)) × (h.forked ≡ Task.initialize_user_process argv ∷ Task.cons_to_buff ∷ [])
    × (ts ≡ [])
    × ((a : Ptr) → h.pcbs a ≡ none)
    × (h.user_limit ≡ 131072)
    × (h.readyq ≡ [])
AtStart m ts = ⊥

abbrev pub Kept : Main → List Thread → Type 0
Kept m ts = AtStart m ts ⊎ Inv m ts

-- A thread runs on behalf of the processes `o`, to its end or to its next wait.
pub Inv-run :
    (r : Run) (h : Kernel) (o : List Ptr) (ts : List Thread)
    → Follows Nobody (λ q. q ++ o) h r
    → Whole h ts (λ x. count x o)
    → Inv (main_of r) (threads_of o r ++ ts)
Inv-run (exited g) h o ts t w = record {
  sound =
      Sound-less g (λ x. total x h ts + count x o) (λ x. total x g ts + 0)
        (Sound-To Nobody h g (h.readyq ++ o) _ w.sound t (λ x l e. e) (λ z e. absurd e) (λ e. e))
        (λ x. rw (t.queued, t.forks) (omega (arith, count-append x h.readyq o)));
  started = rw t.forks w.started;
  threads = w.threads;
}
Inv-run (waits s g k) h o ts t w = record {
  sound =
      Sound-less g (λ x. total x h ts + count x o)
        (λ x. total x g (record { owner = o; sem = s; rest = k } ∷ ts) + 0)
        (Sound-To Nobody h g h.readyq _ w.sound t.before (λ x l e. e) (λ z e. absurd e) (λ e. e))
        (λ x. rw (t.before.queued, t.before.forks) (omega (arith, count-append x o (owners ts))));
  started = rw t.before.forks w.started;
  threads = (t.behind, w.threads);
}
Inv-run (stopped g) h o ts t w = tt
Inv-run fault h o ts t w = tt
Inv-run spins h o ts t w = tt

-- exit runs to its end, and the process is gone.
pub Inv-exit :
    (r : Run) (h : Kernel) (p : Ptr) (ts : List Thread)
    → Follows (λ a. a ≡ p) (λ q. q) h r
    → Whole h ts (λ x. 0)
    → total p h ts ≡ 0
    → p < h.next
    → p ≢ h.init
    → Inv (main_of r) (threads_of (p ∷ []) r ++ ts)
Inv-exit (exited g) h p ts t w gone old apart = record {
  sound =
      Sound-less g (λ x. total x h ts + 0) (λ x. total x g ts + 0)
        (Sound-To (λ a. a ≡ p) h g h.readyq _ w.sound t
          (λ x l e. absurd (omega (arith, gone, rw e at l))) (λ z e. rw e old) (λ e. apart (sym e)))
        (λ x. rw (t.queued, t.forks) (omega arith));
  started = rw t.forks w.started;
  threads = w.threads;
}
Inv-exit (waits s g k) h p ts t w gone old apart = absurd (t.intact p refl)
Inv-exit (stopped g) h p ts t w gone old apart = tt
Inv-exit fault h p ts t w gone old apart = tt
Inv-exit spins h p ts t w gone old apart = tt
