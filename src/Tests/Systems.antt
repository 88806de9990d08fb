-- ===== src/Tests/Systems.antt =====
-- The kernel with two processes, as a whole.
use mathlib.Core.Option.{some-injective, none-ne-some}
use cs170lab.Prelude.{
  List, none, ℕ, ap, ◌∙◌, Option, ◌+◌, ◌≤◌, ◌≡◌, ◌≢◌, ◌⊎◌, inl, inr, refl, sym, some, [], ◌∷◌,
  arith, update, ℕ_discrete, ==_ne,
}
use cs170lab.Prelude.Int.{pos}
use cs170lab.Structs.{Ptr, Regs, Pcb}
use cs170lab.Env.Reference.{reference}
use cs170lab.Kernel.{Kernel, Cmd}
use cs170lab.Trap.{joining, runs, timer, page_fault, exception_handler, interrupt_handler, dispatch}
use cs170lab.Threads.{In, Zombie, Follows}
use cs170lab.Threads.Ending.{do_exit-Follows}
use cs170lab.Syscall.Exit.{do_exit}
use cs170lab.System.{Reach, stored, user_store, interrupt, join, here, next}
use cs170lab.System.Places.{count, total}
use cs170lab.System.Sound.{Placed}
use cs170lab.System.Steps.{Inv, Kept, AtStart}
use cs170lab.Boot.{kos}
use cs170lab.System.Steps.Booted.{Booted, kos-Booted}
use cs170lab.System.Steps.Reached.{Apart, Reach-Kept, Reach-Apart}
use cs170lab.System.Steps.Lost.{places}
use cs170lab.System.Steps.Lost.Forever.{Reach-lost}
use cs170lab.System.Steps.Decides.{Decides, Reach-Decides}
use cs170lab.System.Steps.Order.Reached.{Over, Behind, HadTurn, Reach-Behind}
use cs170lab.System.Life.{view, Shows}
use cs170lab.System.Steps.Lives.Reached.{Reach-Shows}
use cs170lab.Tests.Machine

abbrev regs : Regs
regs = Machine.args (pos 0) (pos 600) (pos 3)

abbrev first : Pcb
first = Machine.process 0 1 regs

abbrev second : Pcb
second = Machine.process 1 2 regs

abbrev machine : Kernel
machine = Machine.machine 0 first second

-- No process waits to be collected.
empty :
    (s c : Pcb) (o : Option Pcb) (z : Ptr)
    → s.waiters ≡ []
    → o ≡ some s
    → o ≡ some c
    → In z c.waiters
    → ⊥
empty s c o z e is at m = rw (ap (λ c. c.waiters) (some-injective c s (sym at ∙ is)) ∙ e) at m

no-Zombie : (z : Ptr) → Zombie machine.pcbs z → ⊥
no-Zombie z (a, c, at, m) = elim (ℕ_discrete a 3) [
  | yes e ↦ empty second c (machine.pcbs a) z refl (ap machine.pcbs e) at m
  | no e ↦ elim (ℕ_discrete a 2) [
    | yes e' ↦ empty first c (machine.pcbs a) z refl (ap machine.pcbs e') at m
    | no e' ↦ elim (ℕ_discrete a 1) [
      | yes e'' ↦ empty Machine.init_process c (machine.pcbs a) z refl (ap machine.pcbs e'') at m
      | no e'' ↦ none-ne-some c (
          rw (==_ne 3 a (λ l. e (sym l)), ==_ne 2 a (λ l. e' (sym l)), ==_ne 1 a (λ l. e'' (sym l)))
            at at)
    ]
  ]
]

Placed-first : Placed machine 2
Placed-first = record {
  c = first;
  at = refl;
  number = omega arith;
  base = refl;
  limit = refl;
  taken = λ e. omega (arith, e);
  old = omega arith;
  alive = no-Zombie 2;
}

Placed-second : Placed machine 3
Placed-second = record {
  c = second;
  at = refl;
  number = omega arith;
  base = refl;
  limit = refl;
  taken = λ e. omega (arith, e);
  old = omega arith;
  alive = no-Zombie 3;
}

standing : (x : Ptr) → 1 ≤ total x machine [] + count x (2 ∷ []) → (x ≡ 2) ⊎ (x ≡ 3)
standing x l = ground arith

apart :
    (x y : Ptr) (c d : Pcb)
    → 1 ≤ total x machine [] + count x (2 ∷ [])
    → 1 ≤ total y machine [] + count y (2 ∷ [])
    → x ≢ y
    → machine.pcbs x ≡ some c
    → machine.pcbs y ≡ some d
    → c.memory_num ≢ d.memory_num
apart x y c d p q e at is = elim (standing x p) [
  | inl l ↦ elim (standing y q) [
    | inl r ↦ absurd (e (l ∙ sym r))
    | inr r ↦
        rw
          (
            some-injective c first (sym at ∙ ap machine.pcbs l),
            some-injective d second (sym is ∙ ap machine.pcbs r),
          )
          (λ z. absurd (omega (arith, z)))
  ]
  | inr l ↦ elim (standing y q) [
    | inl r ↦
        rw
          (
            some-injective c second (sym at ∙ ap machine.pcbs l),
            some-injective d first (sym is ∙ ap machine.pcbs r),
          )
          (λ z. absurd (omega (arith, z)))
    | inr r ↦ absurd (e (l ∙ sym r))
  ]
]

Inv-machine : Inv (runs 2 regs machine) []
Inv-machine = (
  refl,
  refl,
  (first, refl, refl, refl),
  record {
    sound = record {
      once = λ x. ground arith;
      placed =
          λ x l. elim (standing x l) [ inl e ↦ rw e Placed-first | inr e ↦ rw e Placed-second ];
      apart = apart;
      zombies = λ z m. absurd (no-Zombie z m);
      whole = refl;
      root = record {
        d = Machine.init_process;
        at = refl;
        nowhere = refl;
        alive = no-Zombie 1;
        old = omega arith;
      };
    };
    started = tt;
    threads = tt;
  },
)

-- The kernel behind a store of process 2 and a timer interrupt, and the one that the scheduler makes of it.
abbrev ticked : Kernel
ticked = record (stored 5 9 machine) {
  pcbs = update machine.pcbs 2 (some first);
  readyq = 3 ∷ 2 ∷ [];
}

abbrev turned : Kernel
turned = record ticked { curr = 3; readyq = 2 ∷ []; user_base = 131072 }

Reach-ticked : Reach reference (runs 2 regs machine) [] (joining ticked) []
unfolding interrupt_handler
Reach-ticked =
    next (next here (user_store 5 9 2 regs machine [] (omega arith) (omega arith)))
      (interrupt regs timer 2 regs (stored 5 9 machine) [])

Reach-turned : Reach reference (runs 2 regs machine) [] (runs 3 regs turned) []
unfolding dispatch
Reach-turned = next Reach-ticked (join ticked [] refl tt)

Reach-Kept_example : Kept (runs 3 regs turned) []
Reach-Kept_example = Reach-Kept reference refl Reach-turned (inr Inv-machine)

Reach-Shows_example : Shows (view (runs 2 regs machine) []) (runs 3 regs turned) []
Reach-Shows_example = Reach-Shows reference refl Reach-turned Inv-machine

Reach-Apart_example :
    (total 3 turned [] ≡ 0)
    × ((q : Ptr)
        → 1 ≤ total q turned []
        → (d : Pcb) × (turned.pcbs q ≡ some d)
          × Apart turned.user_base turned.user_limit d.base d.limit)
Reach-Apart_example = Reach-Apart reference refl 3 regs turned [] (inr Inv-machine) Reach-turned

-- Process 3, which is ready at the start.
Reach-Behind_example :
    Over (runs 3 regs turned)
    ⊎ Behind 3 [] [] (runs 3 regs turned)
    ⊎ HadTurn reference 3 (runs 2 regs machine) [] (runs 3 regs turned) []
Reach-Behind_example = Reach-Behind reference refl 3 [] [] Reach-turned Inv-machine refl

Reach-Decides_example : Decides reference ticked
Reach-Decides_example = Reach-Decides reference refl ticked [] (inr Inv-machine) Reach-ticked refl

do_exit-Follows_example :
    Follows
      (λ a. a ≡ 2)
      (λ q. q)
      (record machine { memory_chunk = update machine.memory_chunk 0 0 })
      (do_exit reference 2 machine)
do_exit-Follows_example = do_exit-Follows reference 2 machine first refl

-- The name of a program.
abbrev argv : List (List ℕ)
argv = (97 ∷ []) ∷ []

abbrev off : Kernel
off = record machine { pcbs = λ a. none }

kos-Booted_example :
    (g : Kernel) × ((k : Unit {0} → Cmd) → kos reference argv k off ≡ k tt g)
    × Booted off argv g
    × AtStart (joining g) []
kos-Booted_example = kos-Booted reference argv off (λ a. refl) refl

-- The kernel when process 2 has made a page fault, and when process 3 runs then.
abbrev faulted : Kernel
faulted = record machine { pcbs = update machine.pcbs 2 (some first) }

abbrev going_on : Kernel
going_on = record faulted { curr = 3; readyq = []; user_base = 131072 }

Reach-going_on :
    Reach reference (exception_handler regs page_fault machine) [] (runs 3 regs going_on) []
unfolding exception_handler dispatch
Reach-going_on = next here (join faulted [] refl tt)

Reach-lost_example : places 2 (runs 3 regs going_on) [] ≡ 0
Reach-lost_example =
    Reach-lost reference refl regs page_fault 2 regs machine [] tt Inv-machine Reach-going_on
