-- ===== src/Tests/Waiting.antt =====
-- A child that ends, and its parent.
use cs170lab.Prelude.{◌≡◌, refl, some, none, [], ◌∷◌, arith, Option, update, ◌==◌, if◌then◌else◌}
use cs170lab.Prelude.Int.{pos}
use cs170lab.Structs.{Ptr, Pipe, Pcb}
use cs170lab.Env.Reference.{reference}
use cs170lab.Kernel.{Kernel, exited}
use cs170lab.Sem.Drive.{drive}
use cs170lab.Syscall.Return.{finished}
use cs170lab.Syscall.Exit.Rounds.{Counts}
use cs170lab.Syscall.Wait.{do_wait}
use cs170lab.Syscall.Wait.Collect.{Collects, relieved, collected, do_wait-collected}
use cs170lab.Tests.Machine

-- Process 3, of number 2, is the child of process 2, of number 1.
abbrev parent : Pcb
parent = record (Machine.process 0 1 (Machine.args (pos 0) (pos 0) (pos 0))) {
  children = (2, 3) ∷ [];
}

abbrev child : Pcb
child = record (Machine.process 1 2 (Machine.args (pos 0) (pos 0) (pos 0))) { parent = 2 }

-- The pipe counts two readers and two writers, of which one each is the child.
abbrev shared_pipe : Pipe
shared_pipe = record (Machine.pipe_with 0) { read_count = pos 2; write_count = pos 2 }

abbrev machine : Kernel
machine = record (Machine.machine 0 parent child) {
  pipes = update (λ a. none) 50 (some shared_pipe);
}

abbrev base : Ptr → Option Pipe
base = update (λ a. none) 50 (some (Machine.pipe_with 0))

-- The child has ended, and its parent has not waited.
abbrev mother : Pcb
mother = record parent { waiters = 3 ∷ [] }

abbrev with_zombie : Kernel
with_zombie = record (Machine.machine 0 mother child) { sems = λ s. if s == 71 then 1 else 0 }

Collects-with_zombie : Collects with_zombie 2 3 mother child [] 0 (2, 0)
Collects-with_zombie = record {
  at = refl;
  first = refl;
  count = refl;
  apart = omega arith;
  is = refl;
  used = refl;
}

do_wait-collected_example :
    drive reference (do_wait reference 2 with_zombie)
    ≡ exited (
        finished 2
          (pos 2)
          (relieved reference with_zombie 2 3 mother child [] 0 (2, 0) Collects-with_zombie)
          (collected reference with_zombie 2 3 mother child [] 0 (2, 0) Collects-with_zombie))
do_wait-collected_example =
    do_wait-collected reference with_zombie 2 3 mother child [] 0 (2, 0) Collects-with_zombie
