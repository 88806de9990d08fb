-- ===== src/Tests/Forking.antt =====
-- A fork.
use cs170lab.Prelude.{◌+◌, ◌≡◌, ◌⊎◌, refl, inl, inr, false, some, [], ◌∷◌, arith, ℕ_discrete}
use cs170lab.Prelude.Int.{pos}
use cs170lab.Structs.{Pcb, Pipe}
use cs170lab.Env.Reference.{reference}
use cs170lab.Kernel.{Kernel, exited}
use cs170lab.Syscall.Fork.{do_fork}
use cs170lab.Syscall.Fork.Copy.{Copyable}
use cs170lab.Syscall.Fork.Counts.{refers}
use cs170lab.Syscall.Fork.Child.{Born, do_fork-Born}
use cs170lab.Syscall.Fork.Total.{Outcome, do_fork-Outcome}
use cs170lab.Syscall.Fork.Child.{Forks}
use cs170lab.Undone.Circle.{Circle}
use cs170lab.Tests.Machine

abbrev caller : Pcb
caller = Machine.process 0 1 (Machine.args (pos 0) (pos 0) (pos 0))

abbrev machine : Kernel
machine = Machine.machine 0 caller caller

-- Numbers 0 and 1 refer to the pipe.
table : Copyable machine (λ j. 100 + j) 1000 0 64
table j low high = (Machine.fd_at (100 + j), omega arith, refl, piped)
  where
    piped :
        (refers (Machine.fd_at (100 + j)) ≡ false)
        ⊎ ((q : Pipe) × (machine.pipes (Machine.fd_at (100 + j)).my_pipe ≡ some q))
    piped = elim (ℕ_discrete j 0) [
      | yes e ↦ inr (Machine.pipe_with 0, rw e refl)
      | no e ↦ elim (ℕ_discrete j 1) [
        | yes e' ↦ inr (Machine.pipe_with 0, rw e' refl)
        | no e' ↦ inl (ground arith)
      ]
    ]

forks : Forks machine 2 caller 2
forks = record {
  at = refl;
  old = omega arith;
  small = omega arith;
  free = refl;
  least = λ j small. ground arith;
  from = omega arith;
  to = omega arith;
  table = table;
}

-- All chunks are taken.
abbrev crowded : Kernel
crowded = record machine { memory_chunk = λ i. 1 }

do_fork-Born_example :
    (k : Kernel) × (do_fork reference 2 machine ≡ exited k) × Born machine k 2 1000 caller 2
do_fork-Born_example = do_fork-Born reference machine 2 caller 2 forks

do_fork-Outcome_example : Outcome reference crowded 2 caller
do_fork-Outcome_example =
    do_fork-Outcome reference crowded 2 caller refl (omega arith) refl (omega arith) table

-- Process 2 has a child, with the number 2.
abbrev family : Pcb
family = record caller { children = (2, 3) ∷ [] }

abbrev home : Kernel
home = Machine.machine 0 family caller
