-- ===== src/Tests/Executing.antt =====
-- An execve.
use cs170lab.Prelude.{ℕ, ◌≡◌, ◌≢◌, refl, [], ◌∷◌, arith, ◌==◌, if◌then◌else◌}
use cs170lab.Prelude.Int.{pos, negsuc}
use cs170lab.Structs.{Mem, Pcb}
use cs170lab.Env.Reference.{reference}
use cs170lab.Kernel.{Kernel, stopped, exited}
use cs170lab.Syscall.Exec.{do_execve}
use cs170lab.Syscall.Exec.Load.{Execs, executed, do_execve-stops, do_execve-starts}
use cs170lab.Tests.Machine

-- The name at 200 is `n`, and the one argument at 400 is 98; the vector is at 300.
abbrev memory : ℕ → Mem
memory n (pos i) =
    if i == 200
    then n
    else if i == 300
    then 144
    else if i == 301
    then 1
    else if i == 400
    then 98
    else 0
memory n (negsuc i) = 0

abbrev caller : Pcb
caller = Machine.process 0 1 (Machine.args (pos 200) (pos 300) (pos 0))

abbrev machine : ℕ → Kernel
machine n = record (Machine.machine 0 caller caller) { main_memory = memory n }

execs : (n : ℕ) → n ≢ 0 → Execs (machine n) 2 caller 200 300 (n ∷ []) ((400, 98 ∷ []) ∷ [])
execs n some_name = record {
  at = refl;
  file = refl;
  vector = refl;
  name = (refl, some_name, omega arith, (omega arith, refl));
  short = omega arith;
  args = (
    (refl, omega arith, omega arith),
    omega arith,
    (refl, omega arith, omega arith, (omega arith, refl)),
    omega arith,
    (refl, omega arith, omega arith),
  );
  few = omega arith;
}

do_execve-starts_example :
    do_execve reference 2 (machine 97)
    ≡ exited (
        executed reference
          (machine 97)
          2
          caller
          200
          300
          (97 ∷ [])
          ((400, 98 ∷ []) ∷ [])
          (execs 97 (omega arith)))
do_execve-starts_example =
    do_execve-starts reference (machine 97) 2 caller 200 300 (97 ∷ []) ((400, 98 ∷ []) ∷ [])
      (execs 97 (omega arith)) 4096 refl

-- There is no program of an empty name.
unnamed : Execs (machine 0) 2 caller 200 300 [] ((400, 98 ∷ []) ∷ [])
unnamed = record {
  at = refl;
  file = refl;
  vector = refl;
  name = (omega arith, refl);
  short = omega arith;
  args = (
    (refl, omega arith, omega arith),
    omega arith,
    (refl, omega arith, omega arith, (omega arith, refl)),
    omega arith,
    (refl, omega arith, omega arith),
  );
  few = omega arith;
}

do_execve-stops_example : do_execve reference 2 (machine 0) ≡ stopped (machine 0)
do_execve-stops_example =
    do_execve-stops reference (machine 0) 2 caller 200 300 [] ((400, 98 ∷ []) ∷ []) unnamed 0 refl
