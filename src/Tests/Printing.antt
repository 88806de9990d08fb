-- ===== src/Tests/Printing.antt =====
-- A write to the console.
use cs170lab.Prelude.{◌≡◌, inl, refl, true, false, arith, some, ◌==◌, if◌then◌else◌, [], ◌∷◌}
use cs170lab.Prelude.Int.{pos, ◌==ℤ◌}
use cs170lab.Structs.{Fd, Pcb}
use cs170lab.Env.Reference.{reference}
use cs170lab.Kernel.{Kernel, exited}
use cs170lab.Syscall.{valid_address}
use cs170lab.Syscall.Return.{finished}
use cs170lab.Syscall.Write.{do_write}
use cs170lab.Trap.Prints.{attend, printed, do_write-printed}
use cs170lab.Tests.Machine

-- Process 2 writes 3 bytes from the address 40 on to number 1.
abbrev writer : Pcb
writer = Machine.process 0 1 (Machine.args (pos 1) (pos 40) (pos 3))

abbrev console_out : Fd
console_out = record Machine.console_fd { is_read = false }

abbrev printing : Kernel
printing = record (Machine.machine 0 writer writer) {
  fds = λ a. some console_out;
  main_memory = λ a. if a ==ℤ pos 41 then 66 else 65;
  sems = λ s. if s == 84 then 1 else 0;
}

writer_valid : valid_address writer ≡ true
unfolding valid_address
writer_valid = refl

what_is_written : (printed 3 40 printing).written ≡ 65 ∷ 66 ∷ 65 ∷ []
what_is_written = refl

do_write-printed_example :
    attend reference (do_write reference 2 printing)
    ≡ exited (finished 2 (pos 3) writer (printed 3 40 printing))
do_write-printed_example = do_write-printed reference printing 2 writer 1 console_out 40 3 (record {
  at = refl;
  valid = writer_valid;
  arg = refl;
  number = inl refl;
  is = refl;
  opened = refl;
  writing = refl;
  console = refl;
  from = refl;
  size = refl;
  fits = omega arith;
  target = omega arith;
  idle = omega arith;
  apart = omega arith;
})
