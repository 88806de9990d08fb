-- ===== src/Tests/Typing.antt =====
-- The console's buffer, and fork's search for memory.
use cs170lab.Prelude.{ℕ, ◌+◌, ◌%◌, ◌^◌, ◌≡◌, refl, true, if◌then◌else◌, ◌==◌, arith, update}
use cs170lab.Prelude.Int.{pos}
use cs170lab.Structs.{Pcb, ConsoleBuf}
use cs170lab.Env.Reference.{reference}
use cs170lab.Kernel.{Kernel, exited}
use cs170lab.Sem.Drive.{drive}
use cs170lab.Console.{put_char}
use cs170lab.Console.Ring.{Holds, pushed, put_char-Holds}
use cs170lab.Syscall.{valid_address}
use cs170lab.Syscall.Return.{finished}
use cs170lab.Syscall.Read.{do_read}
use cs170lab.Syscall.Read.Typed.{typed, do_read-typed}
use cs170lab.Tests.Machine

-- The characters 65, 66, 67 and 68 are at the end and at the start of the array.
abbrev letters : ConsoleBuf
letters = record {
  buff = λ i. if i == 254 then 65 else if i == 255 then 66 else if i == 0 then 67 else 68;
  head = 254;
  tail = 2;
  size = 256;
}

abbrev letter : ℕ → ℕ
letter i = if i == 0 then 65 else if i == 1 then 66 else if i == 2 then 67 else 68

letters-Holds : Holds letters 4 letter
letters-Holds = record {
  size = refl;
  head = omega arith;
  tail = refl;
  few = omega arith;
  chars = λ i small. ground arith;
}

-- Process 2 reads 3 characters from number 0, which is the console.
abbrev reader : Pcb
reader = record (Machine.process 0 1 (Machine.args (pos 0) (pos 40) (pos 3))) { fd = λ j. 102 + j }

abbrev typing : Kernel
typing = record (Machine.machine 0 reader reader) {
  console = letters;
  sems = λ s. if s == 80 then 4 else 1;
}

put_char-Holds_example :
    (put_char reference (λ _ h. exited h) typing
      ≡ exited (record typing {
        reads = 1;
        sems = update typing.sems 80 5;
        console = pushed letters (reference.sim.console_read 0 % 2 ^ 8);
      }))
    × Holds
        (pushed letters (reference.sim.console_read 0 % 2 ^ 8))
        5
        (update letter 4 (reference.sim.console_read 0 % 2 ^ 8))
put_char-Holds_example =
    put_char-Holds reference (λ _ h. exited h) typing 4 letter letters-Holds (omega arith)

reader_valid : valid_address reader ≡ true
unfolding valid_address
reader_valid = refl

do_read-typed_example :
    (drive reference (do_read reference 2 typing)
      ≡ exited (finished 2 (pos 3) reader (typed 3 40 0 letter typing)))
    × Holds (typed 3 40 0 letter typing).console 1 (λ i. letter (3 + i))
do_read-typed_example =
    do_read-typed reference typing 2 reader Machine.console_fd 40 3 4 letter (record {
      at = refl;
      valid = reader_valid;
      arg = refl;
      is = refl;
      opened = refl;
      reading = refl;
      console = refl;
      to = refl;
      size = refl;
      ring = letters-Holds;
      stored = omega arith;
      plain = λ i small. ground arith;
      there = omega arith;
      fits = omega arith;
      idle = omega arith;
      apart = omega arith;
      readers_nelem = omega arith;
      readers_nslots = omega arith;
    })
