-- ===== src/Tests/Closing.antt =====
-- The last reader of a pipe with a writer.
use cs170lab.Prelude.{◌≡◌, ◌≢◌, refl, some, [], ◌∷◌, arith}
use cs170lab.Prelude.Int.{pos}
use cs170lab.Structs.{Ptr, Pcb, Pipe}
use cs170lab.Env.Reference.{reference}
use cs170lab.Kernel.{Kernel, exited}
use cs170lab.Syscall.{returned}
use cs170lab.Syscall.Close.{do_close}
use cs170lab.Syscall.Close.Alias.{shut}
use cs170lab.Syscall.Close.Last.{do_close-last}
use cs170lab.Tests.Machine

-- Process 2 closes number 0, by which it reads.
abbrev reader : Pcb
reader = Machine.process 0 1 (Machine.args (pos 0) (pos 0) (pos 0))

abbrev machine : Kernel
machine = Machine.machine 0 reader reader

abbrev unread : Pipe
unread = record (Machine.pipe_with 0) { read_count = pos 0 }

do_close-last_example :
    (k : Kernel) × (do_close reference 2 machine ≡ exited k)
    × (k.pcbs 2 ≡ some (returned (pos 0) reader))
    × (k.pipes 50 ≡ some unread)
    × (k.fds 100 ≡ some (shut Machine.reading_fd))
    × (k.sems 63 ≡ 8193)
    × ((s : Ptr) → 63 ≢ s → k.sems s ≡ machine.sems s)
    × (k.readyq ≡ 3 ∷ 2 ∷ [])
do_close-last_example =
    do_close-last reference machine 2 reader 0 Machine.reading_fd (Machine.pipe_with 0)
      (record {
        at = refl;
        arg = refl;
        small = omega arith;
        is = refl;
        opened = refl;
        reading = refl;
        piped = refl;
        pipe = refl;
      })
      refl 0 refl
