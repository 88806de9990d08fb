-- ===== src/Tests/Transfer.antt =====
-- Runs over the pipe.
use cs170lab.Prelude.{
  ℕ, ◌+◌, ◌<◌, ◌≡◌, refl, ap, inr, true, some, arith, update, ◌==◌, if◌then◌else◌,
}
use cs170lab.Prelude.Int.{pos}
use cs170lab.Structs.{Pipe, Pcb}
use cs170lab.Env.Reference.{reference}
use cs170lab.Kernel.{Kernel, exited, fault}
use cs170lab.Sem.Drive.{drive}
use cs170lab.Syscall.{valid_address, returned}
use cs170lab.Syscall.Write.{do_write}
use cs170lab.Syscall.Write.Pipe.{moved}
use cs170lab.Syscall.Write.Transfer.{Writes, received, do_write-received, do_write-fault}
use cs170lab.Syscall.Return.{finished}
use cs170lab.Syscall.Read.{do_read}
use cs170lab.Syscall.Read.Pipe.{read_from}
use cs170lab.Syscall.Read.Transfer.{Reads, do_read-delivered, do_read-zero}
use cs170lab.Syscall.Read.Stops.{do_read-stops}
use cs170lab.Roundtrip.{write-read}
use cs170lab.Tests.Machine

-- Process 2 writes 3 bytes, process 3 reads 3 bytes.
abbrev writer : Pcb
writer = Machine.process 0 1 (Machine.args (pos 1) (pos 40) (pos 3))

abbrev reader : Pcb
reader = Machine.process 1 2 (Machine.args (pos 0) (pos 20) (pos 3))

abbrev start : ℕ → Kernel
start head = Machine.machine head writer reader

writes :
    (head : ℕ)
    → head < 8192
    → Writes (start head) 2 writer 1 Machine.writing_fd (Machine.pipe_with head) 40 3
unfolding valid_address
writes head small = record {
  at = refl;
  valid = refl;
  arg = refl;
  small = omega arith;
  is = refl;
  opened = refl;
  writing = refl;
  piped = refl;
  from = refl;
  size = refl;
  fits = omega arith;
  can = record {
    at = refl;
    reader = refl;
    apart = omega arith;
    space = omega arith;
    source = omega arith;
    head = small;
  };
  idle = omega arith;
  write_space = omega arith;
  write_nelement = omega arith;
}

do_write-received_example :
    drive reference (do_write reference 2 (start 0))
    ≡ exited (
        finished 2 (pos 3) writer (record (start 0) {
          pipes =
              update
                (start 0).pipes
                50
                (some (received 3 40 (start 0).main_memory (Machine.pipe_with 0)));
          sems = moved 3 63 62 (start 0).sems;
        }))
do_write-received_example =
    do_write-received reference (start 0) 2 writer 1 Machine.writing_fd (Machine.pipe_with 0) 40 3
      (writes 0 (omega arith)) (omega arith)

-- Two bytes are left in the buffer behind the head, and three are written.
do_write-fault_example : drive reference (do_write reference 2 (start 8190)) ≡ fault
do_write-fault_example =
    do_write-fault reference (start 8190) 2 writer 1 Machine.writing_fd (Machine.pipe_with 8190) 40
      3 (writes 8190 (omega arith)) (omega arith)

-- The kernel of a pipe with the three bytes 65, 66 and 67.
abbrev three_bytes : Pipe
three_bytes = record (Machine.pipe_with 0) {
  buffer = λ i. 65 + i;
  write_head = 3;
  writer_in_use = pos 3;
}

abbrev filled : Kernel
filled = record (start 0) {
  pipes = update (start 0).pipes 50 (some three_bytes);
  sems = update (start 0).sems 62 3;
}

reads :
    (h : Kernel) (q : Pipe)
    → h.pcbs 3 ≡ some reader
    → h.fds 100 ≡ some Machine.reading_fd
    → h.pipes 50 ≡ some q
    → h.sems 60 ≡ 1
    → q.read ≡ 60
    → q.space_available ≡ 63
    → q.nelement ≡ 62
    → Reads h 3 reader 0 Machine.reading_fd q 20 3
unfolding valid_address
reads h q at is pipe idle read space nelement = record {
  at = at;
  valid = refl;
  arg = refl;
  small = omega arith;
  is = is;
  opened = refl;
  reading = refl;
  piped = refl;
  to = refl;
  size = refl;
  pipe = pipe;
  idle = omega (arith, idle, ap h.sems read);
  read_space = omega (arith, read, space);
  read_nelement = omega (arith, read, nelement);
}

do_read-delivered_example :
    drive reference (do_read reference 3 filled)
    ≡ exited (finished 3 (pos 3) reader (read_from 3 (20 + 131072) 0 50 three_bytes filled))
do_read-delivered_example =
    do_read-delivered reference filled 3 reader 0 Machine.reading_fd three_bytes 20 3
      (reads filled three_bytes refl refl refl refl refl refl refl)
      (record {
        at = refl;
        writer = refl;
        counted = λ i small. ground arith;
        plain = λ i small. ground arith;
        apart = omega arith;
        there = omega arith;
        target = omega arith;
        source = omega arith;
        head = omega arith;
      })

-- The second byte in the pipe is the `char` -1.
abbrev minus_one : Pipe
minus_one = record three_bytes { buffer = λ i. if i == 1 then 255 else 65 + i }

abbrev binary : Kernel
binary = record filled { pipes = update (start 0).pipes 50 (some minus_one) }

do_read-stops_example :
    drive reference (do_read reference 3 binary)
    ≡ exited (
        finished 3 (pos 1) reader (record (read_from 1 (20 + 131072) 0 50 minus_one binary) {
          sems = moved 2 62 63 binary.sems;
        }))
do_read-stops_example =
    do_read-stops reference binary 3 reader 0 Machine.reading_fd minus_one 20 3
      (reads binary minus_one refl refl refl refl refl refl refl) 1 (omega arith)
      (record {
        at = refl;
        writer = refl;
        counted = λ i small. ground arith;
        plain = λ i small. ground arith;
        apart = omega arith;
        there = omega arith;
        target = omega arith;
        source = omega arith;
        head = omega arith;
      })
      refl (omega arith) (omega arith) refl

-- Nothing has been written yet, and the writer is still there.
do_read-zero_example :
    drive reference (do_read reference 3 (start 0)) ≡ exited (finished 3 (pos 0) reader (start 0))
do_read-zero_example =
    do_read-zero reference (start 0) 3 reader 0 Machine.reading_fd (Machine.pipe_with 0) 20 3
      (reads (start 0) (Machine.pipe_with 0) refl refl refl refl refl refl refl) (omega arith)
      (inr refl)

reader_valid : valid_address reader ≡ true
unfolding valid_address
reader_valid = refl

write-read_example :
    (k1 : Kernel) × (k2 : Kernel) × (drive reference (do_write reference 2 (start 0)) ≡ exited k1)
    × (drive reference (do_read reference 3 k1) ≡ exited k2)
    × (k1.pcbs 2 ≡ some (returned (pos 3) writer))
    × (k2.pcbs 3 ≡ some (returned (pos 3) reader))
    × ((i : ℕ)
        → i < 3
        → k2.main_memory (pos (20 + 131072 + i)) ≡ (start 0).main_memory (pos (40 + i)))
write-read_example =
    write-read reference (start 0) 2 writer 1 Machine.writing_fd (Machine.pipe_with 0) 40 3
      (writes 0 (omega arith)) (omega arith) 3 reader 0 Machine.reading_fd 20
      (record {
        other = omega arith;
        at = refl;
        valid = reader_valid;
        arg = refl;
        small = omega arith;
        is = refl;
        opened = refl;
        reading = refl;
        piped = refl;
        same = refl;
        to = refl;
        size = refl;
        fits = omega arith;
      })
      (record {
        level = refl;
        none_counted = refl;
        writer = refl;
        idle = omega arith;
        read_space = omega arith;
        read_nelement = omega arith;
      })
      (λ i small. refl)
