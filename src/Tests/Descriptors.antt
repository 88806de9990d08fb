-- ===== src/Tests/Descriptors.antt =====
-- Descriptors: dup, close, pipe, and the calls that do not take one.
use cs170lab.Prelude.{ℕ, ◌+◌, ◌<◌, ◌≡◌, refl, ap, true, some, arith, update, ◌==◌, if◌then◌else◌}
use cs170lab.Prelude.Int.{ℤ, pos}
use cs170lab.Structs.{Fd, Pipe, Pcb}
use cs170lab.Env.Reference.{reference}
use cs170lab.Kernel.{Kernel, exited, fault, put_pcb}
use cs170lab.Syscall.Errno.{ebadf, emfile}
use cs170lab.Syscall.Return.{finished}
use cs170lab.Syscall.Dup.{do_dup, do_dup2}
use cs170lab.Syscall.Dup.Replace.{both_less, shut, do_dup2-replaces, do_dup2-same}
use cs170lab.Syscall.Dup.Find.{First}
use cs170lab.Syscall.Dup.Share.{Dups, shared, do_dup-shared, do_dup-fault}
use cs170lab.Syscall.Close.{do_close}
use cs170lab.Syscall.Close.Alias.{one_less, do_close-shared}
use cs170lab.Syscall.Pipe.{do_pipe}
use cs170lab.Syscall.Pipe.Create.{claimed, do_pipe-leak}
use cs170lab.Syscall.Pipe.Success.{Made, do_pipe-connected}
use cs170lab.Tests.Machine

-- A process whose register 5 holds `n`.
abbrev calls : ℤ → Pcb
calls n = Machine.process 0 1 (Machine.args n (pos 0) (pos 0))

abbrev with : ℤ → Kernel
with n = Machine.machine 0 (calls n) (calls n)

dups :
    (old : ℕ) (f : Fd)
    → old < 64
    → Machine.fd_at (100 + old) ≡ f
    → f.is_open ≡ true
    → Dups (with (pos old)) 2 (calls (pos old)) old f
dups old f small is opened = record {
  at = refl;
  arg = refl;
  small = small;
  is = ap some is;
  opened = opened;
  table = λ j low high. (Machine.fd_at (100 + j), refl);
}

do_dup-shared_example :
    (new : ℕ) × First (with (pos 0)) (λ j. 100 + j) 0 64 (some new)
    × (do_dup reference 2 (with (pos 0))
        ≡ exited (
            finished 2
              (pos new)
              (record (calls (pos 0)) { fd = update (λ j. 100 + j) new 100 })
              (shared 2 100 new
                (calls (pos 0))
                Machine.reading_fd
                (Machine.pipe_with 0)
                (with (pos 0)))))
do_dup-shared_example =
    do_dup-shared reference (with (pos 0)) 2 (calls (pos 0)) 0 Machine.reading_fd
      (dups 0 Machine.reading_fd (omega arith) refl refl) (Machine.pipe_with 0) 3 refl (omega arith)
      (Machine.closed_fd, refl, refl)

-- Number 2 is the console.
do_dup-fault_example : do_dup reference 2 (with (pos 2)) ≡ fault
do_dup-fault_example =
    do_dup-fault reference (with (pos 2)) 2 (calls (pos 2)) 2 Machine.console_fd
      (dups 2 Machine.console_fd (omega arith) refl refl) 3 refl (omega arith)
      (Machine.closed_fd, refl, refl)

-- The kernel in which the numbers named are not open, and all others are.
abbrev only_free : ℕ → Kernel
only_free i = record (with (pos 0)) {
  fds = λ a. some (if a == 100 + i then Machine.closed_fd else Machine.reading_fd);
}

do_pipe-leak_example :
    do_pipe reference 2 (only_free 5)
    ≡ exited (finished 2 emfile (calls (pos 0)) (claimed 105 Machine.closed_fd (only_free 5)))
do_pipe-leak_example =
    do_pipe-leak reference (only_free 5) 2 (calls (pos 0)) refl
      (λ j low high. (if 100 + j == 105 then Machine.closed_fd else Machine.reading_fd, refl)) 5
      Machine.closed_fd (omega arith) refl refl
      (λ j low apart. (Machine.reading_fd, ground arith, refl))

do_pipe-connected_example : Made reference (with (pos 40)) 2 (calls (pos 40)) 40
do_pipe-connected_example =
    do_pipe-connected reference (with (pos 40)) 2 (calls (pos 40)) 40 refl
      (λ j low high. (Machine.fd_at (100 + j), refl)) refl (omega arith) 3 4 (omega arith)
      (omega arith) (Machine.closed_fd, refl, refl) (Machine.closed_fd, refl, refl) (omega arith)

-- Numbers 0 and 1 share a descriptor, of a pipe with two readers.
abbrev sharing : ℤ → Pcb
sharing n = record (calls n) { fd = λ j. if j == 1 then 100 else 100 + j }

abbrev two_readers : Pipe
two_readers = record (Machine.pipe_with 0) { read_count = pos 2 }

abbrev shared_kernel : Kernel
shared_kernel = record (with (pos 0)) {
  pcbs = update (with (pos 0)).pcbs 2 (some (sharing (pos 0)));
  pipes = update (with (pos 0)).pipes 50 (some two_readers);
}

do_close-shared_example :
    (k : Kernel) × (do_close reference 2 shared_kernel ≡ exited k)
    × (k.pipes 50 ≡ some (one_less 0 two_readers))
    × (do_close reference 2 (put_pcb 2 (sharing (pos 1)) k)
        ≡ exited (finished 2 ebadf (sharing (pos 1)) (put_pcb 2 (sharing (pos 1)) k)))
do_close-shared_example =
    do_close-shared reference shared_kernel 2 (sharing (pos 0)) 0 0 Machine.reading_fd two_readers
      (record {
        at = refl;
        arg = refl;
        small = omega arith;
        is = refl;
        opened = refl;
        reading = refl;
        piped = refl;
        pipe = refl;
      })
      refl 1 (sharing (pos 1)) (omega arith) refl refl

-- A process that calls dup2.
abbrev moving : ℕ → ℕ → Pcb
moving old new = Machine.process 0 1 (Machine.args (pos old) (pos new) (pos 0))

abbrev moving_kernel : ℕ → ℕ → Kernel
moving_kernel old new = Machine.machine 0 (moving old new) (moving old new)

-- Number 0 is for reading, and number 1 for writing.
do_dup2-replaces_example :
    do_dup2 reference 2 (moving_kernel 0 1)
    ≡ exited (
        finished 2
          (pos 1)
          (record (moving 0 1) { fd = update (moving 0 1).fd 1 100 })
          (shared 2 100 1
            (moving 0 1)
            Machine.reading_fd
            (both_less (Machine.pipe_with 0))
            (shut 101 Machine.writing_fd (Machine.pipe_with 0) (moving_kernel 0 1))))
do_dup2-replaces_example =
    do_dup2-replaces reference (moving_kernel 0 1) 2 (moving 0 1) 0 1 Machine.reading_fd
      Machine.writing_fd
      (record {
        at = refl;
        arg = refl;
        small = omega arith;
        is = refl;
        opened = refl;
        to = refl;
        small_to = omega arith;
        target = refl;
      })
      (Machine.pipe_with 0) (both_less (Machine.pipe_with 0)) refl (omega arith) refl refl

do_dup2-same_example : do_dup2 reference 2 (moving_kernel 0 0) ≡ fault
do_dup2-same_example =
    do_dup2-same reference (moving_kernel 0 0) 2 (moving 0 0) 0 0 Machine.reading_fd
      Machine.reading_fd
      (record {
        at = refl;
        arg = refl;
        small = omega arith;
        is = refl;
        opened = refl;
        to = refl;
        small_to = omega arith;
        target = refl;
      })
      (Machine.pipe_with 0) refl refl refl refl (omega arith)
