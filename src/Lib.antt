-- ===== src/Lib.antt =====
-- The KOS kernel: a small Unix kernel for a simulated MIPS machine.
--
-- The parts, and the files that model them:
-- * Structs is the structures of scheduler.h and console_buf.h and the constants of simulator.h.
--   Kernel is the state: the global variables of all files in one record, and the heap, as maps
--   from addresses to structures. A kernel thread is a `Cmd`, a function from the state to a `Run`:
--   it exits, waits for a semaphore with the rest of the thread as a continuation, ends the
--   simulation, or follows a bad pointer (`fault`).
-- * Env is what the kernel calls and does not implement, a parameter everywhere: libfdr (dllist.c
--   and jval.c are a copy of it; jrb.h), the semaphores of kt.h, and the simulator. Env/Reference
--   is an instance.
-- * Memory is main_memory by bytes and words, and memory_chunk of memory.c. Sem is `malloc`,
--   `kt_fork` and the semaphores as commands; Sem/Drive runs a thread as long as no semaphore
--   blocks it.
-- * Pid and Loader are get_new_pid, destroy_pid and perform_execve of scheduler.c, Boot is its
--   initialize_scheduler and initialize_user_process, memory.c and kos.c. Console is console_buf.c.
-- * Trap is exceptionHandler and interruptHandler of exception.c and `scheduler` of scheduler.c.
--   A trap goes to the scheduler (`joining`), which waits for all threads in kt_joinall and then
--   runs a process, idles or halts.
-- * Syscall is syscall.c, with a module for each call: Info (getpid, get_ppid, getpagesize,
--   getdtablesize, ioctl, fstat), Sbrk, Exec, Fork, Exit, Wait, Close, Dup (dup and dup2), Pipe, Write, Read.
--   A call appends its process to the ready queue when it ends. Syscall/Fork/Counts is the references
--   that descriptors make to the ends of a pipe. Roundtrip is write against read, and Undone is fork
--   against exit of the child and wait of the parent. Trap/Prints has `attend`, which runs a thread
--   while the console's interrupts come.
-- * Threads is what a kernel thread may do between two waits, whatever the other threads do
--   meanwhile, and the proofs that each call keeps to it: Calls, Transfers (read and write), Loading
--   (execve), Family (wait), Ending (exit), Spawning (fork), Starting (initialize_user_process).
-- * System is the whole kernel as a step relation: `user_store` is a store of a user program in its
--   window of the memory, `exception` and `interrupt` are traps of a user program, `start_call`, `start_init` and `start_console` threads that begin, `wake` a thread that gets its
--   semaphore, and `join` the end of kt_joinall, when no thread can run. System/Places counts the
--   places of a process, System/Sound and System/Steps hold the invariant and its proofs. System/Acts
--   tells the calls that go on from those that end a process or make one. System/Life is the abstract
--   view of the kernel, the processes that run, are ready, have asked or wait, with the steps of their
--   life, and System/Steps/Lives relates the kernel to it. System/Steps/Order follows the ready queue
--   from step to step, System/Steps/Decides is about what the scheduler finds,
--   System/Steps/Booted about the kernel that KOS leaves, System/Steps/Isolated about the stores of
--   user programs, and System/Steps/Lost about a process that is in no place.
-- * TeePipe is tee-pipe.c, a program for the kernel, as the tree of the system calls that it makes.
-- * The child modules of these hold the proofs, and Tests the concrete kernels.
--
-- Conventions, bounds and fuel:
-- * A thread is not interrupted between two waits, as kt threads are not preemptive. `malloc`
--   returns a new address and never fails. A register that a call reads is read once, at its start.
-- * An `int` is an integer; sums that the code compares against a limit wrap at 32 bits
--   (`add_int`), and counters that go up and down by 1 are not bounded. A pid is taken modulo 2^16.
-- * The bytes of memory are at 0 to 2^20 - 1; an access elsewhere is a `fault`. So is an access of
--   a pipe's buffer beyond its 8192 bytes.
-- * The loops over the 64 descriptors and the 8 chunks, and those over a length, are recursive on
--   the number of rounds that are left. find_pid has the number of entries of rbtree and one as
--   its fuel. Strings, the argument vector and the loops over children and zombies have fuel from
--   the size of memory, of the tree or of the list, and `spins` stands for a loop that goes on.
--   cons_to_buff is endless: the model is its first rounds.
-- * In the step relation a thread that follows a bad pointer, or runs out of fuel, crashes the
--   kernel, and nothing comes behind it. An interrupt may come at any time in a user program. The
--   relation lets any thread that has its semaphore go on, in any order. The theorems on
--   whole runs take the list `waiters` that `malloc` leaves in a structure to be empty.
--
-- Not modelled: the simulated machine and its other user programs (test/), the two copied
-- files of libfdr, output of DEBUG and printf, and simulator_lab2.h, which declares what
-- simulator.h declares.
pub mod Prelude
pub mod Structs
pub mod Env
pub mod Kernel
pub mod Pid
pub mod Syscall
pub mod Memory
pub mod Loader
pub mod Sem
pub mod Console
pub mod Boot
pub mod Trap
pub mod Roundtrip
pub mod Undone
pub mod Threads
pub mod System
pub mod TeePipe
pub mod Tests
