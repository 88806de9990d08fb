-- ===== src/Trap.antt =====
-- The main thread: exceptionHandler and interruptHandler of exception.c, and scheduler of
-- scheduler.c. `kt_joinall` runs the other threads until each has ended or waits; what it leaves is
-- the kernel that `dispatch` gets. The timer is the simulator's.
pub mod Turns
pub mod Idle
pub mod Prints
use cs170lab.Prelude.{ℕ, true, false, Option, none, some, [], ◌∷◌, ◌++◌, if◌then◌else◌, ◌==◌}
use cs170lab.Prelude.Int.{ℤ, pos, negsuc}
use cs170lab.Structs.{Ptr, null, Regs}
use cs170lab.Env.{Env}
use cs170lab.Kernel.{Kernel, Call, Task, put_pcb}

-- `ExceptionType` and `IntType` of simulator.h.
pub data Exception : Type 0 where
  syscall page_fault bus_error address_error overflow illegal_instr unknown : Exception

pub data Interrupt : Type 0 where
  timer disk console_write console_read network_send network_recv : Interrupt

-- Where the main thread goes: to `kt_joinall` in scheduler, into a user program, into `noop`, to
-- the end of the simulation, by `SYSHalt` or by `exit(1)`, or through a bad pointer.
pub data Main : Type 0 where
  joining : Kernel → Main
  runs : Ptr → Regs → Kernel → Main
  idles : Kernel → Main
  halts : Kernel → Main
  aborts : Kernel → Main
  crashes : Main

-- The `switch` over the number of the call, but for 0.
unfoldable pub call_of : ℕ → Option Call
call_of n =
    if n == 1
    then some Call.exit
    else if n == 4
    then some Call.write
    else if n == 3
    then some Call.read
    else if n == 54
    then some Call.ioctl
    else if n == 62
    then some Call.fstat
    else if n == 64
    then some Call.getpagesize
    else if n == 69
    then some Call.sbrk
    else if n == 59
    then some Call.execve
    else if n == 20
    then some Call.getpid
    else if n == 2
    then some Call.fork
    else if n == 89
    then some Call.getdtablesize
    else if n == 6
    then some Call.close
    else if n == 7
    then some Call.wait
    else if n == 39
    then some Call.getppid
    else if n == 42
    then some Call.pipe
    else if n == 41
    then some Call.dup
    else if n == 90
    then some Call.dup2
    else none

-- `kt_fork(…, curr)`, then `scheduler()`.
abbrev pub fork_for : Option Call → Kernel → Main
fork_for none h = halts h
fork_for (some c) h = joining (record h { forked = h.forked ++ Task.user c h.curr ∷ [] })

-- A system call by its number: 0 halts, and so does a number that no call has.
unfoldable pub system_call : ℤ → Kernel → Main
unfolding call_of
system_call (pos n) h = if n == 0 then halts h else fork_for (call_of n) h
system_call (negsuc n) h = halts h

abbrev pub handle : Exception → ℤ → Kernel → Main
handle syscall type h = system_call type h
handle unknown type h = aborts h
handle _ type h = joining h

-- `curr->my_registers` and `curr` behind the test of `is_noop`; `machine` holds the registers that
-- `examine_registers` reads.
unfoldable pub exception_handler : Regs → Exception → Kernel → Main
unfolding system_call
exception_handler machine which h = elim (h.pcbs h.curr) [
  | none ↦ crashes
  | some c ↦
      if h.is_noop
      then handle which (c.my_registers 4) h
      else handle which (machine 4) (put_pcb h.curr (record c { my_registers = machine }) h)
]

module _ (env : Env) where
  open env use {dll, jrb, kt}

  abbrev pub signal : Interrupt → Kernel → Kernel
  signal console_read h = record h { sems = kt.v h.sems h.console_wait }
  signal console_write h = record h { sems = kt.v h.sems h.writeok }
  signal _ h = h

  unfoldable pub interrupt_handler : Regs → Interrupt → Kernel → Main
  interrupt_handler machine which h =
      if h.is_noop then joining (signal which h) else elim (h.pcbs h.curr) [
        | none ↦ crashes
        | some c ↦
            let saved = put_pcb h.curr (record c { my_registers = machine }) h in
            joining (signal which (record saved { readyq = dll.append h.readyq h.curr }))
      ]

  -- scheduler, behind `kt_joinall`: the processes take turns.
  unfoldable pub dispatch : Kernel → Main
  dispatch h =
      if dll.is_empty h.readyq
      then elim (h.pcbs h.init) [
        | none ↦ crashes
        | some i ↦
            if jrb.is_empty i.children
            then halts (record h { curr = null })
            else idles (record h { curr = null; is_noop = true })
      ]
      else elim (dll.first h.readyq) [
        | none ↦ crashes
        | some top ↦ elim (h.pcbs top) [
          | none ↦ crashes
          | some c ↦ runs top c.my_registers (record h {
            curr = top;
            readyq = dll.delete_first h.readyq;
            is_noop = false;
            user_base = c.base;
            user_limit = c.limit;
          })
        ]
      ]
