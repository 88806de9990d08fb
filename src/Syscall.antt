-- ===== src/Syscall.antt =====
-- How a system call of syscall.c begins and ends: ValidAddress, syscall_return, execve_return, and
-- the calls that only report a number. Each call has a module below this one.
pub mod Errno
pub mod Return
pub mod Info
pub mod Sbrk
pub mod Exec
pub mod Fork
pub mod Exit
pub mod Wait
pub mod Close
pub mod Dup
pub mod Pipe
pub mod Write
pub mod Read
pub mod Refuse
use cs170lab.Prelude.{ℕ, Bool, not, ◌&&◌, ◌||◌, List, update}
use cs170lab.Prelude.Int.{ℤ, pos, ltb_ℤ}
use cs170lab.Structs.{Ptr, Pcb, ret_addr_reg, pc_reg, next_pc_reg}
use cs170lab.Env.{Env}
use cs170lab.Kernel.{Kernel, Cmd, exited, ◌>>=◌, ◌>>◌, modify, get_pcb, set_pcb, leave_if}

-- `ValidAddress` looks at the register that holds the return address.
unfoldable pub valid_address : Pcb → Bool
valid_address c =
    not (ltb_ℤ (c.my_registers ret_addr_reg) (pos 0))
    && not (ltb_ℤ (pos c.limit) (c.my_registers ret_addr_reg))

-- `fd < 0 || fd >= 64`
unfoldable pub bad_fd : ℤ → Bool
bad_fd fd = ltb_ℤ fd (pos 0) || not (ltb_ℤ fd (pos 64))

-- The PCB that `syscall_return` puts on the ready queue.
unfoldable pub returned : ℤ → Pcb → Pcb
returned value c = record c {
  my_registers = update (update c.my_registers pc_reg (c.my_registers next_pc_reg)) 2 value;
}

-- The PCB that `execve_return` puts there.
unfoldable pub restarted : ℤ → Pcb → Pcb
restarted value c = record c {
  my_registers = update (update (update c.my_registers pc_reg (pos 0)) next_pc_reg (pos 4)) 2 value;
}

module _ (env : Env) where
  open env use {dll}

  -- `dll_append(readyq, pcb); kt_exit();`
  unfoldable pub make_ready : Ptr → Cmd
  make_ready p h = exited (record h { readyq = dll.append h.readyq p })

  unfoldable pub syscall_return : Ptr → ℤ → Cmd
  unfolding returned make_ready
  syscall_return p value = do set_pcb p (returned value); make_ready p

  unfoldable pub execve_return : Ptr → ℤ → Cmd
  unfolding restarted make_ready
  execve_return p value = do set_pcb p (restarted value); make_ready p
