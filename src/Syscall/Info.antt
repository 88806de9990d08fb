-- ===== src/Syscall/Info.antt =====
-- The calls that report about the process: getpid, get_ppid, getpagesize, getdtablesize, and fstat
-- and ioctl of syscall.c.
use cs170lab.Prelude.{◌||◌, not, if◌then◌else◌}
use cs170lab.Prelude.Int.{pos, add_int, ◌==ℤ◌}
use cs170lab.Structs.{Ptr, page_size, jos_tcgetp}
use cs170lab.Env.{Env}
use cs170lab.Kernel.{Cmd, ◌>>=◌, ◌>>◌, modify, get_pcb, leave_if}
use cs170lab.Syscall.{syscall_return, valid_address}
use cs170lab.Syscall.Errno.{efault, einval}

module _ (env : Env) where
  open env use {sim}

  unfoldable pub getpid : Ptr → Cmd
  getpid p = do c ← get_pcb p; syscall_return env p (pos c.pid)

  unfoldable pub get_ppid : Ptr → Cmd
  get_ppid p = do c ← get_pcb p; parent ← get_pcb c.parent; syscall_return env p (pos parent.pid)

  unfoldable pub getpagesize : Ptr → Cmd
  getpagesize p = syscall_return env p (pos page_size)

  unfoldable pub getdtablesize : Ptr → Cmd
  getdtablesize p = syscall_return env p (pos 64)

  unfoldable pub ioctl : Ptr → Cmd
  unfolding valid_address add_int
  ioctl p = do
    c ← get_pcb p
    leave_if (not (valid_address c)) (syscall_return env p efault)
    leave_if (not (c.my_registers 5 ==ℤ pos 1) || not (c.my_registers 6 ==ℤ pos jos_tcgetp))
        (syscall_return env p einval)
    modify λ h. record h {
      main_memory = sim.ioctl_console_fill (add_int (c.my_registers 7) (pos c.base)) h.main_memory;
    }
    syscall_return env p (pos 0)

  unfoldable pub fstat : Ptr → Cmd
  unfolding valid_address add_int
  fstat p = do
    c ← get_pcb p
    let fd = c.my_registers 5
    leave_if (not (valid_address c)) (syscall_return env p efault)
    let kosstat = add_int (c.my_registers 6) (pos c.base)
    modify λ h.
        if fd ==ℤ pos 0
        then record h { main_memory = sim.stat_buf_fill kosstat 1 h.main_memory }
        else h
    modify λ h.
        if (fd ==ℤ pos 2) || (fd ==ℤ pos 1)
        then record h { main_memory = sim.stat_buf_fill kosstat 256 h.main_memory }
        else h
    syscall_return env p (pos 0)
