-- ===== src/Syscall/Wait.antt =====
-- do_wait of syscall.c: it waits for a child that has exited, and frees what is left of it.
pub mod Collect
pub mod Reap
use cs170lab.Prelude.Int.{pos}
use cs170lab.Structs.{Ptr}
use cs170lab.Env.{Env}
use cs170lab.Kernel.{Cmd, ◌>>=◌, ◌>>◌, modify, deref, get_pcb, set_pcb, free_pcb, wait_for}
use cs170lab.Pid.{destroy_pid}
use cs170lab.Syscall.{syscall_return}

module _ (env : Env) where
  open env use {dll}

  -- What follows `P_kt_sem(curr->waiters_sem)`.
  unfoldable pub collect : Ptr → Cmd
  collect p = do
    c ← get_pcb p
    zombie ← deref (dll.first c.waiters)
    set_pcb p λ c. record c { waiters = dll.delete_first c.waiters }
    child ← get_pcb zombie
    modify (destroy_pid env child.pid)
    free_pcb zombie
    syscall_return env p (pos child.pid)

  unfoldable pub do_wait : Ptr → Cmd
  do_wait p = do c ← get_pcb p; wait_for c.waiters_sem; collect p
