-- ===== src/Syscall/Sbrk.antt =====
-- do_sbrk of syscall.c. (`curr->sbrk_ptr == 0;` there is a comparison, without effect.)
pub mod Grow
use cs170lab.Prelude.{not}
use cs170lab.Prelude.Int.{pos, ltb_ℤ, add_int}
use cs170lab.Structs.{Ptr}
use cs170lab.Env.{Env}
use cs170lab.Kernel.{Cmd, ◌>>=◌, ◌>>◌, get, get_pcb, set_pcb, leave_if}
use cs170lab.Syscall.{syscall_return, valid_address}
use cs170lab.Syscall.Errno.{efault, enomem}

module _ (env : Env) where
  unfoldable pub do_sbrk : Ptr → Cmd
  do_sbrk p = do
    c ← get_pcb p
    leave_if (not (valid_address c)) (syscall_return env p efault)
    let oldsbrk = c.sbrk_ptr
    let add = c.my_registers 5
    h ← get
    leave_if (ltb_ℤ (pos h.user_limit) (add_int oldsbrk add)) (syscall_return env p enomem)
    set_pcb p λ c. record c { sbrk_ptr = add_int c.sbrk_ptr add }
    syscall_return env p oldsbrk
