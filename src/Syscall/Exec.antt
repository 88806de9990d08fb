-- ===== src/Syscall/Exec.antt =====
-- do_execve of syscall.c: the file name and the arguments are copied out of the user's memory, then
-- the program is loaded. Each loop reads on through memory, so a round for each byte is enough.
pub mod Arguments
pub mod Load
use cs170lab.Prelude.{ℕ, zero, suc, ◌+◌, ◌*◌, List, [], ◌∷◌, if◌then◌else◌}
use cs170lab.Prelude.Int.{ℤ, pos, ◌+ℤ◌, ◌==ℤ◌}
use cs170lab.Structs.{Ptr, memory_size}
use cs170lab.Env.{Env}
use cs170lab.Kernel.{M, Cmd, spins, ◌>>=◌, ◌>>◌, get_pcb, leave_if}
use cs170lab.Memory.{load_word, strdup}
use cs170lab.Loader.{perform_execve}
use cs170lab.Syscall.{execve_return}
use cs170lab.Syscall.Errno.{einval}

-- `while (my_argv[numArg] != NULL) numArg += 1;`
unfoldable pub count_args : ℕ → ℤ → ℕ → M ℕ
count_args zero argv n k = λ h. spins
count_args (suc fuel) argv n k =
    load_word (argv +ℤ pos (4 * n))
      λ w. let rest = count_args fuel argv (n + 1) k in if w ==ℤ pos 0 then k n else rest

-- The loop that fills `array`: `n` rounds, from the argument pointer at `a` on.
unfoldable pub copy_args : ℕ → ℤ → ℕ → M (List (List ℕ))
copy_args zero a base k = k []
copy_args (suc n) a base k =
    load_word a λ offset.
      strdup (offset +ℤ pos base) λ s. copy_args n (a +ℤ pos 4) base (λ rest. k (s ∷ rest))

module _ (env : Env) where
  unfoldable pub do_execve : Ptr → Cmd
  unfolding ◌+ℤ◌
  do_execve p = do
    c ← get_pcb p
    let argv = c.my_registers 6 +ℤ pos c.base
    num_arg ← count_args (memory_size + 1) argv 0
    filename ← strdup (c.my_registers 5 +ℤ pos c.base)
    array ← copy_args num_arg argv c.base
    result ← perform_execve env p filename array
    leave_if (result ==ℤ pos 0) (execve_return env p (pos 0))
    execve_return env p einval
