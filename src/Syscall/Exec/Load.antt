-- ===== src/Syscall/Exec/Load.antt =====
-- do_execve, from the call to the start of the program.
use cs170lab.Prelude.{
  ℕ, ◌+◌, ◌*◌, ◌≤◌, ◌≡◌, ap, ◌∙◌, List, [], ◌∷◌, ◌++◌, some, Option, true, false, update-update,
  arith, length, ==_refl, update,
}
use cs170lab.Prelude.Int.{ℤ, pos, negsuc, pos_add, ◌==ℤ◌, ltb_ℤ, sub_ℕ}
use native.Mathlib.Nat.{add-zero, zero-add}
use cs170lab.Structs.{Ptr, Mem, Regs, Pcb, stack_reg, memory_size, pc_reg, next_pc_reg}
use cs170lab.Env.{Env}
use cs170lab.Kernel.{Kernel, Cmd, stopped, exited, leave_if, ◌>>◌}
use cs170lab.Loader.{perform_execve}
use cs170lab.Syscall.{execve_return, make_ready, restarted}
use cs170lab.Syscall.Errno.{einval}
use cs170lab.Syscall.Exec.{do_execve, copy_args}
use cs170lab.Memory.{strdup}
use cs170lab.Syscall.Exec.Arguments.{
  StringAt, ArgsAt, strings, load_string-read, count_args-length, copy_args-strings,
}

-- A call of `execve` with the file name `s` and the arguments `l` in the memory of the process.
pub record Execs (h : Kernel) (p : Ptr) (c : Pcb) (o v : ℕ) (s : List ℕ) (l : List (ℕ × List ℕ))
    : Type 0 where
  pub at : h.pcbs p ≡ some c
  pub file : c.my_registers 5 ≡ pos o
  pub vector : c.my_registers 6 ≡ pos v
  pub name : StringAt h.main_memory (o + c.base) s
  pub short : length s ≤ memory_size
  pub args : ArgsAt h.main_memory c.base (v + c.base) l
  pub few : length l ≤ memory_size

module _ (env : Env) (h : Kernel) (p : Ptr) (c : Pcb) (o v : ℕ) (s : List ℕ) (l : List (ℕ × List ℕ))
    (e : Execs h p c o v s l) where
  abbrev loaded : ℤ × Mem
  loaded = env.sim.load_user_program s h.user_base h.main_memory

  -- The end of do_execve, with the result of perform_execve.
  abbrev ends : ℤ → Cmd
  ends result = do
    leave_if (result ==ℤ pos 0) (execve_return env p (pos 0))
    execve_return env p einval

  do_execve-perform_execve : do_execve env p h ≡ perform_execve env p s (strings l) ends h
  unfolding do_execve
  do_execve-perform_execve =
      rw (e.at, e.file, e.vector, pos_add v c.base, pos_add o c.base)
        (count_args-length l (memory_size + 1) c.base (v + c.base) 0 rest h (omega (arith, e.few))
            start
          ∙ load_string-read s (memory_size + 1) (o + c.base) (named (0 + length l)) h
              (omega (arith, e.short)) e.name
          ∙ ap
              (λ n.
                copy_args n (pos (v + c.base)) c.base (λ array. perform_execve env p s array ends)
                  h)
              (zero-add (length l))
          ∙ copy_args-strings l c.base (v + c.base) (λ array. perform_execve env p s array ends) h
              e.args)
    where
      named : ℕ → List ℕ → Cmd
      named n filename =
          copy_args n (pos (v + c.base)) c.base (λ array. perform_execve env p filename array ends)

      rest : ℕ → Cmd
      rest n = strdup (pos (o + c.base)) (named n)

      start : ArgsAt h.main_memory c.base (v + c.base + 4 * 0) l
      start = rw (add-zero (v + c.base)) e.args

  -- execve of a program that cannot be loaded ends the simulation, with all its processes.
  pub do_execve-stops :
      (n : ℕ)
      → loaded.0 ≡ negsuc n
      → do_execve env p h ≡ stopped (record h { main_memory = loaded.1 })
  unfolding perform_execve
  do_execve-stops n bad = do_execve-perform_execve ∙ rw (bad, negative)
    where
      negative : ltb_ℤ (negsuc n) (pos 0) ≡ true
      negative = ground arith

  abbrev regs : Regs
  regs =
      update (update (update c.my_registers pc_reg (pos 0)) next_pc_reg (pos 4)) stack_reg
        (sub_ℕ c.limit 12)

  abbrev again : ℤ × Mem
  again = env.sim.load_user_program s h.user_base loaded.1

  abbrev pushed : Regs × Mem
  pushed = env.sim.init_user_args regs (strings l) c.base again.1

  -- The structure of the process and the kernel when the program starts.
  abbrev pub started : Pcb
  started = record c { my_registers = pushed.0; sbrk_ptr = again.0 }

  abbrev pub executed : Kernel
  executed = record h {
    main_memory = pushed.1;
    pcbs = update h.pcbs p (some (restarted (pos 0) started));
    readyq = h.readyq ++ p ∷ [];
  }

  once : (f : Ptr → Option Pcb) (x y : Option Pcb) → update (update f p x) p y ≡ update f p y
  once f x y = update-update f p x y

  -- execve of a program that can be loaded: the call ends. The program and the arguments that were in
  -- the caller's memory, in order, are in memory as the simulator puts them; the process is ready, at
  -- the address 0 with the result 0, and nothing else of the kernel changes.
  pub do_execve-starts : (n : ℕ) → loaded.0 ≡ pos n → do_execve env p h ≡ exited executed
  unfolding perform_execve execve_return make_ready
  do_execve-starts n good =
      do_execve-perform_execve
      ∙ rw (good, nonnegative, e.at, ==_refl p, ==_refl p, env.dll.append_lem, once, once, once)
    where
      nonnegative : ltb_ℤ (pos n) (pos 0) ≡ false
      nonnegative = ground arith
