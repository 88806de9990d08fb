-- ===== src/Loader.antt =====
-- perform_execve of scheduler.c: a program is loaded at `User_Base` and its process set up to start.
-- `exit(1)` ends the simulation.
use cs170lab.Prelude.{ℕ, List, if◌then◌else◌, update}
use cs170lab.Prelude.Int.{ℤ, pos, ltb_ℤ, sub_ℕ}
use cs170lab.Structs.{Ptr, pc_reg, next_pc_reg, stack_reg}
use cs170lab.Env.{Env}
use cs170lab.Kernel.{M, stopped, ◌>>=◌, ◌>>◌, set_pcb, get_pcb, put_pcb}

module _ (env : Env) where
  open env use {sim}

  -- `load_user_program(filename)`.
  abbrev pub load_program : List ℕ → M ℤ
  load_program filename k h =
      let r = sim.load_user_program filename h.user_base h.main_memory in
      k r.0 (record h { main_memory = r.1 })

  -- `InitUserArgs(pcb->my_registers, argv, base)`.
  abbrev pub init_user_args : Ptr → List (List ℕ) → ℕ → M (Unit {0})
  init_user_args p argv base = λ k. get_pcb p λ c h.
      let r = sim.init_user_args c.my_registers argv base h.main_memory in
      k tt (put_pcb p (record c { my_registers = r.0 }) (record h { main_memory = r.1 }))

  unfoldable pub perform_execve : Ptr → List ℕ → List (List ℕ) → M ℤ
  perform_execve p filename argv k = do
    loaded ← load_program filename
    λ h.
        if ltb_ℤ loaded (pos 0)
        then stopped h
        else (do
          set_pcb p λ c. record c {
            my_registers =
                update (update (update c.my_registers pc_reg (pos 0)) next_pc_reg (pos 4)) stack_reg
                  (sub_ℕ c.limit 12);
          }
          sbrk ← load_program filename
          set_pcb p λ c. record c { sbrk_ptr = sbrk }
          c ← get_pcb p
          init_user_args p argv c.base
          k (pos 0))
            h
