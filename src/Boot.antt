-- ===== src/Boot.antt =====
-- How the kernel starts: KOS of kos.c, create_memory of memory.c, initialize_sema of syscall.c, and
-- initialize_scheduler and initialize_user_process of scheduler.c.
use cs170lab.Prelude.{ℕ, zero, suc, ◌+◌, true, List, [], ◌∷◌, ltb, ◌==◌, if◌then◌else◌, update}
use cs170lab.Prelude.Int.{pos, ◌==ℤ◌}
use cs170lab.Structs.{
  Ptr, null, Regs, Fd, num_total_regs, pc_reg, next_pc_reg, memory_size, to_ushort,
}
use cs170lab.Env.{Env}
use cs170lab.Kernel.{
  M, Cmd, Kernel, Task, exited, fault, ◌>>=◌, ◌>>◌, get, modify, branch, set_pcb, put_pcb, put_fd,
}
use cs170lab.Sem.{malloc, make_kt_sem, kt_fork}
use cs170lab.Memory.{clear_block}
use cs170lab.Pid.{get_new_pid}
use cs170lab.Loader.{init_user_args, perform_execve}
use cs170lab.Console.{init_buff, initialize_cons_sema}
use Prim.Native.Nat.{◌/◌}

-- The loop that fills `memory_chunk`, of 8 entries, with 0.
unfoldable pub create_memory : Kernel → Kernel
create_memory h = record h {
  memory_chunk = λ i. if ltb i 8 then 0 else h.memory_chunk i;
  user_limit = memory_size / 8;
}

unfoldable pub initialize_scheduler : M (Unit {0})
unfolding create_memory
initialize_scheduler k = do
  modify λ h. record h { readyq = []; rbtree = [] }
  modify create_memory
  modify λ h. record h { is_noop = true }
  k tt

-- The loop that clears the registers.
abbrev pub clear_regs : Regs → Regs
clear_regs regs r = if ltb r num_total_regs then pos 0 else regs r

-- Descriptor `i` of the first process: 0, 1 and 2 are the console.
abbrev pub first_fd : ℕ → Fd
first_fd i = record {
  console = ltb i 3;
  is_open = ltb i 3;
  is_read = i == 0;
  reference_count = 0;
  my_pipe = null;
}

-- The loops over the descriptors: `n` rounds, from number `i` on.
unfoldable pub make_fds : ℕ → ℕ → Ptr → M (Unit {0})
make_fds zero i p k = k tt
make_fds (suc n) i p k = do
  a ← malloc
  modify (put_fd a (first_fd i))
  set_pcb p λ c. record c { fd = update c.fd i a }
  make_fds n (i + 1) p k

module _ (env : Env) where
  open env use {dll, jrb}

  unfoldable pub initialize_sema : M (Unit {0})
  initialize_sema k = do
    writeok ← make_kt_sem env 0
    writers ← make_kt_sem env 1
    readers ← make_kt_sem env 1
    modify λ h. record h { writeok = writeok; writers = writers; readers = readers }
    k tt

  -- `init`, the process that has no program: it is the parent of the others.
  unfoldable pub make_init : M Ptr
  make_init k = do
    init ← malloc
    modify λ h. put_pcb init env.uninit_pcb (record h { init = init })
    set_pcb init λ c. record c { my_registers = clear_regs c.my_registers }
    pid ← get_new_pid env
    waiters_sem ← make_kt_sem env 0
    set_pcb init λ c. record c {
      pid = to_ushort pid;
      waiters_sem = waiters_sem;
      waiters = [];
      children = [];
    }
    k init

  -- The first process, a child of `init`.
  unfoldable pub make_first : Ptr → M Ptr
  make_first init k = do
    p ← malloc
    modify (put_pcb p env.uninit_pcb)
    h ← get
    set_pcb p λ c. record c {
      my_registers = update (update (clear_regs c.my_registers) pc_reg (pos 0)) next_pc_reg (pos 4);
      base = h.user_base;
      limit = h.user_limit;
    }
    modify λ h. record h { memory_chunk = update h.memory_chunk 0 1 }
    set_pcb p λ c. record c { memory_num = 0 }
    pid ← get_new_pid env
    waiters_sem ← make_kt_sem env 0
    set_pcb p λ c. record c {
      pid = to_ushort pid;
      parent = init;
      waiters_sem = waiters_sem;
      waiters = [];
      children = [];
    }
    set_pcb init λ c. record c { children = jrb.insert_int c.children (to_ushort pid) p }
    make_fds 64 0 p
    k p

  -- `my_argv[0]` has to be there.
  unfoldable pub initialize_user_process : List (List ℕ) → Cmd
  initialize_user_process [] = λ h. fault
  initialize_user_process (program ∷ args) = do
    modify λ h. record h { user_base = 0 }
    clear_block 0 memory_size
    init ← make_init
    p ← make_first init
    result ← perform_execve env p program (program ∷ args)
    branch (result ==ℤ pos 0)
        (do
          h ← get
          init_user_args env p (program ∷ args) h.user_base
          modify λ h. record h { readyq = dll.append h.readyq p }
          exited)
        exited

  -- KOS, up to its call of scheduler.
  unfoldable pub kos : List (List ℕ) → M (Unit {0})
  unfolding initialize_sema initialize_cons_sema initialize_scheduler init_buff
  kos kos_argv k = do
    initialize_sema
    initialize_cons_sema env
    initialize_scheduler
    kt_fork (Task.initialize_user_process kos_argv)
    init_buff env
    kt_fork Task.cons_to_buff
    k tt
