-- ===== src/Syscall/Fork/Populate.antt =====
-- do_fork up to the loop over the descriptors: the child's structure, its memory and its number.
use cs170lab.Prelude.{
  ℕ, ◌+◌, ◌*◌, ◌≤◌, ◌≡◌, ◌≢◌, some, [], le→leb, ==_refl, ==_ne, update, update-update, sym,
}
use cs170lab.Structs.{Ptr, Pcb, memory_size, to_ushort}
use cs170lab.Env.{Env, placed}
use cs170lab.Kernel.{Kernel, Cmd}
use cs170lab.Memory.{copied}
use cs170lab.Pid.{get_new_pid}
use cs170lab.Syscall.Fork.{copy_regs, copy_fds, fork_into}

-- The child of `p` in chunk `i`, where `u` is what `malloc` left there, but for its descriptors.
abbrev pub newborn : Kernel → Ptr → Pcb → Pcb → ℕ → ℕ → Pcb
newborn h p c u i pid = record u {
  memory_num = i;
  base = i * h.user_limit;
  limit = h.user_limit;
  my_registers = copy_regs c.my_registers u.my_registers;
  sbrk_ptr = c.sbrk_ptr;
  pid = to_ushort pid;
  parent = p;
  waiters_sem = h.next;
  waiters = [];
  children = [];
}

module _ (env : Env) (h : Kernel) (p child : Ptr) (c u : Pcb) (i : ℕ) where
  abbrev pub parent : ℕ → Pcb
  parent pid = record c { children = env.jrb.insert_int c.children (to_ushort pid) child }

  -- The kernel before the loop over the descriptors.
  abbrev pub populated : ℕ → Kernel
  populated pid = record h {
    memory_chunk = update h.memory_chunk i 1;
    main_memory = copied (i * h.user_limit) c.base h.user_limit h.main_memory;
    curpid = pid;
    rbtree = placed h.rbtree pid 0;
    next = h.next + 1;
    sems = env.kt.make h.sems h.next 0;
    pcbs = update (update h.pcbs child (some (newborn h p c u i pid))) p (some (parent pid));
  }

  -- The structure of the child on the way there.
  abbrev pub housed : Pcb
  housed = record u { memory_num = i; base = i * h.user_limit; limit = h.user_limit }

  abbrev pub loaded : Pcb
  loaded = record housed {
    my_registers = copy_regs c.my_registers u.my_registers;
    sbrk_ptr = c.sbrk_ptr;
  }

  -- The kernel when the number of the child is asked for.
  abbrev pub asking : Kernel
  asking = record h {
    memory_chunk = update h.memory_chunk i 1;
    main_memory = copied (i * h.user_limit) c.base h.user_limit h.main_memory;
    pcbs = update (update h.pcbs child (some housed)) child (some loaded);
  }

  pub fork_into-populated :
      h.pcbs p ≡ some c
      → h.pcbs child ≡ some u
      → p ≢ child
      → c.base + h.user_limit ≤ memory_size
      → i * h.user_limit + h.user_limit ≤ memory_size
      → (k : Unit {0} → Cmd) (pid : ℕ)
      → ((k' : ℕ → Cmd)
          → get_new_pid env k' asking
            ≡ k' pid (record asking { curpid = pid; rbtree = placed h.rbtree pid 0 }))
      → fork_into env i p child k h ≡ copy_fds 64 0 p child k (populated pid)
  unfolding fork_into
  fork_into-populated at is apart from to k pid run = rw (
    is,
    ==_ne child p (λ e. apart (sym e)),
    at,
    le→leb (i * h.user_limit + h.user_limit) memory_size to,
    le→leb (c.base + h.user_limit) memory_size from,
    ==_refl child,
    run,
    ==_refl child,
    ==_ne child p (λ e. apart (sym e)),
    at,
    update-update h.pcbs child (some housed) (some loaded),
    update-update h.pcbs child (some loaded) (some (newborn h p c u i pid)),
  )
