-- ===== src/Threads/Starting.antt =====
-- The start of the kernel, in initialize_user_process: `init`, and the first process in the first chunk.
use cs170lab.Prelude.{
  ℕ, zero, suc, ◌+◌, ◌≡◌, ◌≢◌, ◌∙◌, refl, ap, some, List, [], ◌∷◌, update, update-update, arith,
  ==_refl, ==_ne,
}
use cs170lab.Prelude.Int.{pos, ◌==ℤ◌}
use cs170lab.Structs.{Ptr, Pcb, memory_size, pc_reg, next_pc_reg, to_ushort}
use cs170lab.Env.{Env, placed}
use cs170lab.Kernel.{Kernel, Cmd, exited, ◌>>=◌, ◌>>◌, get, modify, branch, put_pcb}
use cs170lab.Memory.{cleared}
use cs170lab.Loader.{init_user_args, perform_execve}
use cs170lab.Boot.{clear_regs, make_fds, make_init, make_first, initialize_user_process}
use cs170lab.Pid.{get_new_pid}
use cs170lab.Pid.Fresh.{get_new_pid-any}
use cs170lab.Threads.{Follows, Nobody}
use cs170lab.Threads.Transfers.{Rest}
use cs170lab.Threads.Loading.{perform_execve-zero}
use cs170lab.Threads.Frames.{
  Still, Still-refl, Still-put, Moves-put, Moves-next, ready_behind, Follows-deref,
}

module _ (env : Env) where
  -- The structure of `init`.
  abbrev pub init_pcb : Kernel → ℕ → Pcb
  init_pcb h pid = record env.uninit_pcb {
    my_registers = clear_regs env.uninit_pcb.my_registers;
    pid = to_ushort pid;
    waiters_sem = h.next + 1;
    waiters = [];
    children = [];
  }

  abbrev pub with_init : Kernel → ℕ → Kernel
  with_init h pid = record h {
    init = h.next;
    next = h.next + 1 + 1;
    pcbs = update h.pcbs h.next (some (init_pcb h pid));
    curpid = pid;
    rbtree = placed h.rbtree pid 0;
    sems = env.kt.make h.sems (h.next + 1) 0;
  }

  -- The kernel when the number of `init` is asked for.
  abbrev blank : Pcb
  blank = record env.uninit_pcb { my_registers = clear_regs env.uninit_pcb.my_registers }

  abbrev init_asking : Kernel → Kernel
  init_asking h = record h {
    init = h.next;
    next = h.next + 1;
    pcbs = update (update h.pcbs h.next (some env.uninit_pcb)) h.next (some blank);
  }

  make_init-with_init :
      (h : Kernel) (pid : ℕ) (k : Ptr → Cmd)
      → ((k' : ℕ → Cmd)
          → get_new_pid env k' (init_asking h)
            ≡ k' pid (record (init_asking h) { curpid = pid; rbtree = placed h.rbtree pid 0 }))
      → make_init env k h ≡ k h.next (with_init h pid)
  unfolding make_init
  make_init-with_init h pid k run = rw (
    ==_refl h.next,
    run,
    ==_refl h.next,
    update-update h.pcbs h.next (some env.uninit_pcb) (some blank),
    update-update h.pcbs h.next (some blank) (some (init_pcb h pid)),
  )

  -- The structure of the first process, and the kernel with it.
  abbrev pub first_pcb : Kernel → Ptr → ℕ → Pcb
  first_pcb h init pid = record env.uninit_pcb {
    my_registers =
        update (update (clear_regs env.uninit_pcb.my_registers) pc_reg (pos 0)) next_pc_reg (pos 4);
    base = h.user_base;
    limit = h.user_limit;
    memory_num = 0;
    pid = to_ushort pid;
    parent = init;
    waiters_sem = h.next + 1;
    waiters = [];
    children = [];
  }

  abbrev pub with_first : Kernel → Ptr → Pcb → ℕ → Kernel
  with_first h init c pid = record h {
    next = h.next + 1 + 1;
    memory_chunk = update h.memory_chunk 0 1;
    pcbs =
        update (update h.pcbs h.next (some (first_pcb h init pid))) init
          (some (record c { children = env.jrb.insert_int c.children (to_ushort pid) h.next }));
    curpid = pid;
    rbtree = placed h.rbtree pid 0;
    sems = env.kt.make h.sems (h.next + 1) 0;
  }

  -- The structure and the kernel when the number of the first process is asked for.
  abbrev placed_pcb : Kernel → Pcb
  placed_pcb h = record env.uninit_pcb {
    my_registers =
        update (update (clear_regs env.uninit_pcb.my_registers) pc_reg (pos 0)) next_pc_reg (pos 4);
    base = h.user_base;
    limit = h.user_limit;
  }

  abbrev first_asking : Kernel → Kernel
  first_asking h = record h {
    next = h.next + 1;
    memory_chunk = update h.memory_chunk 0 1;
    pcbs =
        update (update (update h.pcbs h.next (some env.uninit_pcb)) h.next (some (placed_pcb h)))
          h.next (some (record (placed_pcb h) { memory_num = 0 }));
  }

  make_first-with_first :
      (h : Kernel) (init : Ptr) (c : Pcb) (pid : ℕ) (k : Ptr → Cmd)
      → h.pcbs init ≡ some c
      → h.next ≢ init
      → ((k' : ℕ → Cmd)
          → get_new_pid env k' (first_asking h)
            ≡ k' pid (record (first_asking h) { curpid = pid; rbtree = placed h.rbtree pid 0 }))
      → make_first env init k h ≡ make_fds 64 0 h.next (λ t. k h.next) (with_first h init c pid)
  unfolding make_first
  make_first-with_first h init c pid k at apart run = rw (
    ==_refl h.next,
    run,
    ==_refl h.next,
    ==_ne h.next init apart,
    at,
    update-update h.pcbs h.next (some env.uninit_pcb) (some (placed_pcb h)),
    update-update h.pcbs h.next (some (placed_pcb h))
        (some (record (placed_pcb h) { memory_num = 0 })),
    update-update h.pcbs h.next (some (record (placed_pcb h) { memory_num = 0 }))
        (some (first_pcb h init pid)),
  )

module _ (env : Env) (p : Ptr) where
  make_fds-Follows :
      (n i : ℕ) (k : Unit {0} → Cmd) (h0 h : Kernel)
      → Still Nobody h0 h
      → ((g : Kernel) → Still Nobody h0 g → Follows Nobody (ready_behind p) h0 (k tt g))
      → Follows Nobody (ready_behind p) h0 (make_fds n i p k h)
  unfolding make_fds
  make_fds-Follows zero i k h0 h s r = r h s
  make_fds-Follows (suc n) i k h0 h s r =
      let rest : (g : Kernel)
          → Still Nobody h0 g
          → Follows Nobody (ready_behind p) h0 (make_fds n (i + 1) p k g) =
        λ g t. make_fds-Follows n (i + 1) k h0 g t r in
      search (Follows-deref, Moves-put, Moves-next, refl, rest) depth 30 fits 3000

  -- The first process goes on the ready queue when its program is loaded.
  abbrev loaded : List (List ℕ) → Cmd
  loaded argv = do
    h ← get
    init_user_args env p argv h.user_base
    modify λ h. record h { readyq = env.dll.append h.readyq p }
    exited

  loaded-Follows : (argv : List (List ℕ)) → Rest env p (loaded argv)
  loaded-Follows argv h0 h s = Follows-deref Nobody (ready_behind p) h0 (h.pcbs p) _ h λ c at.
      let g : Kernel = record h {
        main_memory = (env.sim.init_user_args c.my_registers argv h.user_base h.main_memory).1;
      } in
      let t : Still Nobody h0 (
          put_pcb p
            (record c {
              my_registers =
                  (env.sim.init_user_args c.my_registers argv h.user_base h.main_memory).0;
            })
            g) =
        Still-put Nobody h0 g p c
          (record c {
            my_registers = (env.sim.init_user_args c.my_registers argv h.user_base h.main_memory).0;
          })
          s at (refl, refl, refl) refl in
      record {
        keeps = t.keeps;
        grows = t.grows;
        chunks = t.chunks;
        limits = t.limits;
        roots = t.roots;
        queued = env.dll.append_lem h.readyq p ∙ ap (ready_behind p) t.queued;
        forks = t.forks;
      }

  -- The rest of initialize_user_process from the loop over the descriptors on.
  load-Follows :
      (program : List ℕ) (argv : List (List ℕ)) (h : Kernel)
      → Follows Nobody (ready_behind p) h (
          make_fds 64 0 p
            (λ t.
              perform_execve env p program argv
                λ result. branch (result ==ℤ pos 0) (loaded argv) exited)
            h)
  load-Follows program argv h = make_fds-Follows 64 0 _ h h (Still-refl Nobody h) (
      perform_execve-zero env p program argv
        (λ result. branch (result ==ℤ pos 0) (loaded argv) exited) (loaded-Follows argv) h)

module _ (env : Env) where
  abbrev emptied : Kernel → Kernel
  emptied h = record h { user_base = 0; main_memory = cleared 0 memory_size h.main_memory }

  -- What follows when the first process is there, and when `init` is.
  abbrev loading : List ℕ → List (List ℕ) → Ptr → Cmd
  loading program args p =
      perform_execve env p program (program ∷ args)
        λ result. branch (result ==ℤ pos 0) (loaded env p (program ∷ args)) exited

  -- The kernel with `init`, and then with the first process.
  abbrev pub begun : Kernel → ℕ → Kernel
  begun h pid = with_init env (emptied h) pid

  begins :
      (program : List ℕ) (args : List (List ℕ)) (h : Kernel) (i j : ℕ)
      → ((k : ℕ → Cmd)
          → get_new_pid env k (init_asking env (emptied h))
            ≡ k i
                (record (init_asking env (emptied h)) { curpid = i; rbtree = placed h.rbtree i 0 }))
      → ((k : ℕ → Cmd)
          → get_new_pid env k (first_asking env (begun h i))
            ≡ k j (record (first_asking env (begun h i)) {
              curpid = j;
              rbtree = placed (begun h i).rbtree j 0;
            }))
      → initialize_user_process env (program ∷ args) h
        ≡ make_fds 64 0
            (h.next + 1 + 1)
            (λ t. loading program args (h.next + 1 + 1))
            (with_first env (begun h i) h.next (init_pcb env h i) j)
  unfolding initialize_user_process
  begins program args h i j run_i run_j =
      make_init-with_init env (emptied h) i (λ init. make_first env init (loading program args))
        run_i
      ∙ make_first-with_first env (begun h i) h.next (init_pcb env h i) j (loading program args)
          (rw (==_refl h.next)) (λ e. absurd (omega (arith, e))) run_j

  pub initialize_user_process-Follows :
      (program : List ℕ) (args : List (List ℕ)) (h : Kernel)
      → (i j : ℕ) × Follows Nobody
          (ready_behind (h.next + 1 + 1))
          (with_first env (begun h i) h.next (init_pcb env h i) j)
          (initialize_user_process env (program ∷ args) h)
  initialize_user_process-Follows program args h =
      let (i, run_i, fresh_i, least_i) = get_new_pid-any env (init_asking env (emptied h)) in
      let (j, run_j, fresh_j, least_j) = get_new_pid-any env (first_asking env (begun h i)) in
      (
        i,
        j,
        rw (begins program args h i j run_i run_j)
            (load-Follows env (h.next + 1 + 1) program (program ∷ args) _),
      )
