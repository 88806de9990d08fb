-- ===== src/System/Steps/Booted.antt =====
-- The kernel as KOS of kos.c sets it up.
use cs170lab.Prelude.{
  ℕ, ◌+◌, ◌*◌, ◌<◌, ◌≤◌, ◌≡◌, ◌∙◌, ap, update, refl, none, true, List, [], ◌∷◌, ◌++◌, arith, lt→ltb,
}
use cs170lab.Structs.{Ptr, memory_size}
use cs170lab.Env.{Env}
use cs170lab.Kernel.{Kernel, Cmd, Task}
use cs170lab.Console.Ring.{Holds}
use cs170lab.Boot.{kos, create_memory}
use cs170lab.Trap.{joining}
use cs170lab.System.Steps.{AtStart}

-- `g` is the kernel that KOS leaves to `scheduler`, when it begins at `h`.
pub record Booted (h : Kernel) (argv : List (List ℕ)) (g : Kernel) : Type 0 where
  pub chunks : (i : ℕ) → i < 8 → g.memory_chunk i ≡ 0
  pub window : g.user_limit * 8 ≡ memory_size
  pub queue : g.readyq ≡ []
  pub numbers : g.rbtree ≡ []
  pub idle : g.is_noop ≡ true
  pub heap : (a : Ptr) → g.pcbs a ≡ none
  pub tasks : g.forked ≡ Task.initialize_user_process argv ∷ Task.cons_to_buff ∷ []
  -- The six semaphores are new and different.
  pub order :
      (h.next ≤ g.writeok)
      × (g.writeok < g.writers)
      × (g.writers < g.readers)
      × (g.readers < g.nelem)
      × (g.nelem < g.nslots)
      × (g.nslots < g.console_wait)
      × (g.console_wait < g.next)
  pub counts :
      (g.sems g.writeok ≡ 0)
      × (g.sems g.writers ≡ 1)
      × (g.sems g.readers ≡ 1)
      × (g.sems g.nelem ≡ 0)
      × (g.sems g.nslots ≡ 256)
      × (g.sems g.console_wait ≡ 0)
  pub kept : (s : Ptr) → s < h.next → g.sems s ≡ h.sems s
  pub ring : Holds g.console 0 (λ i. 0)

-- The semaphores when initialize_sema and initialize_cons_sema have made theirs, from the address `n` on.
abbrev made : Env → (Ptr → ℕ) → Ptr → Ptr → ℕ
made env f n =
    let sema = env.kt.make (env.kt.make (env.kt.make f n 0) (n + 1) 1) (n + 1 + 1) 1 in
    env.kt.make (env.kt.make (env.kt.make sema (n + 1 + 1 + 1) 0) (n + 1 + 1 + 1 + 1) 256)
      (n + 1 + 1 + 1 + 1 + 1) 0

abbrev with_six : (Ptr → ℕ) → Ptr → Ptr → ℕ
with_six f n =
    let sema = update (update (update f n 0) (n + 1) 1) (n + 1 + 1) 1 in
    update (update (update sema (n + 1 + 1 + 1) 0) (n + 1 + 1 + 1 + 1) 256) (n + 1 + 1 + 1 + 1 + 1)
      0

made-update : (env : Env) (f : Ptr → ℕ) (n : Ptr) → made env f n ≡ with_six f n
made-update env f n =
    rw
      (
        env.kt.make_lem, env.kt.make_lem, env.kt.make_lem, env.kt.make_lem, env.kt.make_lem,
        env.kt.make_lem,
      )
      refl

made_at : (env : Env) (f : Ptr → ℕ) (n t : Ptr) → made env f n t ≡ with_six f n t
made_at env f n t = ap (λ g. g t) (made-update env f n)

made-counts :
    (env : Env) (f : Ptr → ℕ) (n : Ptr)
    → (made env f n n ≡ 0)
      × (made env f n (n + 1) ≡ 1)
      × (made env f n (n + 1 + 1) ≡ 1)
      × (made env f n (n + 1 + 1 + 1) ≡ 0)
      × (made env f n (n + 1 + 1 + 1 + 1) ≡ 256)
      × (made env f n (n + 1 + 1 + 1 + 1 + 1) ≡ 0)
made-counts env f n = (
  made_at env f n n ∙ ground arith,
  made_at env f n (n + 1) ∙ ground arith,
  made_at env f n (n + 1 + 1) ∙ ground arith,
  made_at env f n (n + 1 + 1 + 1) ∙ ground arith,
  made_at env f n (n + 1 + 1 + 1 + 1) ∙ ground arith,
  made_at env f n (n + 1 + 1 + 1 + 1 + 1) ∙ ground arith,
)

made-kept : (env : Env) (f : Ptr → ℕ) (n : Ptr) (s : Ptr) → s < n → made env f n s ≡ f s
made-kept env f n s low = made_at env f n s ∙ ground (arith, low)

module _ (env : Env) where
  -- The kernel that KOS leaves to `scheduler`.
  abbrev booted : List (List ℕ) → Kernel → Kernel
  booted argv h =
      let n = h.next in
      record (create_memory h) {
        next = n + 1 + 1 + 1 + 1 + 1 + 1;
        sems = made env h.sems n;
        writeok = n;
        writers = n + 1;
        readers = n + 1 + 1;
        nelem = n + 1 + 1 + 1;
        nslots = n + 1 + 1 + 1 + 1;
        console_wait = n + 1 + 1 + 1 + 1 + 1;
        readyq = [];
        rbtree = [];
        is_noop = true;
        console = record { buff = env.uninit_buffer; head = 0; tail = 0; size = 256 };
        forked = (h.forked ++ Task.initialize_user_process argv ∷ []) ++ Task.cons_to_buff ∷ [];
      }

  pub Booted-booted :
      (argv : List (List ℕ)) (h : Kernel)
      → ((a : Ptr) → h.pcbs a ≡ none)
      → h.forked ≡ []
      → Booted h argv (booted argv h)
  unfolding create_memory
  Booted-booted argv h clear none_forked = record {
    chunks = λ i small. rw (lt→ltb i 8 small) refl;
    window = refl;
    queue = refl;
    numbers = refl;
    idle = refl;
    heap = clear;
    tasks = rw none_forked refl;
    order =
        (omega arith, omega arith, omega arith, omega arith, omega arith, omega arith, omega arith);
    counts = made-counts env h.sems h.next;
    kept = made-kept env h.sems h.next;
    ring = record {
      size = refl;
      head = omega arith;
      tail = refl;
      few = omega arith;
      chars = λ i small. absurd (omega (arith, small));
    };
  }

  -- KOS, on an empty heap and with no thread to start, calls the scheduler with a kernel that is set up: no process,
  -- all eight chunks free, and empty queues; six new semaphores, with room for the 256 characters of the console and
  -- one writer and one reader at a time; and the threads for the first process and for the console to start.
  pub kos-Booted :
      (argv : List (List ℕ)) (h : Kernel)
      → ((a : Ptr) → h.pcbs a ≡ none)
      → h.forked ≡ []
      → (g : Kernel) × ((k : Unit {0} → Cmd) → kos env argv k h ≡ k tt g)
        × Booted h argv g
        × AtStart (joining g) []
  unfolding kos create_memory
  kos-Booted argv h clear none_forked = (
    booted argv h,
    (λ k. refl),
    Booted-booted argv h clear none_forked,
    (argv, rw none_forked refl, refl, clear, refl, refl),
  )
