-- ===== src/Syscall/Fork/Child.antt =====
-- do_fork: the child that it makes.
use cs170lab.Prelude.{
  ℕ, ◌+◌, ◌*◌, ◌<◌, ◌≤◌, ◌≡◌, ◌≢◌, ◌⊎◌, ◌∙◌, refl, some, true, false, none, [], ◌∷◌, ◌++◌, lt→ltb,
  arith, ==_refl, ==_ne, sym, update,
}
use cs170lab.Prelude.Int.{pos}
use cs170lab.Structs.{Ptr, Mem, Pcb, Tree, memory_size, to_ushort, num_total_regs}
use cs170lab.Env.{Env, entry, placed}
use cs170lab.Kernel.{Kernel, Cmd, Call, Task, exited, ◌>>=◌, ◌>>◌, get_pcb}
use cs170lab.Sem.{kt_fork}
use cs170lab.Memory.{copied}
use cs170lab.Pid.Fresh.{get_new_pid-any}
use cs170lab.Syscall.{returned, syscall_return}
use cs170lab.Syscall.Return.{finished, syscall_return-finished}
use cs170lab.Syscall.Fork.{fork_into, fork_found, do_fork}
use cs170lab.Syscall.Fork.Chunk.{with_child, find_chunk-least}
use mathlib.Core.Option
use cs170lab.Syscall.Fork.Counts.{counted, add_references}
use cs170lab.Syscall.Fork.Copy.{Copyable, Copies, copy_fds-Copies}
use cs170lab.Syscall.Fork.Populate.{newborn, parent, populated, asking, fork_into-populated}

-- A call of `fork` when chunk `i` is the first that is free.
pub record Forks (h : Kernel) (p : Ptr) (c : Pcb) (i : ℕ) : Type 0 where
  pub at : h.pcbs p ≡ some c
  pub old : p < h.next
  pub small : i < 8
  pub free : h.memory_chunk i ≡ 0
  pub least : (j : ℕ) → j < i → h.memory_chunk j ≢ 0
  pub from : c.base + h.user_limit ≤ memory_size
  pub to : i * h.user_limit + h.user_limit ≤ memory_size
  pub table : Copyable h c.fd h.next 0 64

-- `k` is `h` with a child of `p` at `child`: the two run on, the child has the registers of the
-- parent, the bytes of its memory in chunk `i`, and descriptors of its own with the same contents,
-- and each pipe counts one reference more for each number of the parent that refers to it.
pub record Born (h k : Kernel) (p child : Ptr) (c : Pcb) (i : ℕ) : Type 0 where
  pub pid : ℕ
  pub fresh : entry h.rbtree pid ≡ none
  pub least : (j : ℕ) → j < pid → entry h.rbtree j ≢ none
  pub d : Pcb
  pub at : k.pcbs child ≡ some d
  pub numbered : d.pid ≡ to_ushort pid
  pub parent : d.parent ≡ p
  pub base : d.base ≡ i * h.user_limit
  pub break : d.sbrk_ptr ≡ c.sbrk_ptr
  pub registers : (r : ℕ) → r < num_total_regs → d.my_registers r ≡ c.my_registers r
  pub bytes :
      (x : ℕ)
      → x < h.user_limit
      → k.main_memory (pos (d.base + x)) ≡ h.main_memory (pos (c.base + x))
  pub elsewhere :
      (x : ℕ)
      → (x < i * h.user_limit) ⊎ (i * h.user_limit + h.user_limit ≤ x)
      → k.main_memory (pos x) ≡ h.main_memory (pos x)
  pub descriptors : (j : ℕ) → j < 64 → (h.next ≤ d.fd j) × (k.fds (d.fd j) ≡ h.fds (c.fd j))
  pub apart : (j l : ℕ) → j < l → l < 64 → d.fd j < d.fd l
  pub counts :
      (a : Ptr)
      → k.pipes a
        ≡ Option.map
            (add_references (counted true h.fds c.fd a 64 0) (counted false h.fds c.fd a 64 0))
            (h.pipes a)
  pub queue : k.readyq ≡ h.readyq ++ p ∷ []
  pub task : k.forked ≡ h.forked ++ Task.user Call.finish_fork child ∷ []
  pub waiters : d.waiters ≡ []
  pub children : d.children ≡ []
  pub place : d.memory_num ≡ i
  pub limit : d.limit ≡ h.user_limit
  pub chunks : k.memory_chunk ≡ update h.memory_chunk i 1
  pub kept : (a : Ptr) → a < h.next → k.fds a ≡ h.fds a
  pub numbers : k.rbtree ≡ placed h.rbtree pid 0
  pub semaphores : (s : Ptr) → s < h.next → k.sems s ≡ h.sems s
  pub others : (a : Ptr) → a ≢ p → a ≢ child → k.pcbs a ≡ h.pcbs a
  pub tree : Tree
  pub result : k.pcbs p ≡ some (returned (pos (to_ushort pid)) (record c { children = tree }))
  pub listed :
      entry c.children (to_ushort pid) ≡ none → tree ≡ placed c.children (to_ushort pid) child

bytes_copied :
    (to from n x : ℕ) (m : Mem) → x < n → copied to from n m (pos (to + x)) ≡ m (pos (from + x))
unfolding copied
bytes_copied to from n x m small = ground arith

bytes_kept :
    (to from n x : ℕ) (m : Mem) → (x < to) ⊎ (to + n ≤ x) → copied to from n m (pos x) ≡ m (pos x)
unfolding copied
bytes_kept to from n x m out = ground arith

module _ (env : Env) (h : Kernel) (p : Ptr) (c : Pcb) (i : ℕ) (f : Forks h p c i) where
  abbrev start : Kernel
  start = with_child env h

  abbrev new : Ptr
  new = h.next

  apart : p ≢ new
  apart e = absurd (omega (arith, f.old))

  abbrev midway : ℕ → Kernel
  midway = populated env start p new c env.uninit_pcb i

  Copyable-midway : (pid : ℕ) → Copyable (midway pid) c.fd new 0 64
  Copyable-midway pid j low high = f.table j low high

  -- What is left when the descriptors have been copied.
  abbrev after : Unit {0} → Cmd
  after t = do
    kt_fork (Task.user Call.finish_fork new)
    n ← get_pcb new
    syscall_return env p (pos n.pid)

  do_fork-fork_into : do_fork env p h ≡ fork_into env i p new after start
  unfolding do_fork fork_found
  do_fork-fork_into = rw (find_chunk-least 8 h.memory_chunk i f.small f.free f.least)

  -- The kernel at the end.
  abbrev forked_kernel : ℕ → Kernel → Kernel
  forked_kernel pid g =
      finished p (pos (to_ushort pid)) (parent env start p new c env.uninit_pcb i pid)
        (record g { forked = g.forked ++ Task.user Call.finish_fork new ∷ [] })

  after-forked :
      (pid : ℕ) (g : Kernel) (fd : ℕ → Ptr)
      → g.pcbs new ≡ some (record (newborn start p c env.uninit_pcb i pid) { fd = fd })
      → g.pcbs p ≡ some (parent env start p new c env.uninit_pcb i pid)
      → after tt g ≡ exited (forked_kernel pid g)
  after-forked pid g fd at is = rw at (
      syscall_return-finished env p (pos (to_ushort pid))
        (parent env start p new c env.uninit_pcb i pid)
        (record g { forked = g.forked ++ Task.user Call.finish_fork new ∷ [] }) is)

  Born-forked :
      (pid : ℕ) (g : Kernel)
      → entry h.rbtree pid ≡ none
      → ((j : ℕ) → j < pid → entry h.rbtree j ≢ none)
      → Copies (midway pid) g new (newborn start p c env.uninit_pcb i pid) c.fd 0 64
      → Born h (forked_kernel pid g) p new c i
  Born-forked pid g fresh least r = record {
    pid = pid;
    fresh = fresh;
    least = least;
    d = record (newborn start p c env.uninit_pcb i pid) { fd = r.fd };
    at = rw (==_ne p new apart) r.at;
    numbered = refl;
    parent = refl;
    base = refl;
    break = refl;
    registers = λ n small. rw (lt→ltb n num_total_regs small);
    bytes = λ x small.
        rw r.memory (bytes_copied (i * h.user_limit) c.base h.user_limit x h.main_memory small);
    elsewhere = λ x out.
        rw r.memory (bytes_kept (i * h.user_limit) c.base h.user_limit x h.main_memory out);
    descriptors = λ j small.
        let (above, same) = r.copied j (omega arith) (omega arith) in (omega arith, same);
    apart = λ j l less small. r.apart j l (omega arith) less (omega arith);
    counts = r.piped;
    queue = rw r.queue;
    task = rw r.forked;
    waiters = refl;
    children = refl;
    place = refl;
    limit = refl;
    chunks = r.chunks;
    kept = λ a low. r.kept a (omega (arith, low));
    numbers = r.numbers;
    semaphores = λ s low.
        rw (r.semaphores, env.kt.make_lem)
          (rw (==_ne (h.next + 1) s (λ e. absurd (omega (arith, e, low)))) refl);
    others = λ a not_p not_new. rw (==_ne p a (λ e. not_p (sym e))) (
        r.others a not_new
        ∙ rw (==_ne p a (λ e. not_p (sym e)), ==_ne new a (λ e. not_new (sym e))) refl);
    tree = env.jrb.insert_int c.children (to_ushort pid) new;
    result = rw (==_refl p);
    listed = env.jrb.insert_int_lem c.children (to_ushort pid) new;
  }

  -- fork, when a chunk of memory is free: the call ends. The child runs on from the parent's
  -- registers, with the bytes of the parent's memory in the lowest chunk that is free and with
  -- descriptors of its own that have the contents of the parent's; no other byte of memory changes.
  -- Each pipe counts one more reader for each open descriptor of its reading end that the parent has, and one more
  -- writer for each of its writing end.
  -- It has the smallest number that is not in use, modulo 2^16, which the parent's call returns.
  pub do_fork-Born : (k : Kernel) × (do_fork env p h ≡ exited k) × Born h k p new c i
  do_fork-Born =
      let (pid, run, fresh, least) =
        get_new_pid-any env (asking env start p new c env.uninit_pcb i) in
      let (g, loop, r) =
        copy_fds-Copies p new (parent env start p new c env.uninit_pcb i pid) apart after 64 0 new
          (midway pid) (newborn start p c env.uninit_pcb i pid) (omega arith) (rw (==_refl p))
          (rw (==_ne p new apart, ==_refl new)) (Copyable-midway pid) in
      (
        forked_kernel pid g,
        do_fork-fork_into
            ∙ fork_into-populated env start p new c env.uninit_pcb i
                (rw (==_ne new p (λ e. apart (sym e))) f.at) (rw (==_refl new)) apart f.from f.to
                after pid run
            ∙ loop
            ∙ after-forked pid g r.fd r.at (r.others p apart ∙ rw (==_refl p)),
        Born-forked pid g fresh least r,
      )
