-- ===== src/Threads/Spawning.antt =====
-- fork: the chunk of memory and the structure that the child gets, and the task that it starts with.
use cs170lab.Prelude.{
  ℕ, zero, suc, ◌+◌, ◌*◌, ◌<◌, ◌≤◌, ◌≡◌, ◌≢◌, ◌⊎◌, ◌∙◌, inl, inr, refl, sym, ap, some, [], ◌∷◌,
  ◌++◌, update, update-update, arith, ==_refl, ==_ne,
}
use cs170lab.Prelude.Int.{pos}
use cs170lab.Structs.{Ptr, Pcb, memory_size}
use cs170lab.Env.{Env}
use cs170lab.Kernel.{Kernel, Cmd, Call, Task, ◌>>=◌, ◌>>◌, get_pcb}
use cs170lab.Sem.{kt_fork}
use cs170lab.Pid.Fresh.{get_new_pid-any}
use cs170lab.Syscall.{syscall_return}
use cs170lab.Syscall.Errno.{eagain}
use cs170lab.Syscall.Return.{syscall_return-finished}
use cs170lab.Syscall.Fork.{copy_fds, fork_found, do_fork, finish_fork}
use cs170lab.Syscall.Fork.Chunk.{with_child, do_fork_cases}
use cs170lab.Syscall.Fork.Populate.{newborn, parent, populated, asking, fork_into-populated}
use cs170lab.Threads.{Follows, Nobody}
use cs170lab.Threads.Calls.{Good}
use cs170lab.Threads.Frames.{
  Still, Still-refl, Moves-put, Moves-next, Keeps-put, Keeps-refl, ready_behind, Follows-deref,
  Follows-if, Follows-if_cmd, Follows-if_part, Follows-syscall_return,
}

ruleset rules =
    (Follows-deref, Follows-if, Follows-if_cmd, Follows-if_part, Moves-put, Moves-next, refl)

-- `h` with the structure `d` of a child that has chunk `i`.
abbrev pub housing : Kernel → ℕ → Pcb → Kernel
housing h i d = record h {
  pcbs = update h.pcbs h.next (some d);
  next = h.next + 1;
  memory_chunk = update h.memory_chunk i 1;
}

-- The same, with the task that the child starts with.
abbrev pub spawned : Kernel → ℕ → Pcb → Kernel
spawned h i d = record (housing h i d) {
  forked = h.forked ++ Task.user Call.finish_fork h.next ∷ [];
}

-- The structure has chunk `i`, and no process waits there to be collected.
pub record Housed (h : Kernel) (i : ℕ) (d : Pcb) : Type 0 where
  pub number : d.memory_num ≡ i
  pub base : d.base ≡ i * h.user_limit
  pub limit : d.limit ≡ h.user_limit
  pub waiters : d.waiters ≡ []

module _ (env : Env) (p : Ptr) where
  pub finish_fork-Good : Good env p (finish_fork env p)
  unfolding finish_fork
  finish_fork-Good h = Follows-syscall_return env p h h (pos 0) (Still-refl Nobody h)

  copy_fds-Follows :
      (n i : ℕ) (child : Ptr) (k : Unit {0} → Cmd) (h0 h1 h : Kernel)
      → Still Nobody h0 h
      → ((g : Kernel) → Still Nobody h0 g → Follows Nobody (ready_behind p) h1 (k tt g))
      → Follows Nobody (ready_behind p) h1 (copy_fds n i p child k h)
  unfolding copy_fds
  copy_fds-Follows zero i child k h0 h1 h s r = r h s
  copy_fds-Follows (suc n) i child k h0 h1 h s r =
      let rest : (g : Kernel)
          → Still Nobody h0 g
          → Follows Nobody (ready_behind p) h1 (copy_fds n (i + 1) p child k g) =
        λ g s. copy_fds-Follows n (i + 1) child k h0 h1 g s r in
      search (rules, rest) depth 40 fits 8000

module _ (env : Env) (h : Kernel) (p : Ptr) (c : Pcb) (at : h.pcbs p ≡ some c) (old : p < h.next)
    (from : c.base + h.user_limit ≤ memory_size) where
  abbrev start : Kernel
  start = with_child env h

  apart : p ≢ h.next
  apart e = absurd (omega (arith, old))

  -- What is left when the descriptors have been copied.
  abbrev after : Unit {0} → Cmd
  after t = do
    kt_fork (Task.user Call.finish_fork h.next)
    n ← get_pcb h.next
    syscall_return env p (pos n.pid)

  after-Follows :
      (i : ℕ) (d : Pcb) (g : Kernel)
      → Still Nobody (housing h i d) g
      → Follows Nobody (ready_behind p) (spawned h i d) (after tt g)
  after-Follows i d g s =
      Follows-deref Nobody (ready_behind p) (spawned h i d) (g.pcbs h.next) _ _ λ n is.
        Follows-syscall_return env p (spawned h i d) _ (pos n.pid) (record {
          keeps = s.keeps;
          grows = s.grows;
          chunks = s.chunks;
          limits = s.limits;
          roots = s.roots;
          queued = s.queued;
          forks = ap (λ l. l ++ Task.user Call.finish_fork h.next ∷ []) s.forks;
        })

  Still-populated :
      (i pid : ℕ)
      → Still Nobody
          (housing h i (newborn start p c env.uninit_pcb i pid))
          (populated env start p h.next c env.uninit_pcb i pid)
  Still-populated i pid =
      let d : Pcb = newborn start p c env.uninit_pcb i pid in
      let f = update h.pcbs h.next (some d) in
      record {
        keeps = rw (update-update h.pcbs h.next (some env.uninit_pcb) (some d)) (
            Keeps-put Nobody f f p c (parent env start p h.next c env.uninit_pcb i pid)
              (Keeps-refl Nobody f) (rw (==_ne h.next p (λ e. apart (sym e))) at) (refl, refl, refl)
              (λ z m. inl (p, c, rw (==_ne h.next p (λ e. apart (sym e))) at, m)));
        grows = omega arith;
        chunks = refl;
        limits = refl;
        roots = refl;
        queued = refl;
        forks = refl;
      }

  -- The rest of the call, when chunk `i` has been found.
  fork_found-Follows :
      (i : ℕ)
      → i * h.user_limit + h.user_limit ≤ memory_size
      → (d : Pcb) × Housed h i d
        × Follows Nobody (ready_behind p) (spawned h i d) (fork_found env p h.next (some i) start)
  unfolding fork_found
  fork_found-Follows i to =
      let (pid, run, fresh, least) =
        get_new_pid-any env (asking env start p h.next c env.uninit_pcb i) in
      let d : Pcb = newborn start p c env.uninit_pcb i pid in
      (
        d,
        record { number = refl; base = refl; limit = refl; waiters = refl },
        rw
            (fork_into-populated env start p h.next c env.uninit_pcb i
              (rw (==_ne h.next p (λ e. apart (sym e))) at) (rw (==_refl h.next)) apart from to
              after pid run)
            (copy_fds-Follows env p 64 0 h.next after (housing h i d) (spawned h i d) _
              (Still-populated i pid) (after-Follows i d)),
      )

  -- fork by a process that has its structure below the next address, with its memory and all chunks inside the
  -- main memory: either a structure has been allocated and nothing else, or a chunk that was free has been taken
  -- for a new structure, with no zombies, and its task added. From that kernel the call leaves structures, chunks
  -- and tasks, and where it ends its process is behind the ready queue.
  pub do_fork-Follows :
      ((i : ℕ) → i < 8 → i * h.user_limit + h.user_limit ≤ memory_size)
      → Follows Nobody (ready_behind p) start (do_fork env p h)
        ⊎ ((i : ℕ) × (d : Pcb) × (i < 8)
            × (h.memory_chunk i ≡ 0)
            × Housed h i d
            × Follows Nobody (ready_behind p) (spawned h i d) (do_fork env p h))
  do_fork-Follows to = elim (do_fork_cases env h p c at (λ e. apart (sym e))) [
    | inl (all, run) ↦ inl (
        rw
          (run
            ∙ sym (
                syscall_return-finished env p eagain c start
                  (rw (==_ne h.next p (λ e. apart (sym e))) at)))
          (Follows-syscall_return env p start start eagain (Still-refl Nobody start)))
    | inr (i, small, free, least, run) ↦
        let (d, housed, follows) = fork_found-Follows i (to i small) in
        inr (i, d, small, free, housed, rw run follows)
  ]
