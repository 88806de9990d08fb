-- ===== src/Syscall/Fork/Total.antt =====
-- do_fork: all that it does for a process with its structure, its memory and its descriptors.
use cs170lab.Prelude.{ℕ, ◌+◌, ◌<◌, ◌≤◌, ◌≡◌, ◌≢◌, ◌⊎◌, inl, inr, some, arith}
use cs170lab.Structs.{Ptr, Pcb, memory_size}
use cs170lab.Env.{Env}
use cs170lab.Kernel.{Kernel, exited}
use cs170lab.Syscall.Errno.{eagain}
use cs170lab.Syscall.Return.{finished}
use cs170lab.Syscall.Fork.{do_fork}
use cs170lab.Syscall.Fork.Chunk.{with_child, do_fork_cases}
use cs170lab.Syscall.Fork.Copy.{Copyable}
use cs170lab.Syscall.Fork.Child.{Born, do_fork-Born}

-- What fork does with the first chunk that is free, or without one.
abbrev pub Outcome : Env → Kernel → Ptr → Pcb → Type 0
Outcome env h p c =
    (((j : ℕ) → j < 8 → h.memory_chunk j ≢ 0)
      × (do_fork env p h ≡ exited (finished p eagain c (with_child env h))))
    ⊎ ((i : ℕ) × (k : Kernel) × (i < 8)
        × (h.memory_chunk i ≡ 0)
        × ((j : ℕ) → j < i → h.memory_chunk j ≢ 0)
        × (do_fork env p h ≡ exited k)
        × Born h k p h.next c i)

-- fork by a process with its memory inside the main memory, and with 64 descriptors that are there with their pipes,
-- where a chunk has 131072 bytes: the call ends. With all eight chunks taken it returns -EAGAIN, and of the kernel nothing else changes but that a
-- structure for the child stays allocated and the process is behind the ready queue; otherwise it takes the lowest
-- chunk that is free, and no other, and the child is there, a copy of the process.
pub do_fork-Outcome :
    (env : Env) (h : Kernel) (p : Ptr) (c : Pcb)
    → h.pcbs p ≡ some c
    → p < h.next
    → h.user_limit ≡ 131072
    → c.base + h.user_limit ≤ memory_size
    → Copyable h c.fd h.next 0 64
    → Outcome env h p c
do_fork-Outcome env h p c at old limit from table =
    elim (do_fork_cases env h p c at (λ e. absurd (omega (arith, e, old)))) [
      | inl full ↦ inl full
      | inr (i, small, free, least, run) ↦
          let (k, ends, born) = do_fork-Born env h p c i (record {
            at = at;
            old = old;
            small = small;
            free = free;
            least = least;
            from = from;
            to = rw limit (omega (arith, small));
            table = table;
          }) in
          inr (i, k, small, free, least, ends, born)
    ]
