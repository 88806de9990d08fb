-- ===== src/Threads.antt =====
-- What a kernel thread may do between two waits, whatever the others do meanwhile: to the ready queue, to
-- the chunks of memory, and to the structures of processes. A process that ended and that its parent has
-- yet to collect is a zombie: it is in a list `waiters`.
pub mod Frames
pub mod Calls
pub mod Transfers
pub mod Loading
pub mod Family
pub mod Ending
pub mod Spawning
pub mod Starting
use cs170lab.Prelude.{ℕ, ◌≤◌, ◌≡◌, ◌⊎◌, Option, some, List, [], ◌∷◌}
use cs170lab.Structs.{Ptr, Pcb}
use cs170lab.Kernel.{Kernel, Run, Task, exited, waits, stopped, fault, spins}

abbrev pub In : ℕ → List ℕ → Type 0
In x [] = ⊥
In x (y ∷ ys) = (x ≡ y) ⊎ In x ys

abbrev pub Pcbs : Type 0
Pcbs = Ptr → Option Pcb

abbrev pub Zombie : Pcbs → Ptr → Type 0
Zombie f z = (a : Ptr) × (c : Pcb) × (f a ≡ some c) × In z c.waiters

-- The same chunk of memory.
abbrev pub SameChunk : Pcb → Pcb → Type 0
SameChunk c c' = (c'.memory_num ≡ c.memory_num) × (c'.base ≡ c.base) × (c'.limit ≡ c.limit)

-- From `f` to `g` the structures of all processes stay, and keep their chunks, but for zombies and for
-- those of `E`; no other process becomes a zombie.
pub record Keeps (E : Ptr → Type 0) (f g : Pcbs) : Type 0 where
  pub kept :
      (a : Ptr) (c : Pcb)
      → (Zombie f a → ⊥)
      → (E a → ⊥)
      → f a ≡ some c
      → (c' : Pcb) × (g a ≡ some c') × SameChunk c c'
  pub zombies : (z : Ptr) → Zombie g z → Zombie f z ⊎ E z

-- The parts of a kernel that the other threads and the scheduler rely on, against those of `h`.
pub record Moves (E : Ptr → Type 0) (h : Kernel) (pcbs : Pcbs) (next : Ptr) (chunk : ℕ → ℕ)
    (limit : ℕ) (root : Ptr) (queue expected : List Ptr) (tasks : List Task) : Type 0 where
  pub keeps : Keeps E h.pcbs pcbs
  pub grows : h.next ≤ next
  pub chunks : chunk ≡ h.memory_chunk
  pub limits : limit ≡ h.user_limit
  pub roots : root ≡ h.init
  pub queued : queue ≡ expected
  pub forks : tasks ≡ h.forked

-- From `h` to `g` the ready queue has become `queue`.
abbrev pub To : (Ptr → Type 0) → Kernel → Kernel → List Ptr → Type 0
To E h g queue = Moves E h g.pcbs g.next g.memory_chunk g.user_limit g.init g.readyq queue g.forked

abbrev pub Nobody : Ptr → Type 0
Nobody a = ⊥

-- What holds at a wait, and of what comes behind it.
pub record Pause (now whole later : Type 0) : Type 0 where
  pub before : now
  pub intact : whole
  pub behind : later

-- A run from `h` does this up to its first wait, and from then on between each two waits; where it ends,
-- the ready queue is what `done` makes of it. It waits only if `E` holds of no process.
abbrev pub Follows : (Ptr → Type 0) → (List Ptr → List Ptr) → Kernel → Run → Type 0
Follows E done h (exited g) = To E h g (done h.readyq)
Follows E done h (waits s g k) =
    Pause (To E h g h.readyq) ((a : Ptr) → E a → ⊥) ((g' : Kernel) → Follows E done g' (k g'))
Follows E done h (stopped g) = Unit {0}
Follows E done h fault = Unit {0}
Follows E done h spins = Unit {0}
