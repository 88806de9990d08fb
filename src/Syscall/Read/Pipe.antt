-- ===== src/Syscall/Read/Pipe.antt =====
-- The loop of do_read over a pipe.
use cs170lab.Prelude.{
  ℕ, zero, suc, ◌+◌, ◌-◌, ◌%◌, ◌<◌, ◌≤◌, ◌≡◌, refl, fun_ext, ◌∙◌, ◌≢◌, ◌&&◌, false, some, arith,
  ltb, leb, ◌==◌, ==_refl, lt→ltb, if◌then◌else◌, update, update-update, update_same,
}
use cs170lab.Prelude.Int.{ℤ, pos, negsuc, ◌==ℤ◌, pos_add, update_at}
use native.Mathlib.Nat.{add-zero, add_assoc}
use cs170lab.Structs.{Ptr, Mem, Pipe, memory_size, pipe_size}
use cs170lab.Env.{Env}
use cs170lab.Kernel.{Kernel}
use cs170lab.Sem.Drive.{drive}
use cs170lab.Memory.Bounds.{in_memory-pos}
use cs170lab.Syscall.Write.Pipe.{moved, moved-suc, moved-zero, advance-suc, advance-zero}
use cs170lab.Syscall.Read.{read_pipe_loop}

-- The memory with `n` bytes of the buffer from `start` on at the offsets from `x` on.
abbrev pub delivered : ℕ → ℕ → ℕ → (ℕ → ℕ) → Mem → Mem
delivered n x start buffer m (pos i) =
    if leb x i && ltb i (x + n) then buffer (start + (i - x)) else m (pos i)
delivered n x start buffer m (negsuc i) = m (negsuc i)

-- The kernel after `n` rounds that begin with `count` bytes at `x`.
abbrev pub read_from : ℕ → ℕ → ℕ → Ptr → Pipe → Kernel → Kernel
read_from n x start pipe q h = record h {
  main_memory = delivered n x start q.buffer h.main_memory;
  pipes = update h.pipes pipe (some (record q { read_head = (q.read_head + n) % pipe_size }));
  sems = moved n q.nelement q.space_available h.sems;
}

-- What `n` rounds need behind the first `count` bytes: the pipe, a writer, bytes that are there and
-- that `writer_in_use` still counts, none of them 255, and room for them at `x`.
pub record CanRead (n count x start : ℕ) (pipe : Ptr) (q : Pipe) (h : Kernel) : Type 0 where
  pub at : h.pipes pipe ≡ some q
  pub writer : (q.write_count ==ℤ pos 0) ≡ false
  pub counted : (i : ℕ) → i < n → (pos (count + i) ==ℤ q.writer_in_use) ≡ false
  pub plain : (i : ℕ) → i < n → (q.buffer (start + i) == 255) ≡ false
  pub apart : q.nelement ≢ q.space_available
  pub there : n ≤ h.sems q.nelement
  pub target : x + count + n ≤ memory_size
  pub source : start + n ≤ pipe_size
  pub head : q.read_head < pipe_size

pub delivered-zero : (x start : ℕ) (b : ℕ → ℕ) (m : Mem) (a : ℤ) → delivered 0 x start b m a ≡ m a
delivered-zero x start b m (pos i) = ground arith
delivered-zero x start b m (negsuc i) = refl

pub delivered-suc :
    (n x start : ℕ) (b : ℕ → ℕ) (m : Mem) (a : ℤ)
    → delivered n (x + 1) (start + 1) b (update_at m (pos x) (b start)) a
      ≡ delivered (suc n) x start b m a
delivered-suc n x start b m (pos i) = ground arith
delivered-suc n x start b m (negsuc i) = ground arith

module _ (env : Env) (pipe p : Ptr) where
  -- One round.
  abbrev stepped : ℕ → ℕ → Pipe → Kernel → Kernel
  stepped x start q h =
      let f = update h.sems q.nelement (h.sems q.nelement - 1) in
      record h {
        main_memory = update_at h.main_memory (pos x) (q.buffer start);
        pipes = update h.pipes pipe (some (record q { read_head = (q.read_head + 1) % pipe_size }));
        sems = update f q.space_available (f q.space_available + 1);
      }

  read_step :
      (n m count x start : ℕ) (q : Pipe) (h : Kernel)
      → CanRead (suc n) count x start pipe q h
      → drive env (read_pipe_loop env (suc m) count (pos x) start pipe p h)
        ≡ drive env (
            read_pipe_loop env m
              (count + 1)
              (pos x)
              (start + 1)
              pipe
              p
              (stepped (x + count) start q h))
  unfolding read_pipe_loop drive
  read_step n m count x start q h c = rw (
    c.at,
    c.writer,
    still_counted,
    env.kt.p-suc h.sems q.nelement (h.sems q.nelement - 1) (omega (arith, c.there)),
    c.at,
    lt→ltb start pipe_size (omega (arith, c.source)),
    first_plain,
    pos_add x count,
    in_memory-pos (x + count) (omega (arith, c.target)),
    c.at,
    env.kt.v_lem,
  )
    where
      still_counted : (pos count ==ℤ q.writer_in_use) ≡ false
      still_counted = rw add-zero at (c.counted 0 (omega arith))

      first_plain : (q.buffer start == 255) ≡ false
      first_plain = rw add-zero at (c.plain 0 (omega arith))

  CanRead-stepped :
      (n count x start : ℕ) (q : Pipe) (h : Kernel)
      → CanRead (suc n) count x start pipe q h
      → CanRead n
          (count + 1)
          x
          (start + 1)
          pipe
          (record q { read_head = (q.read_head + 1) % pipe_size })
          (stepped (x + count) start q h)
  CanRead-stepped n count x start q h c = record {
    at = rw (==_refl pipe);
    writer = c.writer;
    counted = λ i small. rw (shift count i) (c.counted (suc i) (omega arith));
    plain = λ i small. rw (shift start i) (c.plain (suc i) (omega arith));
    apart = c.apart;
    there = ground (arith, c.there, c.apart);
    target = omega (arith, c.target);
    source = omega (arith, c.source);
    head = omega arith;
  }
    where
      shift : (m i : ℕ) → m + 1 + i ≡ m + suc i
      shift m i = omega arith

  read_from-stepped :
      (n count x start : ℕ) (q : Pipe) (h : Kernel)
      → CanRead (suc n) count x start pipe q h
      → read_from n
          (x + (count + 1))
          (start + 1)
          pipe
          (record q { read_head = (q.read_head + 1) % pipe_size })
          (stepped (x + count) start q h)
        ≡ read_from (suc n) (x + count) start pipe q h
  read_from-stepped n count x start q h c = rw (
    ← add_assoc x count 1,
    update-update,
    fun_ext (delivered-suc n (x + count) start q.buffer h.main_memory),
    moved-suc n q.nelement q.space_available h.sems c.apart,
    advance-suc q.read_head n,
  )

  read_from-zero :
      (count x start : ℕ) (q : Pipe) (h : Kernel)
      → CanRead 0 count x start pipe q h
      → read_from 0 (x + count) start pipe q h ≡ h
  read_from-zero count x start q h c = rw (
    fun_ext (delivered-zero (x + count) start q.buffer h.main_memory),
    moved-zero q.nelement q.space_available h.sems,
    advance-zero q.read_head c.head,
    update_same h.pipes pipe (some q) c.at,
  )

  -- With enough bytes in the pipe and no other thread in between, the loop makes the first `n` of its rounds: the
  -- bytes are in memory behind the first `count`, in order, and nothing else of the kernel changes
  -- but the head and the two semaphores.
  pub read_pipe_loop-read :
      (n m count x start : ℕ) (q : Pipe) (h : Kernel)
      → CanRead n count x start pipe q h
      → drive env (read_pipe_loop env (m + n) count (pos x) start pipe p h)
        ≡ drive env (
            read_pipe_loop env m
              (count + n)
              (pos x)
              (start + n)
              pipe
              p
              (read_from n (x + count) start pipe q h))
  read_pipe_loop-read zero m count x start q h c =
      rw (read_from-zero count x start q h c, add-zero count, add-zero start, add-zero m)
  read_pipe_loop-read (suc n) m count x start q h c =
      rw (later m) (read_step n (m + n) count x start q h c)
      ∙ read_pipe_loop-read n m (count + 1) x (start + 1) _ (stepped (x + count) start q h)
          (CanRead-stepped n count x start q h c)
      ∙ rw (read_from-stepped n count x start q h c, sum count, sum start)
    where
      sum : (m : ℕ) → m + 1 + n ≡ m + suc n
      sum m = omega arith

      later : (m : ℕ) → m + suc n ≡ suc (m + n)
      later m = omega arith
