-- ===== src/Syscall/Write/Pipe.antt =====
-- The loop of do_write over a pipe.
use cs170lab.Prelude.{
  ℕ, zero, suc, ◌+◌, ◌-◌, ◌%◌, ◌<◌, ◌≤◌, ◌≡◌, fun_ext, sym, ap, ◌∙◌, ◌≢◌, ◌&&◌, false, some, arith,
  ltb, leb, ◌==◌, ==_refl, lt→ltb, if◌then◌else◌, update, update-update, update_same, ℕ_discrete,
}
use cs170lab.Prelude.Int.{pos, ◌==ℤ◌, pos_add}
use cs170lab.Structs.{Ptr, Mem, Pipe, memory_size, pipe_size}
use cs170lab.Env.{Env}
use cs170lab.Kernel.{Kernel, Cmd, fault}
use cs170lab.Sem.Drive.{drive}
use cs170lab.Memory.Bounds.{in_memory-pos}
use cs170lab.Syscall.Write.{write_pipe_loop}

-- The pipe's buffer with `n` bytes of the memory from `x` on at the indices from `start` on.
abbrev pub filled : ℕ → ℕ → ℕ → Mem → (ℕ → ℕ) → ℕ → ℕ
filled n x start m buffer i =
    if leb start i && ltb i (start + n) then m (pos (x + (i - start))) else buffer i

-- `n` fewer slots are free and `n` more bytes are there.
abbrev pub moved : ℕ → Ptr → Ptr → (Ptr → ℕ) → Ptr → ℕ
moved n from to sems s = if s == to then sems s + n else if s == from then sems s - n else sems s

-- The kernel after `n` rounds.
abbrev pub written_pipe : ℕ → ℕ → ℕ → Ptr → Pipe → Kernel → Kernel
written_pipe n x start pipe q h = record h {
  pipes = update h.pipes pipe (
      some (record q {
        buffer = filled n x start h.main_memory q.buffer;
        write_head = (q.write_head + n) % pipe_size;
      }));
  sems = moved n q.space_available q.nelement h.sems;
}

-- What `n` rounds need: the pipe, a reader, free slots, and `n` bytes in memory from `x` on.
pub record CanWrite (n x : ℕ) (pipe : Ptr) (q : Pipe) (h : Kernel) : Type 0 where
  pub at : h.pipes pipe ≡ some q
  pub reader : (q.read_count ==ℤ pos 0) ≡ false
  pub apart : q.space_available ≢ q.nelement
  pub space : n ≤ h.sems q.space_available
  pub source : x + n ≤ memory_size
  pub head : q.write_head < pipe_size

filled-zero : (x start : ℕ) (m : Mem) (b : ℕ → ℕ) → filled 0 x start m b ≡ b
filled-zero x start m b = fun_ext λ i. ground arith

filled-suc :
    (n x start : ℕ) (m : Mem) (b : ℕ → ℕ)
    → filled n (x + 1) (start + 1) m (update b start (m (pos x))) ≡ filled (suc n) x start m b
filled-suc n x start m b = fun_ext λ i. ground arith

pub moved-suc :
    (n : ℕ) (from to : Ptr) (sems : Ptr → ℕ)
    → from ≢ to
    → moved n from to
        (update (update sems from (sems from - 1)) to (update sems from (sems from - 1) to + 1))
      ≡ moved (suc n) from to sems
moved-suc n from to sems h = fun_ext λ i. ground arith

pub advance-suc : (w n : ℕ) → ((w + 1) % pipe_size + n) % pipe_size ≡ (w + suc n) % pipe_size
advance-suc w n = omega arith

pub advance-zero : (w : ℕ) → w < pipe_size → (w + 0) % pipe_size ≡ w
advance-zero w h = omega arith

pub moved-zero : (from to : Ptr) (sems : Ptr → ℕ) → moved 0 from to sems ≡ sems
moved-zero from to sems = fun_ext λ i. ground arith

module _ (env : Env) (pipe p : Ptr) (k : Unit {0} → Cmd) where
  -- One round.
  abbrev stepped : ℕ → ℕ → Pipe → Kernel → Kernel
  stepped x start q h =
      let f = update h.sems q.space_available (h.sems q.space_available - 1) in
      record h {
        pipes = update h.pipes pipe (
            some (record q {
              buffer = update q.buffer start (h.main_memory (pos x));
              write_head = (q.write_head + 1) % pipe_size;
            }));
        sems = update f q.nelement (f q.nelement + 1);
      }

  write_step :
      (n x start : ℕ) (q : Pipe) (h : Kernel)
      → CanWrite (suc n) x pipe q h
      → start < pipe_size
      → drive env (write_pipe_loop env (suc n) (pos x) start pipe p k h)
        ≡ drive env (write_pipe_loop env n (pos (x + 1)) (start + 1) pipe p k (stepped x start q h))
  unfolding write_pipe_loop drive
  write_step n x start q h c room = rw (
    in_memory-pos x (omega (arith, c.source)),
    lt→ltb start pipe_size room,
    c.at,
    ==_refl pipe,
    env.kt.p-suc h.sems q.space_available (h.sems q.space_available - 1) (omega (arith, c.space)),
    ==_refl pipe,
    c.reader,
    env.kt.v_lem,
    pos_add x 1,
  )

  CanWrite-stepped :
      (n x start : ℕ) (q : Pipe) (h : Kernel)
      → CanWrite (suc n) x pipe q h
      → CanWrite n
          (x + 1)
          pipe
          (record q {
            buffer = update q.buffer start (h.main_memory (pos x));
            write_head = (q.write_head + 1) % pipe_size;
          })
          (stepped x start q h)
  CanWrite-stepped n x start q h c = record {
    at = rw (==_refl pipe);
    reader = c.reader;
    apart = c.apart;
    space = ground (arith, c.space, c.apart);
    source = omega (arith, c.source);
    head = omega arith;
  }

  written_pipe-stepped :
      (n x start : ℕ) (q : Pipe) (h : Kernel)
      → CanWrite (suc n) x pipe q h
      → written_pipe n
          (x + 1)
          (start + 1)
          pipe
          (record q {
            buffer = update q.buffer start (h.main_memory (pos x));
            write_head = (q.write_head + 1) % pipe_size;
          })
          (stepped x start q h)
        ≡ written_pipe (suc n) x start pipe q h
  written_pipe-stepped n x start q h c = rw (
    update-update,
    filled-suc n x start h.main_memory q.buffer,
    moved-suc n q.space_available q.nelement h.sems c.apart,
    advance-suc q.write_head n,
  )

  written_pipe-zero :
      (x start : ℕ) (q : Pipe) (h : Kernel)
      → CanWrite 0 x pipe q h
      → written_pipe 0 x start pipe q h ≡ h
  written_pipe-zero x start q h c = rw (
    filled-zero x start h.main_memory q.buffer,
    moved-zero q.space_available q.nelement h.sems,
    advance-zero q.write_head c.head,
    update_same h.pipes pipe (some q) c.at,
  )

  -- With a reader, room for the bytes and no other thread in between, the loop ends after its `n`
  -- rounds: the bytes are in the buffer, in order, and nothing else of the kernel changes but the
  -- head and the two semaphores.
  pub write_pipe_loop-written :
      (n x start : ℕ) (q : Pipe) (h : Kernel)
      → CanWrite n x pipe q h
      → start + n ≤ pipe_size
      → drive env (write_pipe_loop env n (pos x) start pipe p k h)
        ≡ drive env (k tt (written_pipe n x start pipe q h))
  unfolding write_pipe_loop
  write_pipe_loop-written zero x start q h c room =
      ap (λ g. drive env (k tt g)) (sym (written_pipe-zero x start q h c))
  write_pipe_loop-written (suc n) x start q h c room =
      write_step n x start q h c (omega (arith, room))
      ∙ write_pipe_loop-written n (x + 1) (start + 1) _ (stepped x start q h)
          (CanWrite-stepped n x start q h c) (omega (arith, room))
      ∙ ap (λ g. drive env (k tt g)) (written_pipe-stepped n x start q h c)

  -- A write that is longer than what is left of the buffer behind `start` runs over its end, however
  -- many slots are free.
  pub write_pipe_loop-fault :
      (n x start : ℕ) (q : Pipe) (h : Kernel)
      → CanWrite n x pipe q h
      → start ≤ pipe_size
      → pipe_size < start + n
      → drive env (write_pipe_loop env n (pos x) start pipe p k h) ≡ fault
  unfolding write_pipe_loop drive
  write_pipe_loop-fault zero x start q h c low high = absurd (omega arith)
  write_pipe_loop-fault (suc n) x start q h c low high = elim (ℕ_discrete start pipe_size) [
    | yes e ↦ rw (in_memory-pos x (omega (arith, c.source)), e)
    | no e ↦
        write_step n x start q h c (omega arith)
        ∙ write_pipe_loop-fault n (x + 1) (start + 1) _ (stepped x start q h)
            (CanWrite-stepped n x start q h c) (omega arith) (omega arith)
  ]
