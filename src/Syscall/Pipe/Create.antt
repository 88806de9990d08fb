-- ===== src/Syscall/Pipe/Create.antt =====
-- do_pipe: the descriptors that it takes, and the pipe that it makes.
use cs170lab.Prelude.{
  ℕ, ◌+◌, ◌<◌, ◌≤◌, ◌≡◌, refl, sym, ap, ◌∙◌, ◌≢◌, inl, inr, true, false, Option, none, some, arith,
  ==_refl, ==_ne, update, Bool-cases, ◌==◌, ℕ_discrete,
}
use cs170lab.Prelude.Int.{pos, ◌+ℤ◌, pos_add}
use cs170lab.Structs.{Ptr, Fd, Pipe, Pcb, memory_size, pipe_size}
use cs170lab.Env.{Env}
use cs170lab.Kernel.{Kernel, Cmd, exited}
use cs170lab.Memory.Words.{with_word, store_word-with_word}
use cs170lab.Syscall.Errno.{emfile}
use cs170lab.Syscall.Return.{finished, syscall_return-finished}
use cs170lab.Syscall.Dup.{find_fd}
use cs170lab.Syscall.Dup.Find.{OpenAt, Table, First, find_fd-First}
use cs170lab.Syscall.Pipe.{init_pipe, connect, pipe_second, pipe_first, do_pipe}

abbrev pub opened : Fd → Fd
opened f = record f { is_open = true }

-- The kernel behind the first search, which found the descriptor `f` at `a`.
abbrev pub claimed : Ptr → Fd → Kernel → Kernel
claimed a f h = record h { next = h.next + 1; fds = update h.fds a (some (opened f)) }

module _ (env : Env) (h : Kernel) (p : Ptr) (c : Pcb) (at : h.pcbs p ≡ some c)
    (table : Table h c.fd 0 64) where
  do_pipe-search :
      do_pipe env p h ≡ find_fd 64 0 c.fd (pipe_first env p h.next) (record h { next = h.next + 1 })
  unfolding do_pipe
  do_pipe-search = rw at

  -- The first search, with the number that it leads to.
  pub do_pipe-First :
      (r : Option ℕ) × (do_pipe env p h
        ≡ pipe_first env p h.next r (record h { next = h.next + 1 }))
      × First h c.fd 0 64 r
  do_pipe-First =
      let (r, run, first) =
        find_fd-First (record h { next = h.next + 1 }) c.fd (pipe_first env p h.next) 64 0 table in
      (r, do_pipe-search ∙ run, first)

  module _ (i : ℕ) (f : Fd) (is : h.fds (c.fd i) ≡ some f) where
    pub first_claims :
        pipe_first env p h.next (some i) (record h { next = h.next + 1 })
        ≡ find_fd 64 0 c.fd (pipe_second env p h.next i) (claimed (c.fd i) f h)
    unfolding pipe_first
    first_claims = rw (at, is)

    pub claimed-Table : Table (claimed (c.fd i) f h) c.fd 0 64
    claimed-Table j low high = elim (Bool-cases (c.fd i == c.fd j)) [
      | inl hit ↦ (opened f, rw hit)
      | inr miss ↦ let (g, e) = table j low high in (g, rw miss e)
    ]

    -- What was open is open still, and number `i` is now.
    claimed-open : (j : ℕ) → OpenAt h (c.fd j) true → OpenAt (claimed (c.fd i) f h) (c.fd j) true
    claimed-open j (g, e, o) = elim (Bool-cases (c.fd i == c.fd j)) [
      | inl hit ↦ (opened f, rw hit, refl)
      | inr miss ↦ (g, rw miss e, o)
    ]

  -- With a single number left, the call returns -EMFILE, but that number's descriptor stays open.
  pub do_pipe-leak :
      (i : ℕ) (f : Fd)
      → i < 64
      → h.fds (c.fd i) ≡ some f
      → f.is_open ≡ false
      → ((j : ℕ) → j < 64 → j ≢ i → OpenAt h (c.fd j) true)
      → do_pipe env p h ≡ exited (finished p emfile c (claimed (c.fd i) f h))
  unfolding pipe_second
  do_pipe-leak i f small is closed others = found do_pipe-First
    where
      never : (j : ℕ) → OpenAt (claimed (c.fd i) f h) (c.fd j) false → j < 64 → ⊥
      never j (g, e, shut) less = elim (ℕ_discrete j i) [
        | yes same ↦ ground (arith, ap c.fd same)
        | no other ↦ let (g', e', o) = claimed-open i f is j (others j less other) in ground arith
      ]

      second :
          (r : Option ℕ) × (find_fd 64 0 c.fd (pipe_second env p h.next i) (claimed (c.fd i) f h)
              ≡ pipe_second env p h.next i r (claimed (c.fd i) f h))
            × First (claimed (c.fd i) f h) c.fd 0 64 r
          → find_fd 64 0 c.fd (pipe_second env p h.next i) (claimed (c.fd i) f h)
            ≡ exited (finished p emfile c (claimed (c.fd i) f h))
      second (none, run, first) =
          run ∙ syscall_return-finished env p emfile c (claimed (c.fd i) f h) at
      second (some j, run, (low, less, shut, before)) = absurd (never j shut less)

      found :
          (r : Option ℕ) × (do_pipe env p h
              ≡ pipe_first env p h.next r (record h { next = h.next + 1 }))
            × First h c.fd 0 64 r
          → do_pipe env p h ≡ exited (finished p emfile c (claimed (c.fd i) f h))
      found (none, run, full) = let (g, e, o) = full i (omega arith) small in ground arith
      found (some r, run, (low, less, (g, e, shut), before)) = elim (ℕ_discrete r i) [
        | yes same ↦
            run
            ∙ ap (λ k. pipe_first env p h.next (some k) (record h { next = h.next + 1 })) same
            ∙ first_claims i f is
            ∙ second (
                find_fd-First (claimed (c.fd i) f h) c.fd (pipe_second env p h.next i) 64 0
                  (claimed-Table i f is))
        | no other ↦ let (g', e', o) = others r less other in ground arith
      ]

-- A new pipe, whose semaphores are the four addresses from `n` on.
abbrev pub new_pipe : Env → Ptr → Pipe
new_pipe env n = record {
  buffer = env.uninit_buffer;
  read_count = pos 1;
  write_count = pos 1;
  read = n;
  write = n + 1;
  nelement = n + 1 + 1;
  space_available = n + 1 + 1 + 1;
  write_head = 0;
  read_head = 0;
  writer_in_use = pos 0;
}

-- The ends of the pipe at `np`.
abbrev pub read_end : Ptr → Fd → Fd
read_end np f = record f { is_open = true; my_pipe = np; is_read = true }

abbrev pub write_end : Ptr → Fd → Fd
write_end np f = record f { is_open = true; my_pipe = np; is_read = false }

-- The kernel behind the initialization; `ar` and `aw` hold the descriptors.
abbrev pub connected : Env → Ptr → ℕ → ℕ → (ar aw : Ptr) → Fd → Fd → ℕ → Kernel → Kernel
connected env np r w ar aw fr fw x g = record g {
  next = g.next + 1 + 1 + 1 + 1;
  sems =
      update (update (update (update g.sems g.next 1) (g.next + 1) 1) (g.next + 1 + 1) 0)
        (g.next + 1 + 1 + 1) pipe_size;
  pipes = update g.pipes np (some (new_pipe env g.next));
  fds =
      update (update (update g.fds aw (some (opened fw))) ar (some (read_end np fr))) aw
        (some (write_end np fw));
  main_memory = with_word (x + 4) w (with_word x r g.main_memory);
}

module _ (env : Env) (np : Ptr) where
  init_pipe-new :
      (k : Unit {0} → Cmd) (g : Kernel)
      → init_pipe env np k g
        ≡ k tt (record g {
          next = g.next + 1 + 1 + 1 + 1;
          sems =
              update
                (update (update (update g.sems g.next 1) (g.next + 1) 1) (g.next + 1 + 1) 0)
                (g.next + 1 + 1 + 1)
                pipe_size;
          pipes = update g.pipes np (some (new_pipe env g.next));
        })
  unfolding init_pipe
  init_pipe-new k g = rw (
    env.kt.make_lem g.sems g.next 1,
    env.kt.make_lem _ (g.next + 1) 1,
    env.kt.make_lem _ (g.next + 1 + 1) 0,
    env.kt.make_lem _ (g.next + 1 + 1 + 1) pipe_size,
  )

  pub connect-connected :
      (p : Ptr) (c : Pcb) (r w x : ℕ) (fr fw : Fd) (g : Kernel)
      → g.pcbs p ≡ some c
      → c.fd r ≢ c.fd w
      → g.fds (c.fd r) ≡ some (opened fr)
      → g.fds (c.fd w) ≡ some fw
      → c.my_registers 5 +ℤ pos c.base ≡ pos x
      → x + 8 ≤ memory_size
      → connect env p np r w g
        ≡ exited (finished p (pos 0) c (connected env np r w (c.fd r) (c.fd w) fr fw x g))
  unfolding connect
  connect-connected p c r w x fr fw g at apart isr isw arg inside =
      rw
        (
          at,
          isw,
          init_pipe-new,
          ==_ne (c.fd w) (c.fd r) (λ e. apart (sym e)),
          isr,
          ==_ne (c.fd r) (c.fd w) apart,
          ==_refl (c.fd w),
          arg,
          store_word-with_word x (omega arith) r,
          pos_add x 4,
          store_word-with_word (x + 4) (omega arith) w,
        )
        (syscall_return-finished env p (pos 0) c (connected env np r w (c.fd r) (c.fd w) fr fw x g)
          at)
