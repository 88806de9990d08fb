-- ===== src/Syscall/Read/Typed.antt =====
-- do_read on the console.
use cs170lab.Prelude.{
  ℕ, zero, suc, ◌+◌, ◌-◌, ◌%◌, ◌<◌, ◌≤◌, ◌≡◌, fun_ext, ap, sym, ◌∙◌, ◌≢◌, false, true, some, arith,
  ltb, ◌==◌, lt→ltb, update,
}
use cs170lab.Prelude.Int.{pos, ltb_ℤ, pos_add, update_at}
use native.Mathlib.Nat.{add-zero, zero-add, add_assoc}
use cs170lab.Structs.{Ptr, Fd, Pcb, memory_size}
use cs170lab.Env.{Env}
use cs170lab.Kernel.{Kernel, exited}
use cs170lab.Sem.Drive.{drive}
use cs170lab.Memory.Bounds.{in_memory-pos}
use cs170lab.Console.Ring.{Holds, popped, Holds-popped, Holds-ext, Holds-dropped}
use cs170lab.Syscall.{valid_address}
use cs170lab.Syscall.Return.{finished, bad_fd-small, syscall_return-finished}
use cs170lab.Syscall.Write.Pipe.{moved, moved-suc, moved-zero}
use cs170lab.Syscall.Read.Pipe.{delivered, delivered-suc, delivered-zero}
use cs170lab.Syscall.Read.{read_console_loop, read_console, do_read}

-- The kernel after `n` characters of `s`, from number `start` on, went to the addresses from `x` on.
abbrev pub typed : ℕ → ℕ → ℕ → (ℕ → ℕ) → Kernel → Kernel
typed n x start s h = record h {
  main_memory = delivered n x start s h.main_memory;
  console = record h.console { head = (h.console.head + n) % 256 };
  sems = moved n h.nelem h.nslots h.sems;
}

-- What `n` rounds need: `m` characters in the buffer, of which the first `n` are not 255, and room.
pub record CanType (n count x start m : ℕ) (s : ℕ → ℕ) (h : Kernel) : Type 0 where
  pub ring : Holds h.console m (λ i. s (start + i))
  pub stored : n ≤ m
  pub plain : (i : ℕ) → i < n → (s (start + i) == 255) ≡ false
  pub apart : h.nelem ≢ h.nslots
  pub there : n ≤ h.sems h.nelem
  pub target : x + count + n ≤ memory_size

module _ (env : Env) (p : Ptr) where
  -- One round.
  abbrev stepped : ℕ → Kernel → Kernel
  stepped x h =
      let f = update h.sems h.nelem (h.sems h.nelem - 1) in
      record h {
        main_memory = update_at h.main_memory (pos x) (h.console.buff h.console.head);
        console = popped h.console;
        sems = update f h.nslots (f h.nslots + 1);
      }

  module _ (n count x start m : ℕ) (s : ℕ → ℕ) (h : Kernel)
      (c : CanType (suc n) count x start m s h) where
    first_char : h.console.buff h.console.head ≡ s start
    first_char =
        ap h.console.buff index ∙ c.ring.chars 0 (omega (arith, c.stored)) ∙ ap s (add-zero start)
      where
        index : h.console.head ≡ (h.console.head + 0) % 256
        index = omega (arith, c.ring.head)

    read_step :
        drive env (read_console_loop env (suc n) count (pos x) p h)
        ≡ drive env (read_console_loop env n (count + 1) (pos x) p (stepped (x + count) h))
    unfolding read_console_loop drive
    read_step = rw (
      env.kt.p-suc h.sems h.nelem (h.sems h.nelem - 1) (omega (arith, c.there)),
      inside,
      first_plain,
      pos_add x count,
      in_memory-pos (x + count) (omega (arith, c.target)),
      env.kt.v_lem,
    )
      where
        inside : ltb h.console.head h.console.size ≡ true
        inside = rw c.ring.size (lt→ltb h.console.head 256 c.ring.head)

        first_plain : (h.console.buff h.console.head == 255) ≡ false
        first_plain =
            ap (λ b. b == 255) (first_char ∙ ap s (sym (add-zero start))) ∙ c.plain 0 (omega arith)

    CanType-stepped : CanType n (count + 1) x (start + 1) (m - 1) s (stepped (x + count) h)
    CanType-stepped = record {
      ring = rest;
      stored = omega (arith, c.stored);
      plain = λ i small. rw (shift i) (c.plain (suc i) (omega arith));
      apart = c.apart;
      there = ground (arith, c.there, c.apart);
      target = omega (arith, c.target);
    }
      where
        shift : (i : ℕ) → start + 1 + i ≡ start + suc i
        shift i = omega arith

        more : m ≡ suc (m - 1)
        more = omega (arith, c.stored)

        rest : Holds (popped h.console) (m - 1) (λ i. s (start + 1 + i))
        rest =
            Holds-ext (popped h.console) (m - 1) (λ i. s (start + (i + 1))) (λ i. s (start + 1 + i))
              (λ i. ap s (omega arith))
              ((Holds-popped h.console (m - 1) (λ i. s (start + i)) (rw more at c.ring)).1)

    typed-stepped :
        typed n (x + (count + 1)) (start + 1) s (stepped (x + count) h)
        ≡ typed (suc n) (x + count) start s h
    typed-stepped = rw (
      ← add_assoc x count 1,
      first_char,
      fun_ext (delivered-suc n (x + count) start s h.main_memory),
      moved-suc n h.nelem h.nslots h.sems c.apart,
      advance,
    )
      where
        advance : ((h.console.head + 1) % h.console.size + n) % 256 ≡ (h.console.head + suc n) % 256
        advance = rw c.ring.size (omega arith)

  typed-zero :
      (x start m : ℕ) (s : ℕ → ℕ) (h : Kernel)
      → Holds h.console m (λ i. s (start + i))
      → typed 0 x start s h ≡ h
  typed-zero x start m s h r =
      rw (
        fun_ext (delivered-zero x start s h.main_memory),
        moved-zero h.nelem h.nslots h.sems,
        still,
      )
    where
      still : (h.console.head + 0) % 256 ≡ h.console.head
      still = omega (arith, r.head)

  read_console_loop-typed :
      (n count x start m : ℕ) (s : ℕ → ℕ) (h : Kernel)
      → CanType n count x start m s h
      → drive env (read_console_loop env n count (pos x) p h)
        ≡ drive env (read_console_loop env 0 (count + n) (pos x) p (typed n (x + count) start s h))
  read_console_loop-typed zero count x start m s h c =
      rw (typed-zero (x + count) start m s h c.ring, add-zero count)
  read_console_loop-typed (suc n) count x start m s h c =
      read_step n count x start m s h c
      ∙ read_console_loop-typed n (count + 1) x (start + 1) (m - 1) s (stepped (x + count) h)
          (CanType-stepped n count x start m s h c)
      ∙ rw (typed-stepped n count x start m s h c, sum)
    where
      sum : count + 1 + n ≡ count + suc n
      sum = omega arith

-- A call of `read` on the console by number 0, with `len` bytes wanted at the user's address `a`, where
-- the buffer holds the `m` characters `s 0`, `s 1`, …, and no other thread reads from it.
pub record Types (h : Kernel) (p : Ptr) (c : Pcb) (f : Fd) (a len m : ℕ) (s : ℕ → ℕ) : Type 0 where
  pub at : h.pcbs p ≡ some c
  pub valid : valid_address c ≡ true
  pub arg : c.my_registers 5 ≡ pos 0
  pub is : h.fds (c.fd 0) ≡ some f
  pub opened : f.is_open ≡ true
  pub reading : f.is_read ≡ true
  pub console : f.console ≡ true
  pub to : c.my_registers 6 ≡ pos a
  pub size : c.my_registers 7 ≡ pos len
  pub ring : Holds h.console m s
  pub stored : len ≤ m
  pub plain : (i : ℕ) → i < len → (s i == 255) ≡ false
  pub there : len ≤ h.sems h.nelem
  pub fits : a + c.base + len ≤ memory_size
  pub idle : 1 ≤ h.sems h.readers
  pub apart : h.nelem ≢ h.nslots
  pub readers_nelem : h.readers ≢ h.nelem
  pub readers_nslots : h.readers ≢ h.nslots

ltb_ℤ-pos : (n : ℕ) → ltb_ℤ (pos n) (pos 0) ≡ false
ltb_ℤ-pos n = ground arith

module _ (env : Env) (h : Kernel) (p : Ptr) (c : Pcb) (f : Fd) (a len m : ℕ) (s : ℕ → ℕ)
    (r : Types h p c f a len m s) where
  abbrev taken : Kernel
  taken = record h { sems = update h.sems h.readers (h.sems h.readers - 1) }

  do_read-read_console : do_read env p h ≡ read_console env p c.my_registers c.base h
  unfolding do_read
  do_read-read_console =
      rw (r.at, r.valid, r.arg, bad_fd-small 0 (omega arith), r.is, r.opened, r.reading, r.console)

  loop_starts :
      drive env (read_console env p c.my_registers c.base h)
      ≡ drive env (read_console_loop env len 0 (pos (a + c.base)) p taken)
  unfolding read_console drive
  loop_starts = rw (
    r.arg,
    r.to,
    r.size,
    ltb_ℤ-pos a,
    ltb_ℤ-pos len,
    env.kt.p-suc h.sems h.readers (h.sems h.readers - 1) (omega (arith, r.idle)),
    pos_add a c.base,
  )

  CanType-taken : CanType len 0 (a + c.base) 0 m s taken
  CanType-taken = record {
    ring = Holds-ext h.console m s (λ i. s (0 + i)) (λ i. ap s (omega arith)) r.ring;
    stored = r.stored;
    plain = λ i small. rw (zero-add i) (r.plain i small);
    apart = r.apart;
    there = ground (arith, r.there, r.readers_nelem);
    target = omega (arith, r.fits);
  }

  sems-moved :
      (let t = moved len h.nelem h.nslots (update h.sems h.readers (h.sems h.readers - 1)) in
        update t h.readers (t h.readers + 1))
      ≡ moved len h.nelem h.nslots h.sems
  sems-moved = fun_ext λ i. ground (arith, r.readers_nelem, r.readers_nslots, r.idle)

  read_ends :
      drive env
        (read_console_loop env 0 len (pos (a + c.base)) p (typed len (a + c.base) 0 s taken))
      ≡ exited (finished p (pos len) c (typed len (a + c.base) 0 s h))
  unfolding read_console_loop drive
  read_ends =
      rw (env.kt.v_lem, sems-moved)
        (ap (drive env) (syscall_return-finished env p (pos len) c _ r.at))

  -- read from the console, where the buffer holds enough characters: the call ends and returns `len`.
  -- The first `len` characters are in memory at the user's address, in order, the others are what the
  -- buffer holds then, `nelem` is lowered and `nslots` raised by `len`, and nothing else changes.
  pub do_read-typed :
      (drive env (do_read env p h) ≡ exited (finished p (pos len) c (typed len (a + c.base) 0 s h)))
      × Holds (typed len (a + c.base) 0 s h).console (m - len) (λ i. s (len + i))
  do_read-typed = (
    ap (drive env) do_read-read_console
        ∙ loop_starts
        ∙ read_console_loop-typed env p len 0 (a + c.base) 0 m s taken CanType-taken
        ∙ rw (add-zero (a + c.base), zero-add len) read_ends,
    Holds-dropped h.console len m s r.stored r.ring,
  )
