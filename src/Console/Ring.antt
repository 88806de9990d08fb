-- ===== src/Console/Ring.antt =====
-- The console's buffer as a queue.
use cs170lab.Prelude.{
  ℕ, suc, ◌+◌, ◌-◌, ◌%◌, ◌^◌, ◌<◌, ◌≤◌, ◌≡◌, ◌≢◌, ◌∙◌, ap, arith, update, ℕ_discrete, ltb, true,
  lt→ltb,
}
use cs170lab.Structs.{ConsoleBuf}
use cs170lab.Env.{Env}
use cs170lab.Kernel.{Kernel, Cmd}
use cs170lab.Console.{put_char}

-- The buffer holds the `n` characters `s 0`, `s 1`, …, from its head on.
pub record Holds (b : ConsoleBuf) (n : ℕ) (s : ℕ → ℕ) : Type 0 where
  pub size : b.size ≡ 256
  pub head : b.head < 256
  pub tail : b.tail ≡ (b.head + n) % 256
  pub few : n ≤ 256
  pub chars : (i : ℕ) → i < n → b.buff ((b.head + i) % 256) ≡ s i

pub Holds-ext :
    (b : ConsoleBuf) (n : ℕ) (s t : ℕ → ℕ) → ((i : ℕ) → s i ≡ t i) → Holds b n s → Holds b n t
Holds-ext b n s t same r = record {
  size = r.size;
  head = r.head;
  tail = r.tail;
  few = r.few;
  chars = λ i small. r.chars i small ∙ same i;
}

-- The character behind the others.
abbrev pub pushed : ConsoleBuf → ℕ → ConsoleBuf
pushed b c = record b { buff = update b.buff (b.tail % b.size) c; tail = (b.tail + 1) % b.size }

-- The head moves over the first character.
abbrev pub popped : ConsoleBuf → ConsoleBuf
popped b = record b { head = (b.head + 1) % b.size }

apart : (h i n : ℕ) → h < 256 → i < n → n < 256 → (h + n) % 256 ≢ (h + i) % 256
apart h i n a b c = omega arith

pub Holds-pushed :
    (b : ConsoleBuf) (n c : ℕ) (s : ℕ → ℕ)
    → Holds b n s
    → n < 256
    → Holds (pushed b c) (n + 1) (update s n c)
Holds-pushed b n c s r room = record {
  size = r.size;
  head = r.head;
  tail = rw r.size (omega (arith, r.tail));
  few = omega arith;
  chars = λ i small. elim (ℕ_discrete i n) [
    | yes e ↦ ground (arith, r.size, r.tail)
    | no e ↦
        ground (
          arith,
          r.size,
          r.tail,
          r.chars i (omega arith),
          apart b.head i n r.head (omega arith) room,
        )
  ];
}

pub Holds-popped :
    (b : ConsoleBuf) (n : ℕ) (s : ℕ → ℕ)
    → Holds b (suc n) s
    → (b.buff b.head ≡ s 0) × Holds (popped b) n (λ i. s (i + 1))
Holds-popped b n s r = (
  ap b.buff (omega (arith, r.head)) ∙ r.chars 0 (omega arith),
  record {
    size = r.size;
    head = rw r.size (omega arith);
    tail = rw r.size (omega (arith, r.tail, r.head));
    few = omega (arith, r.few);
    chars =
        λ i small. rw r.size (ap b.buff (omega (arith, r.head)) ∙ r.chars (i + 1) (omega arith));
  },
)

-- The buffer less its first `n` characters.
abbrev pub dropped : ℕ → ConsoleBuf → ConsoleBuf
dropped n b = record b { head = (b.head + n) % 256 }

pub Holds-dropped :
    (b : ConsoleBuf) (n m : ℕ) (s : ℕ → ℕ)
    → n ≤ m
    → Holds b m s
    → Holds (dropped n b) (m - n) (λ i. s (n + i))
Holds-dropped b n m s stored r = record {
  size = r.size;
  head = omega arith;
  tail = omega (arith, r.tail, r.head);
  few = omega (arith, r.few);
  chars = λ i small. ap b.buff (omega (arith, r.head)) ∙ r.chars (n + i) (omega arith);
}

-- A round of `cons_to_buff` behind its two waits, where a slot is free: the character that was typed
-- is the last of the buffer, those that were there stay in order, and the semaphore `nelem` is raised.
pub put_char-Holds :
    (env : Env) (k : Unit {0} → Cmd) (h : Kernel) (n : ℕ) (s : ℕ → ℕ)
    → Holds h.console n s
    → n < 256
    → (put_char env k h
        ≡ k tt (record h {
          reads = h.reads + 1;
          sems = update h.sems h.nelem (h.sems h.nelem + 1);
          console = pushed h.console (env.sim.console_read h.reads % 2 ^ 8);
        }))
      × Holds
          (pushed h.console (env.sim.console_read h.reads % 2 ^ 8))
          (n + 1)
          (update s n (env.sim.console_read h.reads % 2 ^ 8))
unfolding put_char
put_char-Holds env k h n s r room = (
  rw (inside, env.kt.v_lem h.sems h.nelem),
  Holds-pushed h.console n (env.sim.console_read h.reads % 2 ^ 8) s r room,
)
  where
    inside : ltb (h.console.tail % h.console.size) 256 ≡ true
    inside = rw r.size (lt→ltb (h.console.tail % 256) 256 (omega arith))
