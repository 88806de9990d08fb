-- ===== src/Env/Reference.antt =====
-- An environment that meets the assumptions, for the concrete runs.
use cs170lab.Prelude.{
  ℕ, zero, suc, ◌+◌, ◌≡◌, refl, ap, Bool, true, false, Option, none, some, List, [], ◌∷◌, ◌++◌,
  update,
}
use cs170lab.Prelude.Int.{ℤ, pos, neg}
use cs170lab.Structs.{Ptr, Mem, Pcb}
use cs170lab.Env.{Dllist, Jrb, Kt, Simulator, Env, entry, without, placed, head_entry}

abbrev is_nil {ℓ} : {A : Type ℓ} → List A → Bool
is_nil [] = true
is_nil (x ∷ l) = false

abbrev head? : List Ptr → Option Ptr
head? [] = none
head? (x ∷ l) = some x

abbrev tail : List Ptr → List Ptr
tail [] = []
tail (x ∷ l) = l

abbrev pub dllist : Dllist
dllist = record {
  append = λ l v. l ++ v ∷ [];
  is_empty = is_nil;
  first = head?;
  delete_first = tail;
  append_lem = λ l v. refl;
  is_empty-nil = refl;
  is_empty-cons = λ v l. refl;
  first-nil = refl;
  first-cons = λ v l. refl;
  delete_first-cons = λ v l. refl;
}

abbrev pub jrb : Jrb
jrb = record {
  insert_int = placed;
  find_int = entry;
  delete_node = without;
  is_empty = is_nil;
  first = head_entry;
  insert_int_lem = λ t k v h. refl;
  find_int_lem = λ t k. refl;
  delete_node_lem = λ t n. refl;
  is_empty-nil = refl;
  is_empty-cons = λ n t. refl;
  first_lem = λ t. refl;
}

abbrev take_one : (Ptr → ℕ) → Ptr → ℕ → Option (Ptr → ℕ)
take_one f s zero = none
take_one f s (suc n) = some (update f s n)

abbrev try_p : (Ptr → ℕ) → Ptr → Option (Ptr → ℕ)
try_p f s = take_one f s (f s)

pub try_p-zero : (f : Ptr → ℕ) (s : Ptr) → f s ≡ 0 → try_p f s ≡ none
try_p-zero f s h = ap (take_one f s) h

pub try_p-suc : (f : Ptr → ℕ) (s : Ptr) (n : ℕ) → f s ≡ suc n → try_p f s ≡ some (update f s n)
try_p-suc f s n h = ap (take_one f s) h

abbrev pub kt : Kt
kt = record {
  make = update;
  v = λ f s. update f s (f s + 1);
  p = try_p;
  make_lem = λ f s n. refl;
  v_lem = λ f s. refl;
  p-zero = try_p-zero;
  p-suc = try_p-suc;
}

-- A loader that knows no file with an empty name, and a keyboard that types 1, 2, 3 and so on.
abbrev load : List ℕ → ℕ → Mem → ℤ × Mem
load [] base m = (neg 1, m)
load (c ∷ name) base m = (pos 4096, m)

abbrev pub simulator : Simulator
simulator = record {
  load_user_program = load;
  init_user_args = λ regs args base m. (regs, m);
  stat_buf_fill = λ a n m. m;
  ioctl_console_fill = λ a m. m;
  console_read = λ n. n + 1;
}

abbrev pub zeroed_pcb : Pcb
zeroed_pcb = record {
  my_registers = λ r. pos 0;
  sbrk_ptr = pos 0;
  limit = 0;
  base = 0;
  pid = 0;
  exit_value = pos 0;
  memory_num = 0;
  parent = 0;
  waiters_sem = 0;
  waiters = [];
  children = [];
  fd = λ k. 0;
}

abbrev pub reference : Env
reference = record {
  dll = dllist;
  jrb = jrb;
  kt = kt;
  sim = simulator;
  uninit_pcb = zeroed_pcb;
  uninit_buffer = λ k. 0;
}
