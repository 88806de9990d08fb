-- ===== src/Syscall/Exec/Arguments.antt =====
-- do_execve: the file name and the arguments that it copies out of memory.
use cs170lab.Prelude.{
  ℕ, zero, suc, ◌+◌, ◌*◌, ◌^◌, ◌<◌, ◌≤◌, ◌≡◌, ◌≢◌, refl, ap, ◌∙◌, List, [], ◌∷◌, arith, length,
  ==_ne, lt→ltb,
}
use cs170lab.Prelude.Int.{ℤ, pos, pos_add}
use cs170lab.Structs.{Mem, memory_size}
use cs170lab.Kernel.{Kernel, Cmd}
use cs170lab.Memory.{load_string, load_word}
use cs170lab.Memory.Bounds.{in_memory-pos}
use cs170lab.Memory.Words.{word_of, load_word-word_of}
use cs170lab.Syscall.Exec.{count_args, copy_args}

-- The bytes `s` are at `x`, with a zero behind them.
abbrev pub StringAt : Mem → ℕ → List ℕ → Type 0
StringAt m x [] = (x < memory_size) × (m (pos x) ≡ 0)
StringAt m x (b ∷ s) = (m (pos x) ≡ b) × (b ≢ 0) × (x < memory_size) × StringAt m (x + 1) s

-- The word at `x` is `o`.
abbrev pub WordAt : Mem → ℕ → ℕ → Type 0
WordAt m x o = (word_of x m ≡ o) × (o < 2 ^ 31) × (x + 4 ≤ memory_size)

-- A vector of pointers from `x` on, with a null behind it: each argument is an offset to `base`, which is
-- not 0, with the string there.
abbrev pub ArgsAt : Mem → ℕ → ℕ → List (ℕ × List ℕ) → Type 0
ArgsAt m base x [] = WordAt m x 0
ArgsAt m base x ((o, s) ∷ l) =
    WordAt m x o
    × (o ≢ 0)
    × StringAt m (o + base) s
    × (length s ≤ memory_size)
    × ArgsAt m base (x + 4) l

abbrev pub strings : List (ℕ × List ℕ) → List (List ℕ)
strings [] = []
strings ((o, s) ∷ l) = s ∷ strings l

-- The copy of a string ends, with the string.
pub load_string-read :
    (s : List ℕ) (fuel x : ℕ) (k : List ℕ → Cmd) (h : Kernel)
    → length s < fuel
    → StringAt h.main_memory x s
    → load_string fuel (pos x) k h ≡ k s h
unfolding load_string
load_string-read s zero x k h small at = absurd (omega arith)
load_string-read [] (suc fuel) x k h small (inside, e) = rw (in_memory-pos x inside, e)
load_string-read (b ∷ s) (suc fuel) x k h small (e, some_byte, inside, rest) =
    rw (in_memory-pos x inside, e, ==_ne b 0 some_byte, pos_add x 1)
      (load_string-read s fuel (x + 1) (λ t. k (b ∷ t)) h (omega (arith, small)) rest)

load_word-read :
    (x o : ℕ) (k : ℤ → Cmd) (h : Kernel)
    → WordAt h.main_memory x o
    → load_word (pos x) k h ≡ k (pos o) h
load_word-read x o k h (e, small, inside) =
    load_word-word_of x inside k h ∙ ap (λ v. k v h) (rw (e, lt→ltb o (2 ^ 31) small))

count_args-suc :
    (fuel v n o : ℕ) (k : ℕ → Cmd) (h : Kernel)
    → WordAt h.main_memory (v + 4 * n) o
    → o ≢ 0
    → count_args (suc fuel) (pos v) n k h ≡ count_args fuel (pos v) (n + 1) k h
unfolding count_args
count_args-suc fuel v n o k h at full = rw (pos_add v (4 * n), word, ==_ne o 0 full)
  where
    word : (k' : ℤ → Cmd) → load_word (pos (v + 4 * n)) k' h ≡ k' (pos o) h
    word k' = load_word-read (v + 4 * n) o k' h at

-- The count of the arguments ends, with their number.
pub count_args-length :
    (l : List (ℕ × List ℕ)) (fuel base v n : ℕ) (k : ℕ → Cmd) (h : Kernel)
    → length l < fuel
    → ArgsAt h.main_memory base (v + 4 * n) l
    → count_args fuel (pos v) n k h ≡ k (n + length l) h
unfolding count_args
count_args-length l zero base v n k h small at = absurd (omega arith)
count_args-length [] (suc fuel) base v n k h small at =
    rw (pos_add v (4 * n), word) (ap (λ m. k m h) sum)
  where
    word : (k' : ℤ → Cmd) → load_word (pos (v + 4 * n)) k' h ≡ k' (pos 0) h
    word k' = load_word-read (v + 4 * n) 0 k' h at

    sum : n ≡ n + 0
    sum = omega arith
count_args-length ((o, s) ∷ l) (suc fuel) base v n k h small (at, full, there, short, rest) =
    count_args-suc fuel v n o k h at full
    ∙ count_args-length l fuel base v (n + 1) k h (omega (arith, small)) (rw next at rest)
    ∙ ap (λ (m : ℕ). k m h) sum
  where
    next : v + 4 * n + 4 ≡ v + 4 * (n + 1)
    next = omega arith

    sum : n + 1 + length l ≡ n + suc (length l)
    sum = omega arith

-- The copy of the arguments ends, with their strings.
pub copy_args-strings :
    (l : List (ℕ × List ℕ)) (base x : ℕ) (k : List (List ℕ) → Cmd) (h : Kernel)
    → ArgsAt h.main_memory base x l
    → copy_args (length l) (pos x) base k h ≡ k (strings l) h
unfolding copy_args
copy_args-strings [] base x k h at = refl
copy_args-strings ((o, s) ∷ l) base x k h (at, full, there, short, rest) =
    load_word-read x o _ h at
    ∙ rw (pos_add o base, pos_add x 4)
        (load_string-read s (memory_size + 1) (o + base) _ h (omega (arith, short)) there
          ∙ copy_args-strings l base (x + 4) (λ t. k (s ∷ t)) h rest)
