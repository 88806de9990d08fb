-- ===== src/Syscall/Fork/Counts.antt =====
-- The references to the two ends of each pipe, which the counts of a pipe are about.
use cs170lab.Prelude.{
  ℕ, zero, suc, ◌+◌, ◌<◌, ◌≤◌, ◌≡◌, refl, ap, Bool, true, false, not, ◌&&◌, Option, none, some,
  arith, ==_refl, ==_ne, ℕ_discrete, ◌==◌, if◌then◌else◌, update, Bool-cases, inl, inr,
}
use mathlib.Core.Option
use cs170lab.Prelude.Int.{ℤ, pos, negsuc, ◌+ℤ◌}
use cs170lab.Structs.{Ptr, Fd, Pipe}
use cs170lab.Syscall.Fork.{add_reference}

-- Does the descriptor count as a reference to its pipe?
abbrev pub refers : Fd → Bool
refers f = f.is_open && not f.console

-- 1 for a reference to the reading end of the pipe at `a`, or, with `false`, to its writing end.
abbrev pub ends : Bool → Fd → Ptr → ℕ
ends b f a = if (refers f && (f.my_pipe == a)) && (if f.is_read then b else not b) then 1 else 0

abbrev pub ends_at : Bool → Option Fd → Ptr → ℕ
ends_at b none a = 0
ends_at b (some f) a = ends b f a

-- The references of the `n` numbers from `i` on.
abbrev pub counted : Bool → (Ptr → Option Fd) → (ℕ → Ptr) → Ptr → ℕ → ℕ → ℕ
counted b fds fd a zero i = 0
counted b fds fd a (suc n) i = ends_at b (fds (fd i)) a + counted b fds fd a n (i + 1)

-- The pipe with `r` readers and `w` writers more.
abbrev pub add_references : ℕ → ℕ → Pipe → Pipe
add_references r w q = record q {
  read_count = q.read_count +ℤ pos r;
  write_count = q.write_count +ℤ pos w;
}

add_zero : (x : ℤ) → x +ℤ pos 0 ≡ x
unfolding ◌+ℤ◌
add_zero (pos n) = ground arith
add_zero (negsuc n) = ground arith

add_pos_pos : (x : ℤ) (a b : ℕ) → (x +ℤ pos a) +ℤ pos b ≡ x +ℤ pos (a + b)
unfolding ◌+ℤ◌
add_pos_pos (pos n) a b = ground arith
add_pos_pos (negsuc n) a b = ground arith

pub add_references-zero : (q : Pipe) → add_references 0 0 q ≡ q
add_references-zero q = rw (add_zero q.read_count, add_zero q.write_count)

pub add_references-add :
    (r w r' w' : ℕ) (q : Pipe)
    → add_references r' w' (add_references r w q) ≡ add_references (r + r') (w + w') q
add_references-add r w r' w' q = rw (add_pos_pos q.read_count r r', add_pos_pos q.write_count w w')

pub map-zero : (o : Option Pipe) → Option.map (add_references 0 0) o ≡ o
map-zero none = refl
map-zero (some q) = ap some (add_references-zero q)

pub map-add :
    (r w r' w' : ℕ) (o : Option Pipe)
    → Option.map (add_references r' w') (Option.map (add_references r w) o)
      ≡ Option.map (add_references (r + r') (w + w')) o
map-add r w r' w' none = refl
map-add r w r' w' (some q) = ap some (add_references-add r w r' w' q)

pub counted_ext :
    (b : Bool) (fds fds' : Ptr → Option Fd) (fd fd' : ℕ → Ptr) (a : Ptr) (n i : ℕ)
    → ((j : ℕ) → i ≤ j → j < i + n → fds' (fd' j) ≡ fds (fd j))
    → counted b fds' fd' a n i ≡ counted b fds fd a n i
counted_ext b fds fds' fd fd' a zero i same = refl
counted_ext b fds fds' fd fd' a (suc n) i same = rw (
  same i (omega arith) (omega arith),
  counted_ext b fds fds' fd fd' a n (i + 1) (λ j low high. same j (omega arith) (omega arith)),
)

-- A descriptor that is no reference.
pub ends-off : (b : Bool) (f : Fd) (a : Ptr) → refers f ≡ false → ends b f a ≡ 0
ends-off b f a off = rw off

-- What `add_reference` does to the pipes.
pub referred :
    (f : Fd) (q : Pipe) (pipes : Ptr → Option Pipe) (a : Ptr)
    → refers f ≡ true
    → pipes f.my_pipe ≡ some q
    → update pipes f.my_pipe (some (add_reference f q)) a
      ≡ Option.map (add_references (ends true f a) (ends false f a)) (pipes a)
referred f q pipes a on e = elim (ℕ_discrete f.my_pipe a) [
  | yes hit ↦ elim (Bool-cases f.is_read) [
    | inl reading ↦ rw (← hit, ==_refl f.my_pipe, e, on, reading, add_zero q.write_count) refl
    | inr writing ↦ rw (← hit, ==_refl f.my_pipe, e, on, writing, add_zero q.read_count) refl
  ]
  | no miss ↦ rw (on, ==_ne f.my_pipe a miss, map-zero (pipes a)) refl
]
