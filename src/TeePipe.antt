-- ===== src/TeePipe.antt =====
-- tee-pipe.c, a program for the kernel: it copies its input to a pipe for each of the programs that it starts.
-- A run is the tree of its system calls, each with what follows for each result. The array `pd` is a function;
-- `in_buf` is seen by the offsets and lengths that the calls are given. Messages are left out.
pub mod Copy
use cs170lab.Prelude.{
  ℕ, zero, suc, ◌+◌, ◌-◌, ◌*◌, Bool, true, false, ◌&&◌, not, Option, none, some, List, [], ◌∷◌,
  length, ltb, ◌==◌, if◌then◌else◌, update,
}
use cs170lab.Prelude.Int.{ℤ, pos, negsuc, neg, ltb_ℤ, ◌+ℤ◌, ◌==ℤ◌}

-- What the program does next. A read or a write has the number, the offset in `in_buf` and the length; `pipe`
-- hands back the two numbers that it stored, and no numbers for an error.
pub data Prog : Type 0 where
  malloc : ℕ → (Bool → Prog) → Prog
  pipe : (Option (ℤ × ℤ) → Prog) → Prog
  fork : (ℤ → Prog) → Prog
  close : ℤ → Prog → Prog
  dup : ℤ → Prog → Prog
  execve : List ℕ → List (List ℕ) → Prog → Prog
  read : ℤ → ℤ → ℤ → (ℤ → Prog) → Prog
  write : ℤ → ℤ → ℤ → (ℤ → Prog) → Prog
  wait : Prog → Prog
  exits : ℕ → Prog
  spins : Prog

-- "create all of the pipes first": `n` rounds, from program `i` on.
unfoldable pub open_pipes : ℕ → ℕ → (ℕ → ℤ) → ((ℕ → ℤ) → Prog) → Prog
open_pipes zero i pd k = k pd
open_pipes (suc n) i pd k = Prog.pipe λ r. elim r [
  | none ↦ exits 1
  | some (a, b) ↦ open_pipes n (i + 1) (update (update pd (i * 2) a) (i * 2 + 1) b) k
]

-- "close everything I'm not using", in child `i`: `n` rounds, from program `j` on.
unfoldable pub close_others : ℕ → ℕ → ℕ → (ℕ → ℤ) → Prog → Prog
close_others zero j i pd k = k
close_others (suc n) j i pd k =
    let rest = close_others n (j + 1) i pd k in
    if j == i then rest else Prog.close (pd (j * 2)) (Prog.close (pd (j * 2 + 1)) rest)

-- Child `i` of `count`, which is to run `name`.
unfoldable pub child : ℕ → ℕ → List ℕ → (ℕ → ℤ) → Prog
child count i name pd = close_others count 0 i pd (
    Prog.close (pos 0) (
      Prog.close (pd (i * 2 + 1))
        (Prog.dup (pd (i * 2)) (Prog.close (pd (i * 2)) (Prog.execve name (name ∷ []) (exits 1))))))

-- "fork, dup, exec": `n` rounds, from program `i` on.
unfoldable pub start_children : ℕ → ℕ → ℕ → List ℕ → (ℕ → ℤ) → Prog → Prog
start_children zero i count name pd k = k
start_children (suc n) i count name pd k =
    let rest = start_children n (i + 1) count name pd k in
    Prog.fork λ pid.
      if ltb_ℤ pid (pos 0)
      then exits 1
      else if pid ==ℤ pos 0
      then child count i name pd
      else Prog.close (pd (i * 2)) rest

-- `a - b`.
unfoldable pub minus : ℤ → ℤ → ℤ
minus a (pos n) = a +ℤ neg n
minus a (negsuc n) = a +ℤ pos (suc n)

-- `while(sent < bytes)` for one pipe; each round takes one from the fuel.
unfoldable pub send : ℕ → ℤ → ℤ → ℤ → Prog → Prog
send zero fd bytes sent k = spins
send (suc fuel) fd bytes sent k =
    if ltb_ℤ sent bytes
    then Prog.write fd sent (minus bytes sent) (λ r.
      let rest = send fuel fd bytes (r +ℤ bytes) k in if ltb_ℤ (pos 0) r then rest else exits 1)
    else k

-- A block for each pipe: `n` rounds, from program `i` on. Two rounds are enough for each of them.
unfoldable pub send_all : ℕ → ℕ → ℤ → (ℕ → ℤ) → Prog → Prog
send_all zero i bytes pd k = k
send_all (suc n) i bytes pd k =
    send 2 (pd (i * 2 + 1)) bytes (pos 0) (send_all n (i + 1) bytes pd k)

-- "write a block at a time": the first rounds of the loop.
unfoldable pub copy_blocks : ℕ → ℕ → (ℕ → ℤ) → Prog → Prog
copy_blocks zero count pd k = spins
copy_blocks (suc rounds) count pd k = Prog.read (pos 0) (pos 0) (pos 8192) λ bytes.
    let rest = copy_blocks rounds count pd k in
    if ltb_ℤ (pos 0) bytes then send_all count 0 bytes pd rest else k

-- One character for each pipe.
unfoldable pub send_char : ℕ → ℕ → (ℕ → ℤ) → Prog → Prog
send_char zero i pd k = k
send_char (suc n) i pd k =
    let rest = send_char n (i + 1) pd k in
    Prog.write (pd (i * 2 + 1)) (pos 0) (pos 1) λ err. if err ==ℤ pos 1 then rest else exits 1

-- "write a character at a time".
unfoldable pub copy_chars : ℕ → ℕ → (ℕ → ℤ) → Prog → Prog
copy_chars zero count pd k = spins
copy_chars (suc rounds) count pd k = Prog.read (pos 0) (pos 0) (pos 1) λ bytes.
    let rest = copy_chars rounds count pd k in
    if ltb_ℤ (pos 0) bytes then send_char count 0 pd rest else k

-- "close the write ends of the pipes", and "wait for all of the children to exit".
unfoldable pub close_ends : ℕ → ℕ → (ℕ → ℤ) → Prog → Prog
close_ends zero i pd k = k
close_ends (suc n) i pd k = Prog.close (pd (i * 2 + 1)) (close_ends n (i + 1) pd k)

unfoldable pub wait_all : ℕ → Prog
wait_all zero = exits 0
wait_all (suc n) = Prog.wait (wait_all n)

-- `argv[n]`, which is there behind the tests of `argc`.
abbrev pub arg : ℕ → List (List ℕ) → List ℕ
arg n [] = []
arg zero (s ∷ l) = s
arg (suc n) (s ∷ l) = arg n l

-- `strcmp(s, "-p") == 0`
abbrev pub is_p : List ℕ → Bool
is_p (a ∷ b ∷ []) = (a == 45) && (b == 112)
is_p s = false

-- The rest of `main`, for `count` programs; `uninit` is what `malloc` leaves in `pd`.
unfoldable pub tee : ℕ → Bool → ℕ → List (List ℕ) → (ℕ → ℤ) → Prog
tee rounds in_parallel count argv uninit =
    let name = if in_parallel then arg 2 argv else arg 1 argv in
    Prog.malloc (count * 2) λ ok.
      if ok
      then open_pipes count 0 uninit (λ pd.
        let finish = close_ends count 0 pd (wait_all count) in
        start_children count 0 count name pd (
          if in_parallel
          then copy_chars rounds count pd finish
          else copy_blocks rounds count pd finish))
      else exits 1

unfoldable pub main : ℕ → List (List ℕ) → (ℕ → ℤ) → Prog
main rounds argv uninit =
    if ltb (length argv) 2
    then exits 1
    else if ltb (length argv) 3 && is_p (arg 1 argv)
    then exits 1
    else if ltb 8 (length argv)
    then exits 1
    else if is_p (arg 1 argv)
    then tee rounds true (length argv - 2) argv uninit
    else tee rounds false (length argv - 1) argv uninit
