-- ===== src/Tests/Machinery.antt =====
-- sbrk, memory, pids, and the scheduler.
use cs170lab.TeePipe.{Prog, exits, send}
use cs170lab.TeePipe.Copy.{send-once}
use cs170lab.Prelude.{if◌then◌else◌, ℕ, ◌<◌, ◌≤◌, ◌≡◌, ◌≢◌, ◌⊎◌, refl, none, some, [], ◌∷◌, arith}
use cs170lab.Prelude.Int.{pos, negsuc, ltb_ℤ}
use cs170lab.Structs.{Regs, Pcb}
use cs170lab.Env.{entry, placed}
use cs170lab.Env.Reference.{reference}
use cs170lab.Kernel.{Kernel, exited}
use cs170lab.Pid.{get_new_pid}
use cs170lab.Pid.Fresh.{get_new_pid-least}
use cs170lab.Syscall.{valid_address}
use cs170lab.Syscall.Errno.{enomem}
use cs170lab.Syscall.Return.{finished}
use cs170lab.Syscall.Sbrk.{do_sbrk}
use cs170lab.Syscall.Sbrk.Grow.{Moves, do_sbrk-grows, do_sbrk-wraps}
use cs170lab.Trap.{runs}
use cs170lab.Trap.Turns.{Running, ticks, turn_comes}
use cs170lab.Tests.Machine

abbrev calls : ℕ → Pcb
calls n = Machine.process 0 1 (Machine.args (pos n) (pos 0) (pos 0))

abbrev with : ℕ → Kernel
with n = Machine.machine 0 (calls n) (calls n)

moves : (n : ℕ) → Moves (with n) 2 (calls n) 5000 n
unfolding valid_address
moves n = record { at = refl; valid = refl; break = refl; arg = refl }

do_sbrk-grows_example :
    ((5100 ≤ 131072)
      × (do_sbrk reference 2 (with 100)
          ≡ exited (finished 2 (pos 5000) (record (calls 100) { sbrk_ptr = pos 5100 }) (with 100))))
    ⊎ ((131072 < 5100)
        × (do_sbrk reference 2 (with 100) ≡ exited (finished 2 enomem (calls 100) (with 100))))
do_sbrk-grows_example =
    do_sbrk-grows reference (with 100) 2 (calls 100) 5000 100 (moves 100) (omega arith)

-- 2147483647 bytes more than 5000.
do_sbrk-wraps_example :
    do_sbrk reference 2 (with 2147483647)
    ≡ exited (
        finished 2
          (pos 5000)
          (record (calls 2147483647) { sbrk_ptr = negsuc 2147478648 })
          (with 2147483647))
do_sbrk-wraps_example =
    do_sbrk-wraps reference (with 2147483647) 2 (calls 2147483647) 5000 2147483647
      (moves 2147483647) (omega arith) (omega arith) (omega arith)

get_new_pid-least_example :
    (c : ℕ) × (get_new_pid reference (λ c h. exited h) (with 0)
      ≡ exited (record (with 0) { curpid = c; rbtree = placed (with 0).rbtree c 0 }))
    × (entry (with 0).rbtree c ≡ none)
    × ((j : ℕ) → j < c → entry (with 0).rbtree j ≢ none)
    × (entry (placed (with 0).rbtree c 0) c ≡ some (c, 0))
get_new_pid-least_example = get_new_pid-least reference (λ c h. exited h) (with 0)

-- Process 2 runs, 3 and init are ready, and init's turn comes at the second tick.
abbrev three : Kernel
three = record (with 0) { readyq = 3 ∷ 1 ∷ [] }

turn_comes_example :
    (regs : Regs) × (g : Kernel) × (ticks reference
        (Machine.args (pos 4) (pos 5) (pos 6) ∷ Machine.args (pos 7) (pos 8) (pos 9) ∷ [])
        (runs 2 (calls 0).my_registers three)
      ≡ runs 1 regs g)
    × Running g 1 (2 ∷ 3 ∷ [])
turn_comes_example =
    turn_comes reference
      (Machine.args (pos 4) (pos 5) (pos 6) ∷ Machine.args (pos 7) (pos 8) (pos 9) ∷ [])
      (calls 0).my_registers three 2 1 (3 ∷ []) [] refl
      (record {
        busy = refl;
        current = refl;
        queue = refl;
        alive = ((calls 0, refl), ((calls 0, refl), ((Machine.init_process, refl), tt)));
      })

-- Process 2 is the only one, with init its parent.
abbrev lone : Kernel
lone = record (with 0) { readyq = [] }

send-once_example :
    send 2 (pos 4) (pos 10) (pos 0) (exits 0)
    ≡ Prog.write (pos 4) (pos 0) (pos 10) (λ r. if ltb_ℤ (pos 0) r then exits 0 else exits 1)
send-once_example = send-once 0 10 (pos 4) (exits 0) (omega arith)
