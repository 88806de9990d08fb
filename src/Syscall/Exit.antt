-- ===== src/Syscall/Exit.antt =====
-- do_exit of syscall.c, in the parts that its comments name.
pub mod Rounds
pub mod Release
pub mod Leaf
use cs170lab.Prelude.{ℕ, zero, suc, ◌+◌, false, not, ◌&&◌, length, ◌==◌, if◌then◌else◌, update}
use cs170lab.Prelude.Int.{pos, negsuc, ◌+ℤ◌, ◌==ℤ◌}
use cs170lab.Structs.{Ptr, Fd, Pipe}
use cs170lab.Env.{Env}
use cs170lab.Kernel.{
  M, Cmd, exited, spins, ◌>>=◌, ◌>>◌, get, modify, when, branch, deref, get_pcb, get_fd, get_pipe,
  set_pcb, set_fd, set_pipe, free_pcb, free_pipe,
}
use cs170lab.Sem.{v_kt_sem}
use cs170lab.Memory.{clear_block}
use cs170lab.Pid.{destroy_pid}

-- One descriptor less refers to an end of the pipe.
abbrev pub drop_reference : Fd → Pipe → Pipe
drop_reference f q =
    if f.is_read
    then record q { read_count = q.read_count +ℤ negsuc 0 }
    else record q { write_count = q.write_count +ℤ negsuc 0 }

-- The body of the loop "close related fd table" for an open descriptor of a pipe.
unfoldable pub exit_fd : Ptr → M (Unit {0})
unfolding ◌+ℤ◌
exit_fd a k = do
  f ← get_fd a
  set_pipe f.my_pipe (drop_reference f)
  q ← get_pipe f.my_pipe
  when ((q.read_count ==ℤ pos 0) && (q.write_count ==ℤ pos 0)) (free_pipe f.my_pipe)
  set_fd a λ f. record f { is_open = false }
  k tt

-- The loop itself: `n` rounds, from number `i` on.
unfoldable pub exit_fds : ℕ → ℕ → Ptr → M (Unit {0})
exit_fds zero i p k = k tt
exit_fds (suc n) i p k = do
  c ← get_pcb p
  f ← get_fd (c.fd i)
  when (not f.console && f.is_open) (exit_fd (c.fd i))
  exit_fds n (i + 1) p k

module _ (env : Env) where
  open env use {dll, jrb}

  -- "switch children to parents": each child gets `init` for a parent.
  unfoldable pub adopt_children : ℕ → Ptr → M (Unit {0})
  adopt_children zero p k = λ h. spins
  adopt_children (suc fuel) p k = get_pcb p λ c.
      let round = (do
        first ← deref (jrb.first c.children)
        child ← get_pcb first.1
        node ← deref (jrb.find_int c.children child.pid)
        set_pcb p λ c. record c { children = jrb.delete_node c.children node }
        h ← get
        set_pcb first.1 λ x. record x { parent = h.init }
        set_pcb h.init λ x. record x { children = jrb.insert_int x.children child.pid first.1 }
        adopt_children fuel p k) in
      if jrb.is_empty c.children then k tt else round

  -- "clean up zombie": each process that waits to be collected is handed to `init`.
  unfoldable pub hand_zombies : ℕ → Ptr → M (Unit {0})
  hand_zombies zero p k = λ h. spins
  hand_zombies (suc fuel) p k = get_pcb p λ c.
      let round = (do
        zombie ← deref (dll.first c.waiters)
        h ← get
        set_pcb zombie λ x. record x { parent = h.init }
        set_pcb h.init λ x. record x { waiters = dll.append x.waiters zombie }
        set_pcb p λ c. record c { waiters = dll.delete_first c.waiters }
        i ← get_pcb h.init
        v_kt_sem env i.waiters_sem
        hand_zombies fuel p k) in
      if dll.is_empty c.waiters then k tt else round

  -- "clean up": a child of `init` is freed, another one waits for its parent.
  unfoldable pub clean_up : Ptr → M (Unit {0})
  clean_up p k = do
    c ← get_pcb p
    parent ← get_pcb c.parent
    branch (parent.pid == 0) (do modify (destroy_pid env c.pid); free_pcb p; k tt)
        (do
          v_kt_sem env parent.waiters_sem
          set_pcb c.parent λ x. record x { waiters = dll.append x.waiters p }
          k tt)

  unfoldable pub do_exit : Ptr → Cmd
  do_exit p = do
    set_pcb p λ c. record c { exit_value = c.my_registers 5 }
    c ← get_pcb p
    modify λ h. record h { memory_chunk = update h.memory_chunk c.memory_num 0 }
    clear_block c.base c.limit
    parent ← get_pcb c.parent
    node ← deref (jrb.find_int parent.children c.pid)
    set_pcb c.parent λ x. record x { children = jrb.delete_node x.children node }
    c ← get_pcb p
    adopt_children (length c.children + 1) p
    hand_zombies (length c.waiters + 1) p
    exit_fds 64 0 p
    clean_up p
    exited
