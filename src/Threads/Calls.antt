-- ===== src/Threads/Calls.antt =====
-- The calls that neither start, end nor collect a process.
use cs170lab.Prelude.{ℕ, zero, suc, ◌+◌, ◌≡◌, refl, Option, none, some, true, false, Bool, List}
use cs170lab.Prelude.Int.{ℤ}
use cs170lab.Structs.{Ptr}
use cs170lab.Env.{Env}
use cs170lab.Kernel.{Kernel, Cmd}
use cs170lab.Syscall.Info.{getpid, get_ppid, getpagesize, getdtablesize, ioctl, fstat}
use cs170lab.Syscall.Sbrk.{do_sbrk}
use cs170lab.Syscall.Dup.{find_fd, share_fd, close_for_dup2, dup_to, do_dup, do_dup2}
use cs170lab.Sem.{v_times}
use cs170lab.Syscall.Close.{close_read, close_write, do_close}
use cs170lab.Syscall.Pipe.{init_pipe, connect, pipe_second, pipe_first, do_pipe}
use cs170lab.Memory.{store_word}
use cs170lab.Threads.{Follows, Nobody}
use cs170lab.Threads.Frames.{
  Still, Still-refl, Still-put, Still-if, Moves-next, pauses, ready_behind, Follows-deref,
  Follows-if, Follows-if_cmd, Follows-if_part, Follows-in_bounds, Follows-get,
  Follows-syscall_return,
}

pub ruleset rules = (
  Follows-deref, Follows-if, Follows-if_cmd, Follows-if_part, Follows-in_bounds, Follows-get,
  Follows-syscall_return, Still-refl, Still-put, Still-if, pauses, refl,
)

module _ (env : Env) (p : Ptr) where
  abbrev pub Good : Cmd → Type 0
  Good c = (h : Kernel) → Follows Nobody (ready_behind p) h (c h)

  pub getpid-Good : Good (getpid env p)
  unfolding getpid
  getpid-Good h = search rules

  pub do_sbrk-Good : Good (do_sbrk env p)
  unfolding do_sbrk
  do_sbrk-Good h = search rules depth 30 fits 3000

  pub fstat-Good : Good (fstat env p)
  unfolding fstat
  fstat-Good h = search rules depth 30 fits 3000

  pub ioctl-Good : Good (ioctl env p)
  unfolding ioctl
  ioctl-Good h = search rules depth 30 fits 3000

  pub get_ppid-Good : Good (get_ppid env p)
  unfolding get_ppid
  get_ppid-Good h = search rules depth 30 fits 3000

  pub getpagesize-Good : Good (getpagesize env p)
  unfolding getpagesize
  getpagesize-Good h = search rules

  pub getdtablesize-Good : Good (getdtablesize env p)
  unfolding getdtablesize
  getdtablesize-Good h = search rules

  -- The search for a descriptor goes on to its end with what follows.
  find_fd-Follows :
      (n i : ℕ) (fd : ℕ → Ptr) (k : Option ℕ → Cmd) (h0 h : Kernel)
      → ((r : Option ℕ) → Follows Nobody (ready_behind p) h0 (k r h))
      → Follows Nobody (ready_behind p) h0 (find_fd n i fd k h)
  unfolding find_fd
  find_fd-Follows zero i fd k h0 h r = r none
  find_fd-Follows (suc n) i fd k h0 h r =
      Follows-deref Nobody (ready_behind p) h0 (h.fds (fd i)) _ h λ f at.
        Follows-if_cmd Nobody (ready_behind p) h0 f.is_open _ _ h
          (λ e. find_fd-Follows n (i + 1) fd k h0 h r) (λ e. r (some i))

  dup_to-Follows :
      (a : Ptr) (r : Option ℕ) (h0 h : Kernel)
      → Still Nobody h0 h
      → Follows Nobody (ready_behind p) h0 (dup_to env p a r h)
  unfolding dup_to share_fd
  dup_to-Follows a none h0 h s = search rules depth 30 fits 3000
  dup_to-Follows a (some new) h0 h s = search rules depth 30 fits 3000

  pub do_dup-Good : Good (do_dup env p)
  unfolding do_dup
  do_dup-Good h = search (rules, find_fd-Follows, dup_to-Follows) depth 30 fits 3000

  pub do_dup2-Good : Good (do_dup2 env p)
  unfolding do_dup2 share_fd close_for_dup2
  do_dup2-Good h = search rules depth 40 fits 4000

  v_times-Follows :
      (n : ℕ) (sem : Ptr) (k : Unit {0} → Cmd) (h0 h : Kernel)
      → Still Nobody h0 h
      → ((g : Kernel) → Still Nobody h0 g → Follows Nobody (ready_behind p) h0 (k tt g))
      → Follows Nobody (ready_behind p) h0 (v_times env n sem k h)
  unfolding v_times
  v_times-Follows zero sem k h0 h s r = r h s
  v_times-Follows (suc n) sem k h0 h s r =
      v_times-Follows n sem k h0 (record h { sems = env.kt.v h.sems sem }) s r

  pub do_close-Good : Good (do_close env p)
  unfolding do_close close_read close_write
  do_close-Good h = search (rules, v_times-Follows) depth 40 fits 4000

  init_pipe-Follows :
      (q : Ptr) (k : Unit {0} → Cmd) (h0 h : Kernel)
      → Still Nobody h0 h
      → ((g : Kernel) → Still Nobody h0 g → Follows Nobody (ready_behind p) h0 (k tt g))
      → Follows Nobody (ready_behind p) h0 (init_pipe env q k h)
  unfolding init_pipe
  init_pipe-Follows q k h0 h s r = search (r, Moves-next)

  store_word-Follows :
      (a : ℤ) (w : ℕ) (k : Unit {0} → Cmd) (h0 h : Kernel)
      → Still Nobody h0 h
      → ((g : Kernel) → Still Nobody h0 g → Follows Nobody (ready_behind p) h0 (k tt g))
      → Follows Nobody (ready_behind p) h0 (store_word a w k h)
  unfolding store_word
  store_word-Follows a w k h0 h s r = search (r, rules, tt)

  connect-Follows :
      (q : Ptr) (r w : ℕ) (h0 h : Kernel)
      → Still Nobody h0 h
      → Follows Nobody (ready_behind p) h0 (connect env p q r w h)
  unfolding connect
  connect-Follows q r w h0 h s =
      search (rules, init_pipe-Follows, store_word-Follows) depth 40 fits 4000

  pipe_second-Follows :
      (q : Ptr) (r : ℕ) (w : Option ℕ) (h0 h : Kernel)
      → Still Nobody h0 h
      → Follows Nobody (ready_behind p) h0 (pipe_second env p q r w h)
  unfolding pipe_second
  pipe_second-Follows q r none h0 h s = search rules
  pipe_second-Follows q r (some w) h0 h s = connect-Follows q r w h0 h s

  pipe_first-Follows :
      (q : Ptr) (r : Option ℕ) (h0 h : Kernel)
      → Still Nobody h0 h
      → Follows Nobody (ready_behind p) h0 (pipe_first env p q r h)
  unfolding pipe_first
  pipe_first-Follows q none h0 h s = search rules
  pipe_first-Follows q (some r) h0 h s =
      search (rules, find_fd-Follows, pipe_second-Follows) depth 30 fits 3000

  pub do_pipe-Good : Good (do_pipe env p)
  unfolding do_pipe
  do_pipe-Good h =
      search (rules, find_fd-Follows, pipe_first-Follows, Moves-next) depth 30 fits 3000
