-- ===== src/Syscall/Close/Last.antt =====
-- close by the last reader of a pipe, and of a number of the console.
use cs170lab.Prelude.{
  ℕ, zero, suc, ◌+◌, ◌≡◌, ◌≢◌, refl, ◌∙◌, some, [], ◌∷◌, ◌++◌, arith, ==_refl, ==_ne, update,
}
use cs170lab.Prelude.Int.{pos, negsuc, ◌+ℤ◌}
use cs170lab.Structs.{Ptr, Fd, Pipe, Pcb}
use cs170lab.Env.{Env}
use cs170lab.Kernel.{Kernel, Cmd, exited}
use cs170lab.Sem.{v_times}
use cs170lab.Syscall.{returned, syscall_return}
use cs170lab.Syscall.Return.{finished, syscall_return-finished, bad_fd-small}
use cs170lab.Syscall.Close.{close_read, do_close}
use cs170lab.Syscall.Close.Alias.{Closes, shut, some_left}

-- The semaphores after `n` calls of `V_kt_sem`.
abbrev pub raised : Env → ℕ → Ptr → (Ptr → ℕ) → Ptr → ℕ
raised env zero s f = f
raised env (suc n) s f = raised env n s (env.kt.v f s)

one_more : (env : Env) (s : Ptr) (f : Ptr → ℕ) → env.kt.v f s s ≡ f s + 1
one_more env s f = rw (env.kt.v_lem f s, ==_refl s) refl

raised_self : (env : Env) (n : ℕ) (s : Ptr) (f : Ptr → ℕ) → raised env n s f s ≡ f s + n
raised_self env zero s f = omega arith
raised_self env (suc n) s f = omega (arith, raised_self env n s (env.kt.v f s), one_more env s f)

raised_other : (env : Env) (n : ℕ) (s t : Ptr) (f : Ptr → ℕ) → s ≢ t → raised env n s f t ≡ f t
raised_other env zero s t f apart = refl
raised_other env (suc n) s t f apart =
    raised_other env n s t (env.kt.v f s) apart ∙ rw (env.kt.v_lem f s, ==_ne s t apart)

v_times-raised :
    (env : Env) (n : ℕ) (s : Ptr) (k : Unit {0} → Cmd) (h : Kernel)
    → v_times env n s k h ≡ k tt (record h { sems = raised env n s h.sems })
unfolding v_times
v_times-raised env zero s k h = refl
v_times-raised env (suc n) s k h = v_times-raised env n s k (record h { sems = env.kt.v h.sems s })

last_count : pos 1 +ℤ negsuc 0 ≡ pos 0
unfolding ◌+ℤ◌
last_count = refl

module _ (env : Env) (h : Kernel) (p : Ptr) (c : Pcb) (i : ℕ) (f : Fd) (q : Pipe)
    (r : Closes h p c i f q) (last : q.read_count ≡ pos 1) where
  abbrev unread : Pipe
  unread = record q { read_count = pos 0 }

  -- The kernel when the `n` writers have been let go on.
  abbrev freed : ℕ → Kernel
  freed n = record h {
    pipes = update h.pipes f.my_pipe (some unread);
    fds = update h.fds (c.fd i) (some (shut f));
    sems = raised env n q.space_available h.sems;
  }

  close_read-last :
      (n : ℕ) (k : Unit {0} → Cmd)
      → q.write_count ≡ pos (suc n)
      → close_read env (c.fd i) k h ≡ k tt (freed (suc n))
  unfolding close_read
  close_read-last n k writers =
      rw (r.is, r.pipe, last, last_count, r.is, ==_refl f.my_pipe, writers)
        (v_times-raised env (suc n) q.space_available _ _ ∙ rw (some_left n) refl)

  do_close-close_read :
      do_close env p h ≡ close_read env (c.fd i) (λ _. syscall_return env p (pos 0)) h
  unfolding do_close
  do_close-close_read = rw (r.at, r.arg, bad_fd-small i r.small, r.is, r.opened, r.piped, r.reading)

  -- close by the last reader of a pipe that has `suc n` writers counted: the call ends and returns 0, the count of readers is 0,
  -- the descriptor is closed, and the semaphore `space_available` is raised once for each writer, so that all that
  -- wait for room go on; no other semaphore changes, and the process is behind the ready queue.
  pub do_close-last :
      (n : ℕ)
      → q.write_count ≡ pos (suc n)
      → (k : Kernel) × (do_close env p h ≡ exited k)
        × (k.pcbs p ≡ some (returned (pos 0) c))
        × (k.pipes f.my_pipe ≡ some unread)
        × (k.fds (c.fd i) ≡ some (shut f))
        × (k.sems q.space_available ≡ h.sems q.space_available + suc n)
        × ((s : Ptr) → q.space_available ≢ s → k.sems s ≡ h.sems s)
        × (k.readyq ≡ h.readyq ++ p ∷ [])
  do_close-last n writers = (
    finished p (pos 0) c (freed (suc n)),
    do_close-close_read
        ∙ close_read-last n (λ _. syscall_return env p (pos 0)) writers
        ∙ syscall_return-finished env p (pos 0) c (freed (suc n)) r.at,
    rw (==_refl p) refl,
    rw (==_refl f.my_pipe) refl,
    rw (==_refl (c.fd i)) refl,
    raised_self env (suc n) q.space_available h.sems,
    (λ s apart. raised_other env (suc n) q.space_available s h.sems apart),
    refl,
  )
