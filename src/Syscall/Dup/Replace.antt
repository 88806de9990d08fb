-- ===== src/Syscall/Dup/Replace.antt =====
-- do_dup2: what becomes of the descriptor at the new number.
use cs170lab.Prelude.{
  ℕ, ◌<◌, ◌≡◌, ◌≢◌, ◌∙◌, refl, true, false, none, some, ==_refl, ==_ne, update, update-update,
}
use cs170lab.Prelude.Int.{pos, negsuc, ◌+ℤ◌}
use cs170lab.Structs.{Ptr, Fd, Pipe, Pcb, null}
use cs170lab.Env.{Env}
use cs170lab.Kernel.{Kernel, Cmd, exited, fault}
use cs170lab.Syscall.{syscall_return}
use cs170lab.Syscall.Return.{finished, bad_fd-small, syscall_return-finished}
use cs170lab.Syscall.Dup.{share_fd, close_for_dup2, do_dup2}
use cs170lab.Syscall.Dup.Share.{shared, share_fd-shared, share_fd-fault}

-- The pipe counts one reader and one writer less.
abbrev pub both_less : Pipe → Pipe
both_less q = record q {
  read_count = q.read_count +ℤ negsuc 0;
  write_count = q.write_count +ℤ negsuc 0;
}

-- The descriptor is closed and has no pipe.
abbrev pub cut_off : Fd → Fd
cut_off g = record g { console = false; my_pipe = null; is_open = false; reference_count = 0 }

-- The kernel in which the descriptor `g` at `b` of the pipe `q` has been closed for dup2.
abbrev pub shut : Ptr → Fd → Pipe → Kernel → Kernel
shut b g q h = record h {
  fds = update h.fds b (some (cut_off g));
  pipes = update h.pipes g.my_pipe (some (both_less q));
}

-- A call of `dup2` of the number `old`, whose descriptor `f` is open, to the number `new`, whose descriptor is `g`.
pub record Dups (h : Kernel) (p : Ptr) (c : Pcb) (old new : ℕ) (f g : Fd) : Type 0 where
  pub at : h.pcbs p ≡ some c
  pub arg : c.my_registers 5 ≡ pos old
  pub small : old < 64
  pub is : h.fds (c.fd old) ≡ some f
  pub opened : f.is_open ≡ true
  pub to : c.my_registers 6 ≡ pos new
  pub small_to : new < 64
  pub target : h.fds (c.fd new) ≡ some g

close_for_dup2-shut :
    (b : Ptr) (g : Fd) (q : Pipe) (k : Unit {0} → Cmd) (h : Kernel)
    → h.fds b ≡ some g
    → h.pipes g.my_pipe ≡ some q
    → close_for_dup2 b k h ≡ k tt (shut b g q h)
unfolding close_for_dup2 ◌+ℤ◌
close_for_dup2-shut b g q k h is e =
    rw
      (
        is,
        ==_refl b,
        e,
        ==_refl g.my_pipe,
        ==_refl b,
        update-update,
        update-update h.pipes g.my_pipe (some (record q { read_count = q.read_count +ℤ negsuc 0 }))
            (some (both_less q)),
      )
      refl

module _ (env : Env) (h : Kernel) (p : Ptr) (c : Pcb) (old new : ℕ) (f g : Fd)
    (d : Dups h p c old new f g) where
  -- The end of the call.
  abbrev shares : Unit {0} → Cmd
  shares t = share_fd p (c.fd old) new (λ _. syscall_return env p (pos new))

  shares-shared :
      (h' : Kernel) (f' : Fd) (q : Pipe)
      → h'.pcbs p ≡ some c
      → h'.fds (c.fd old) ≡ some f'
      → h'.pipes f'.my_pipe ≡ some q
      → shares tt h'
        ≡ exited (
            finished p
              (pos new)
              (record c { fd = update c.fd new (c.fd old) })
              (shared p (c.fd old) new c f' q h'))
  shares-shared h' f' q at is e =
      share_fd-shared h' p (c.fd old) c f' at is (λ _. syscall_return env p (pos new)) new q e
      ∙ syscall_return-finished env p (pos new) (record c { fd = update c.fd new (c.fd old) })
          (shared p (c.fd old) new c f' q h') (rw (==_refl p) refl)

  do_dup2-closes : g.is_open ≡ true → do_dup2 env p h ≡ close_for_dup2 (c.fd new) shares h
  unfolding do_dup2
  do_dup2-closes open_there =
      rw
        (
          d.at,
          d.arg,
          bad_fd-small old d.small,
          d.is,
          d.opened,
          d.to,
          bad_fd-small new d.small_to,
          d.target,
          open_there,
        )
        refl

  -- dup2 to an open number of a pipe, which has another structure: the call returns the new number, which then shares
  -- the descriptor of the old one, and the pipe of that one counts a reference more. The descriptor that was there is
  -- closed, and its pipe counts one reader and one writer less, whichever end it was.
  pub do_dup2-replaces :
      (q1 q2 : Pipe)
      → g.is_open ≡ true
      → c.fd new ≢ c.fd old
      → h.pipes g.my_pipe ≡ some q1
      → (shut (c.fd new) g q1 h).pipes f.my_pipe ≡ some q2
      → do_dup2 env p h
        ≡ exited (
            finished p
              (pos new)
              (record c { fd = update c.fd new (c.fd old) })
              (shared p (c.fd old) new c f q2 (shut (c.fd new) g q1 h)))
  do_dup2-replaces q1 q2 open_there apart e1 e2 =
      do_dup2-closes open_there
      ∙ close_for_dup2-shut (c.fd new) g q1 shares h d.target e1
      ∙ shares-shared (shut (c.fd new) g q1 h) f q2 d.at
          (rw (==_ne (c.fd new) (c.fd old) apart) d.is) e2

  -- dup2 of an open number of a pipe to a number with the same descriptor, as to itself: the call closes the descriptor
  -- and then follows its pipe, which is null.
  pub do_dup2-same :
      (q : Pipe)
      → c.fd new ≡ c.fd old
      → g.is_open ≡ true
      → h.pipes g.my_pipe ≡ some q
      → h.pipes null ≡ none
      → g.my_pipe ≢ null
      → do_dup2 env p h ≡ fault
  do_dup2-same q same open_there e nothing apart =
      do_dup2-closes open_there
      ∙ close_for_dup2-shut (c.fd new) g q shares h d.target e
      ∙ share_fd-fault (shut (c.fd new) g q h) p (c.fd old) c (cut_off g) d.at
          (rw (same, ==_refl (c.fd old)) refl) (λ _. syscall_return env p (pos new)) new
          (rw (==_ne g.my_pipe null apart) nothing)
