-- ===== src/System/Steps/Lives/Calls.antt =====
-- The threads of the calls against the life of processes.
use cs170lab.System.Steps.Lives.{shown, Shows-run, Shows-exit}
use cs170lab.Prelude.{◌+◌, ◌≤◌, ◌≡◌, inl, inr, List, [], ◌∷◌, ◌++◌, arith}
use cs170lab.Structs.{Ptr, memory_size}
use cs170lab.Env.{Env}
use cs170lab.Kernel.{Kernel, Cmd}
use cs170lab.Syscall.Exit.{do_exit}
use cs170lab.Syscall.Fork.{do_fork}
use cs170lab.Syscall.Fork.Chunk.{with_child}
use cs170lab.Threads.Ending.{do_exit-Follows}
use cs170lab.Threads.Spawning.{do_fork-Follows, spawned}
use cs170lab.System.{Thread, main_of, threads_of}
use cs170lab.System.Places.{count, tasked, tasked-append, owners}
use cs170lab.System.Acts.{Acts, goes_on, ends, spawns}
use cs170lab.System.Life.{View, Life, Lives, once, Shows}
use cs170lab.System.Steps.{Whole}
use cs170lab.System.Steps.Calls.{fresh, in_hand}

-- The thread of the call of `p`, which was the first that has asked.
module _ (env : Env) (h : Kernel) (p : Ptr) (ts : List Thread)
    (w : Whole h ts (λ x. count x (p ∷ []))) where
  abbrev pub asked : View
  asked = shown h.readyq (p ∷ tasked h.forked) (owners ts)

  -- The child has the address `h.next`, at which there was no process.
  forks : Life asked (shown h.readyq (p ∷ (tasked h.forked ++ h.next ∷ [])) (owners ts))
  forks =
      let none_there = fresh env h p ts w in
      Life.forked p h.next h.readyq (tasked h.forked) (owners ts) (omega (arith, none_there))
        (omega (arith, none_there)) (omega (arith, none_there))

  Shows-fork : Shows asked (main_of (do_fork env p h)) (threads_of (p ∷ []) (do_fork env p h) ++ ts)
  Shows-fork =
      let a = w.sound.placed p (in_hand env h p ts w) in
      let from : a.c.base + h.user_limit ≤ memory_size =
        rw (a.base, w.sound.whole) (omega (arith, a.number)) in
      elim (do_fork-Follows env h p a.c a.at a.old from
        (λ i small. rw w.sound.whole (omega arith))) [
          | inl t ↦
              Shows-run asked (do_fork env p h) (with_child env h) (p ∷ []) ts t
                (once (Life.served p h.readyq (tasked h.forked) (owners ts)))
                (once (Life.blocked p h.readyq (tasked h.forked) (owners ts)))
          | inr (i, d, small, free, housed, t) ↦
              let after : List Ptr = tasked h.forked ++ h.next ∷ [] in
              let e : tasked (spawned h i d).forked ≡ after = tasked-append h.forked _ in
              Shows-run asked (do_fork env p h) (spawned h i d) (p ∷ []) ts t
                (rw e (Lives.then_step (once forks) (Life.served p h.readyq after (owners ts))))
                (rw e (Lives.then_step (once forks) (Life.blocked p h.readyq after (owners ts))))
        ]

  pub Shows-Acts :
      {c : Cmd} → Acts env p c → Shows asked (main_of (c h)) (threads_of (p ∷ []) (c h) ++ ts)
  Shows-Acts (goes_on {c} good) =
      Shows-run asked (c h) h (p ∷ []) ts (good h)
        (once (Life.served p h.readyq (tasked h.forked) (owners ts)))
        (once (Life.blocked p h.readyq (tasked h.forked) (owners ts)))
  Shows-Acts ends =
      let a = w.sound.placed p (in_hand env h p ts w) in
      Shows-exit asked (do_exit env p h) _ p ts (do_exit-Follows env p h a.c a.at)
        (once (Life.ended p h.readyq (tasked h.forked) (owners ts)))
  Shows-Acts spawns = Shows-fork
