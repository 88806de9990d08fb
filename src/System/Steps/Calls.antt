-- ===== src/System/Steps/Calls.antt =====
-- The threads of the system calls: `handler`, against the invariant.
use cs170lab.Prelude.{
  ℕ, ◌+◌, ◌<◌, ◌≤◌, ◌≡◌, ◌≢◌, inl, inr, refl, sym, List, [], ◌∷◌, ◌++◌, arith, ==_refl, ==_ne,
  ℕ_discrete,
}
use cs170lab.Structs.{Ptr, Pcb, memory_size}
use cs170lab.Env.{Env}
use cs170lab.Kernel.{Kernel, Run, Call, Task, Cmd}
use cs170lab.Syscall.Exit.{do_exit}
use cs170lab.Syscall.Fork.{do_fork}
use cs170lab.Syscall.Fork.Chunk.{with_child}
use cs170lab.Threads.Ending.{do_exit-Follows}
use cs170lab.Threads.Spawning.{do_fork-Follows, Housed, spawned}
use cs170lab.System.{Thread, handler, main_of, threads_of}
use cs170lab.System.Acts.{Acts, goes_on, ends, spawns, handler-Acts}
use cs170lab.System.Places.{count, count-append, tasked, tasked-append, total}
use cs170lab.System.Chunks.{Sound-free, Sound-with_child, Sound-spawned}
use cs170lab.System.Steps.{Started, Whole, Inv, Inv-run, Inv-exit}

pub Started-append :
    (l : List Task) (c : Call) (p : Ptr) → Started l → Started (l ++ Task.user c p ∷ [])
Started-append [] c p s = tt
Started-append (Task.user d q ∷ l) c p s = Started-append l c p s
Started-append (Task.initialize_user_process a ∷ l) c p s = absurd s
Started-append (Task.cons_to_buff ∷ l) c p s = Started-append l c p s

-- One more task.
pub total-task :
    (x : Ptr) (h : Kernel) (ts : List Thread) (c : Call) (p : Ptr)
    → total x (record h { forked = h.forked ++ Task.user c p ∷ [] }) ts
      ≡ total x h ts + count x (p ∷ [])
total-task x h ts c p =
    rw (tasked-append h.forked (Task.user c p ∷ []))
      (omega (arith, count-append x (tasked h.forked) (p ∷ [])))

-- Does a process stand before the call of its own?
pub count_self : (p : Ptr) → count p (p ∷ []) ≡ 1
count_self p = rw (==_refl p) refl

pub count_other : (x p : Ptr) → x ≢ p → count x (p ∷ []) ≡ 0
count_other x p e = rw (==_ne x p e) refl

module _ (env : Env) (h : Kernel) (p : Ptr) (ts : List Thread)
    (w : Whole h ts (λ x. count x (p ∷ []))) where
  abbrev After : Run → Type 0
  After r = Inv (main_of r) (threads_of (p ∷ []) r ++ ts)

  pub in_hand : 1 ≤ total p h ts + count p (p ∷ [])
  in_hand = omega (arith, count_self p)

  -- The process is not `init`.
  not_init : p ≢ h.init
  not_init e =
      absurd (omega (arith, in_hand, w.sound.root.nowhere, rw (← e) at w.sound.root.nowhere))

  After-exit : After (do_exit env p h)
  After-exit =
      let a = w.sound.placed p in_hand in
      let gone : total p h ts ≡ 0 = omega (arith, w.sound.once p, count_self p) in
      Inv-exit (do_exit env p h) _ p ts (do_exit-Follows env p h a.c a.at)
        (record {
          sound =
              Sound-free h p a.c (λ x. total x h ts + count x (p ∷ [])) (λ x. total x h ts + 0)
                w.sound in_hand a.at (λ x. omega arith) (omega (arith, gone));
          started = w.started;
          threads = w.threads;
        })
        gone a.old not_init

  abbrev pub counted : Ptr → ℕ
  counted x = total x h ts + count x (p ∷ [])

  -- No process is at the next address yet.
  pub fresh : counted h.next ≡ 0
  fresh = elim (ℕ_discrete (counted h.next) 0) [
    | yes e ↦ e
    | no e ↦ absurd (omega (arith, (w.sound.placed h.next (omega (arith, e))).old))
  ]

  -- With the child, whose thread is to start.
  Whole-spawned :
      (i : ℕ) (d : Pcb)
      → i < 8
      → h.memory_chunk i ≡ 0
      → Housed h i d
      → Whole (spawned h i d) ts (λ x. count x (p ∷ []))
  Whole-spawned i d small free housed = record {
    sound =
        Sound-spawned h counted (λ x. total x (spawned h i d) ts + count x (p ∷ [])) i d w.sound
          small free housed
          (omega (arith, total-task h.next h ts Call.finish_fork h.next, count_self h.next, fresh))
          (λ x e. omega (
            arith,
            total-task x h ts Call.finish_fork h.next,
            count_other x h.next (λ z. e (sym z)),
          ));
    started = Started-append h.forked Call.finish_fork h.next w.started;
    threads = w.threads;
  }

  After-fork : env.uninit_pcb.waiters ≡ [] → After (do_fork env p h)
  After-fork clean =
      let a = w.sound.placed p in_hand in
      let from : a.c.base + h.user_limit ≤ memory_size =
        rw (a.base, w.sound.whole) (omega (arith, a.number)) in
      elim (do_fork-Follows env h p a.c a.at a.old from
        (λ i small. rw w.sound.whole (omega arith))) [
          | inl t ↦ Inv-run (do_fork env p h) (with_child env h) (p ∷ []) ts t (record {
            sound = Sound-with_child env h counted clean w.sound;
            started = w.started;
            threads = w.threads;
          })
          | inr (i, d, small, free, housed, t) ↦
              Inv-run (do_fork env p h) (spawned h i d) (p ∷ []) ts t
                (Whole-spawned i d small free housed)
        ]

  -- The thread of a call, up to its first wait.
  After-Acts : env.uninit_pcb.waiters ≡ [] → {c : Cmd} → Acts env p c → After (c h)
  After-Acts clean (goes_on good) = Inv-run _ h (p ∷ []) ts (good h) w
  After-Acts clean ends = After-exit
  After-Acts clean spawns = After-fork clean

  pub After-handler : env.uninit_pcb.waiters ≡ [] → (c : Call) → After (handler env c p h)
  After-handler clean c = After-Acts clean (handler-Acts env p c)
