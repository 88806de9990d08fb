-- ===== src/System/Steps/Begun.antt =====
-- The kernel as initialize_user_process of scheduler.c sets it up.
use cs170lab.Prelude.{
  ℕ, ◌+◌, ◌≤◌, ◌≡◌, refl, sym, ap, ◌∙◌, none, List, [], ◌∷◌, ◌++◌, arith, ==_refl, ==_ne,
}
use mathlib.Core.Option.{none-ne-some}
use cs170lab.Structs.{Ptr, to_ushort}
use cs170lab.System.Steps.Calls.{count_other}
use cs170lab.Env.{Env}
use cs170lab.Kernel.{Kernel}
use cs170lab.Boot.{initialize_user_process}
use cs170lab.Threads.{Zombie}
use cs170lab.Threads.Starting.{
  init_pcb, with_first, begun, first_pcb, initialize_user_process-Follows,
}
use cs170lab.System.{main_of, threads_of}
use cs170lab.System.Places.{count, tasked, total}
use cs170lab.System.Sound.{Placed, Sound}
use cs170lab.System.Chunks.{Zombie-put}
use cs170lab.System.Steps.{Started, Inv, Inv-run}

module _ (env : Env) (h : Kernel) (i j : ℕ) (clear : (a : Ptr) → h.pcbs a ≡ none)
    (limit : h.user_limit ≡ 131072) (queue : h.readyq ≡ []) (tasks : tasked h.forked ≡ []) where
  abbrev first : Ptr
  first = h.next + 1 + 1

  abbrev ready : Kernel
  ready = with_first env (begun env h i) h.next (init_pcb env h i) j

  none-Zombie : (z : Ptr) → Zombie ready.pcbs z → ⊥
  none-Zombie z m =
      let (a, c, at, w) = Zombie-put h.pcbs h.next z (init_pcb env h i) refl (
        Zombie-put _ first z (first_pcb env (begun env h i) h.next j) refl (
          Zombie-put _ h.next z
            (record (init_pcb env h i) { children = env.jrb.insert_int [] _ first }) refl m)) in
      none-ne-some c (sym (clear a) ∙ at)

  Placed-first : Placed ready first
  Placed-first = record {
    c = first_pcb env (begun env h i) h.next j;
    at = rw (==_ne h.next first (λ e. absurd (omega (arith, e))), ==_refl first);
    number = omega arith;
    base = refl;
    limit = limit;
    taken = λ e. absurd (omega (arith, e));
    old = omega arith;
    alive = none-Zombie first;
  }

  counted : (x : Ptr) → total x ready [] + count x (first ∷ []) ≡ count x (first ∷ [])
  counted x = omega (arith, ap (count x) queue, ap (count x) tasks)

  only : (x : Ptr) → 1 ≤ total x ready [] + count x (first ∷ []) → x ≡ first
  only x l = ground (arith, counted x)

  Sound-ready : Sound ready (λ x. total x ready [] + count x (first ∷ []))
  Sound-ready = record {
    once = λ x. ground (arith, counted x);
    placed = λ x l. rw (only x l) Placed-first;
    apart = λ x y c d l r e at is. absurd (e (only x l ∙ sym (only y r)));
    zombies = λ z m. absurd (none-Zombie z m);
    whole = limit;
    root = record {
      d = record (init_pcb env h i) { children = env.jrb.insert_int [] (to_ushort j) first };
      at = rw (==_refl h.next) refl;
      nowhere =
          omega (arith, counted h.next, count_other h.next first (λ e. absurd (omega (arith, e))));
      alive = none-Zombie h.next;
      old = omega arith;
    };
  }

module _ (env : Env) where
  pub initialize_user_process-Inv :
      (argv : List (List ℕ)) (h : Kernel)
      → ((a : Ptr) → h.pcbs a ≡ none)
      → h.user_limit ≡ 131072
      → h.readyq ≡ []
      → tasked h.forked ≡ []
      → Started h.forked
      → Inv
          (main_of (initialize_user_process env argv h))
          (threads_of ((h.next + 1 + 1) ∷ []) (initialize_user_process env argv h) ++ [])
  unfolding initialize_user_process
  initialize_user_process-Inv [] h clear limit queue tasks started = tt
  initialize_user_process-Inv (program ∷ args) h clear limit queue tasks started =
      let (i, j, t) = initialize_user_process-Follows env program args h in
      Inv-run (initialize_user_process env (program ∷ args) h)
        (ready env h i j clear limit queue tasks) ((h.next + 1 + 1) ∷ []) [] t
        (record {
          sound = Sound-ready env h i j clear limit queue tasks;
          started = started;
          threads = tt;
        })
