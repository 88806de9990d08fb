-- ===== src/System/Steps/Schedule.antt =====
-- scheduler of scheduler.c and the console's thread, against the invariant.
use cs170lab.Prelude.{
  ℕ, zero, suc, ◌+◌, ◌≡◌, ◌∙◌, refl, sym, ap, Bool, true, false, none, some, List, [], ◌∷◌, ◌++◌,
  arith, if◌then◌else◌,
}
use cs170lab.Structs.{Ptr, Pcb, null}
use cs170lab.Env.{Env}
use cs170lab.Kernel.{Kernel, Cmd}
use cs170lab.Console.{put_char, cons_to_buff}
use cs170lab.Trap.{idles, halts, crashes, dispatch}
use cs170lab.Trap.Turns.{dispatch-runs}
use cs170lab.Threads.{Follows, Nobody}
use cs170lab.Threads.Frames.{Keeps-refl, Still, Still-refl, pauses, Follows-if}
use cs170lab.System.{Thread, main_of, threads_of}
use cs170lab.System.Places.{count, total}
use cs170lab.System.Sound.{Sound-same}
use cs170lab.System.Steps.{Whole, Inv, Inv-run}
use cs170lab.System.Steps.Turns.{Whole-To}
use cs170lab.System.Steps.Calls.{count_self}

module _ (env : Env) (ts : List Thread) where
  -- With no process ready, the scheduler ends the simulation or idles.
  pub dispatch-empty :
      (h : Kernel)
      → h.readyq ≡ []
      → dispatch env h ≡ elim (h.pcbs h.init) [
        | none ↦ crashes
        | some i ↦
            if env.jrb.is_empty i.children
            then halts (record h { curr = null })
            else idles (record h { curr = null; is_noop = true })
      ]
  unfolding dispatch
  dispatch-empty h e = ground (arith, env.dll.is_empty-nil)

  idle-Inv :
      (b : Bool) (h : Kernel)
      → Whole h ts (λ x. 0)
      → Inv
          (if b
            then halts (record h { curr = null })
            else idles (record h { curr = null; is_noop = true }))
          ts
  idle-Inv true h w = tt
  idle-Inv false h w = (refl, Whole-To h _ ts _ (Still-refl Nobody h) w)

  -- The first process of the queue runs.
  Whole-first :
      (h : Kernel) (q : Ptr) (xs : List Ptr) (d : Pcb)
      → h.readyq ≡ q ∷ xs
      → h.pcbs q ≡ some d
      → d.limit ≡ 131072
      → Whole h ts (λ x. 0)
      → Whole
          (record h {
            curr = q;
            readyq = xs;
            is_noop = false;
            user_base = d.base;
            user_limit = d.limit;
          })
          ts
          (λ x. count x (q ∷ []))
  Whole-first h q xs d e at limit w =
      let g : Kernel = record h {
        curr = q;
        readyq = xs;
        is_noop = false;
        user_base = d.base;
        user_limit = d.limit;
      } in
      record {
        sound =
            Sound-same h g (λ x. total x h ts + 0) (λ x. total x g ts + count x (q ∷ [])) w.sound
              (record {
                keeps = Keeps-refl Nobody h.pcbs;
                grows = omega arith;
                chunks = refl;
                limits = limit ∙ sym w.sound.whole;
                roots = refl;
                queued = refl;
                forks = refl;
              })
              (λ x. omega (arith, ap (count x) e));
        started = w.started;
        threads = w.threads;
      }

  -- The scheduler has the structure of the process that it runs.
  pub dispatch-first :
      (h : Kernel) (q : Ptr) (xs : List Ptr)
      → h.readyq ≡ q ∷ xs
      → Whole h ts (λ x. 0)
      → (d : Pcb) × (h.pcbs q ≡ some d) × (d.limit ≡ 131072)
  dispatch-first h q xs e w =
      let a = w.sound.placed q (omega (arith, ap (count q) e, count_self q)) in (a.c, a.at, a.limit)

  pub dispatch-Inv : (h : Kernel) → Whole h ts (λ x. 0) → Inv (dispatch env h) ts
  dispatch-Inv h w = split h.readyq refl
    where
      split : (l : List Ptr) → h.readyq ≡ l → Inv (dispatch env h) ts
      split [] e =
          rw (dispatch-empty h e)
            (elim (h.pcbs h.init)
              as (λ o.
                Inv
                  (elim o [
                    | none ↦ crashes
                    | some i ↦
                        if env.jrb.is_empty i.children
                        then halts (record h { curr = null })
                        else idles (record h { curr = null; is_noop = true })
                  ])
                  ts) [ none ↦ tt | some i ↦ idle-Inv (env.jrb.is_empty i.children) h w ])
      split (q ∷ xs) e =
          let (d, at, limit) = dispatch-first h q xs e w in
          rw (dispatch-runs env h q xs d e at)
            (refl, refl, (d, at, refl, refl), Whole-first h q xs d e at limit w)

  -- A round of the console's thread.
  put_char-Follows :
      (k : Unit {0} → Cmd) (h0 h : Kernel)
      → Still Nobody h0 h
      → ((g : Kernel) → Still Nobody h0 g → Follows Nobody (λ q. q ++ []) h0 (k tt g))
      → Follows Nobody (λ q. q ++ []) h0 (put_char env k h)
  unfolding put_char
  put_char-Follows k h0 h s r = search (r, Follows-if, tt)

  pub cons_to_buff-Follows :
      (n : ℕ) (h0 h : Kernel)
      → Still Nobody h0 h
      → Follows Nobody (λ q. q ++ []) h0 (cons_to_buff env n h)
  unfolding cons_to_buff
  cons_to_buff-Follows zero h0 h s = tt
  cons_to_buff-Follows (suc n) h0 h s = pauses s (λ g. pauses (Still-refl Nobody g) (λ g'.
      put_char-Follows (λ u. cons_to_buff env n) g' g' (Still-refl Nobody g')
        (cons_to_buff-Follows n g')))

  pub cons_to_buff-Inv :
      (n : ℕ) (h : Kernel)
      → Whole h ts (λ x. 0)
      → Inv (main_of (cons_to_buff env n h)) (threads_of [] (cons_to_buff env n h) ++ ts)
  cons_to_buff-Inv n h w =
      Inv-run (cons_to_buff env n h) h [] ts (cons_to_buff-Follows n h h (Still-refl Nobody h)) w
