-- ===== src/System/Life.antt =====
-- The life of processes, as the scheduler of an operating system promises it: a process runs, is ready, has asked
-- for a service, or waits. What a state of the kernel shows of it is its `view`.
use cs170lab.Prelude.{◌≡◌, List, [], ◌∷◌, ◌++◌}
use cs170lab.Structs.{Ptr}
use cs170lab.Trap.{Main, joining, runs, idles}
use cs170lab.System.{Thread}
use cs170lab.System.Places.{count, tasked, owners}

-- At most one process runs. The processes that are ready, and those that have asked, stand in the order of their turns.
pub record View : Type 0 where
  pub running : List Ptr
  pub ready : List Ptr
  pub asking : List Ptr
  pub waiting : List Ptr

-- One step. A thread that waits has one process, or none: its `o`.
pub data Life : View → View → Type 0 where
  -- The process that runs asks for a service, has used up its time, or is lost by an exception of the machine.
  asks :
      (p : Ptr) (r a w : List Ptr)
      → Life
          (record { running = p ∷ []; ready = r; asking = a; waiting = w })
          (record { running = []; ready = r; asking = a ++ p ∷ []; waiting = w })
  yields :
      (p : Ptr) (r a w : List Ptr)
      → Life
          (record { running = p ∷ []; ready = r; asking = a; waiting = w })
          (record { running = []; ready = r ++ p ∷ []; asking = a; waiting = w })
  lost :
      (p : Ptr) (r a w : List Ptr)
      → Life
          (record { running = p ∷ []; ready = r; asking = a; waiting = w })
          (record { running = []; ready = r; asking = a; waiting = w })
  -- The first that has asked is served, has to wait, ends, or gets a child, which is no process yet.
  served :
      (p : Ptr) (r a w : List Ptr)
      → Life
          (record { running = []; ready = r; asking = p ∷ a; waiting = w })
          (record { running = []; ready = r ++ p ∷ []; asking = a; waiting = w })
  blocked :
      (p : Ptr) (r a w : List Ptr)
      → Life
          (record { running = []; ready = r; asking = p ∷ a; waiting = w })
          (record { running = []; ready = r; asking = a; waiting = p ∷ w })
  ended :
      (p : Ptr) (r a w : List Ptr)
      → Life
          (record { running = []; ready = r; asking = p ∷ a; waiting = w })
          (record { running = []; ready = r; asking = a; waiting = w })
  forked :
      (p c : Ptr) (r a w : List Ptr)
      → count c r ≡ 0
      → count c (p ∷ a) ≡ 0
      → count c w ≡ 0
      → Life
          (record { running = []; ready = r; asking = p ∷ a; waiting = w })
          (record { running = []; ready = r; asking = p ∷ (a ++ c ∷ []); waiting = w })
  -- One that waits is served, or has to wait again.
  woken :
      (o r a xs ys : List Ptr)
      → Life
          (record { running = []; ready = r; asking = a; waiting = xs ++ (o ++ ys) })
          (record { running = []; ready = r ++ o; asking = a; waiting = xs ++ ys })
  blocked_again :
      (o r a xs ys : List Ptr)
      → Life
          (record { running = []; ready = r; asking = a; waiting = xs ++ (o ++ ys) })
          (record { running = []; ready = r; asking = a; waiting = o ++ (xs ++ ys) })
  -- With nobody asking, the first that is ready runs.
  runs_first :
      (p : Ptr) (r w : List Ptr)
      → Life
          (record { running = []; ready = p ∷ r; asking = []; waiting = w })
          (record { running = p ∷ []; ready = r; asking = []; waiting = w })

pub data Lives (v : View) : View → Type 0 where
  same : Lives v v
  then_step : {u t : View} → Lives v u → Life u t → Lives v t

pub Lives-trans : {v u t : View} → Lives v u → Lives u t → Lives v t
Lives-trans l same = l
Lives-trans l (then_step m s) = then_step (Lives-trans l m) s

pub once : {v u : View} → Life v u → Lives v u
once s = then_step same s

-- What a state shows.
abbrev pub view : Main → List Thread → View
view (joining h) ts = record {
  running = [];
  ready = h.readyq;
  asking = tasked h.forked;
  waiting = owners ts;
}
view (runs p regs h) ts = record {
  running = p ∷ [];
  ready = h.readyq;
  asking = tasked h.forked;
  waiting = owners ts;
}
view (idles h) ts = record {
  running = [];
  ready = h.readyq;
  asking = tasked h.forked;
  waiting = owners ts;
}
view m ts = record { running = []; ready = []; asking = []; waiting = [] }

-- From the view `v`, by steps in the life of processes, to a state, unless the simulation has ended there.
abbrev pub Shows : View → Main → List Thread → Type 0
Shows v (joining h) ts = Lives v (view (joining h) ts)
Shows v (runs p regs h) ts = Lives v (view (runs p regs h) ts)
Shows v (idles h) ts = Lives v (view (idles h) ts)
Shows v m ts = Unit {0}
