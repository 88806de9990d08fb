-- ===== src/System/Places.antt =====
-- Where a process can be: in the ready queue, in the task of a thread that has yet to start, or in the hands of a
-- thread that waits.
use cs170lab.Prelude.{ℕ, ◌+◌, ◌≡◌, refl, List, [], ◌∷◌, ◌++◌, arith, ◌==◌, if◌then◌else◌}
use cs170lab.Structs.{Ptr}
use cs170lab.Kernel.{Kernel, Task}
use cs170lab.System.{Thread}

-- How often `x` is in a list.
abbrev pub count : Ptr → List Ptr → ℕ
count x [] = 0
count x (y ∷ l) = (if x == y then 1 else 0) + count x l

pub count-append : (x : Ptr) (l m : List Ptr) → count x (l ++ m) ≡ count x l + count x m
count-append x [] m = omega arith
count-append x (y ∷ l) m = omega (arith, count-append x l m)

-- The processes for which a thread is to start.
abbrev pub tasked : List Task → List Ptr
tasked [] = []
tasked (Task.user c p ∷ l) = p ∷ tasked l
tasked (Task.initialize_user_process a ∷ l) = tasked l
tasked (Task.cons_to_buff ∷ l) = tasked l

pub tasked-append : (l m : List Task) → tasked (l ++ m) ≡ tasked l ++ tasked m
tasked-append [] m = refl
tasked-append (Task.user c p ∷ l) m = rw (tasked-append l m)
tasked-append (Task.initialize_user_process a ∷ l) m = tasked-append l m
tasked-append (Task.cons_to_buff ∷ l) m = tasked-append l m

-- The processes of the threads that wait.
abbrev pub owners : List Thread → List Ptr
owners [] = []
owners (t ∷ ts) = t.owner ++ owners ts

-- The number of places where a process is, but for the user program that runs.
abbrev pub total : Ptr → Kernel → List Thread → ℕ
total x h ts = count x h.readyq + count x (tasked h.forked) + count x (owners ts)

pub owners-count :
    (x : Ptr) (xs : List Thread) (t : Thread) (ys : List Thread)
    → count x (owners (xs ++ t ∷ ys)) ≡ count x t.owner + count x (owners (xs ++ ys))
owners-count x [] t ys = count-append x t.owner (owners ys)
owners-count x (u ∷ xs) t ys = omega (
  arith,
  count-append x u.owner (owners (xs ++ t ∷ ys)),
  count-append x u.owner (owners (xs ++ ys)),
  owners-count x xs t ys,
)
