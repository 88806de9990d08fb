-- ===== src/Sem/Drive.antt =====
-- A thread that runs with no other in between: each `P_kt_sem` goes on while the semaphore lets it.
use cs170lab.Prelude.{none, some}
use cs170lab.Env.{Env}
use cs170lab.Kernel.{Run, exited, waits, stopped, fault, spins}

module _ (env : Env) where
  unfoldable pub drive : Run → Run
  drive (exited h) = exited h
  drive (waits s h k) = elim (env.kt.p h.sems s) [
    | none ↦ waits s h k
    | some f ↦ drive (k (record h { sems = f }))
  ]
  drive (stopped h) = stopped h
  drive fault = fault
  drive spins = spins
