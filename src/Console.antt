-- ===== src/Console.antt =====
-- console_buf.c: the ring of the bytes typed, which `cons_to_buff` fills and do_read empties.
pub mod Ring
use cs170lab.Prelude.{ℕ, zero, suc, ◌+◌, ◌%◌, ◌^◌, update}
use cs170lab.Env.{Env}
use cs170lab.Kernel.{M, Cmd, spins, ◌>>=◌, ◌>>◌, get, modify, wait_for, in_bounds}
use cs170lab.Sem.{make_kt_sem, v_kt_sem}

module _ (env : Env) where
  unfoldable pub init_buff : M (Unit {0})
  init_buff k = do
    modify λ h. record h {
      console = record { buff = env.uninit_buffer; head = 0; tail = 0; size = 256 };
    }
    k tt

  unfoldable pub initialize_cons_sema : M (Unit {0})
  initialize_cons_sema k = do
    nelem ← make_kt_sem env 0
    nslots ← make_kt_sem env 256
    console_wait ← make_kt_sem env 0
    modify λ h. record h { nelem = nelem; nslots = nslots; console_wait = console_wait }
    k tt

  -- What follows `P_kt_sem(nslots)` in a round: the byte is read and put at the tail.
  unfoldable pub put_char : M (Unit {0})
  put_char k = do
    h ← get
    let c = env.sim.console_read h.reads % 2 ^ 8
    modify λ h. record h { reads = h.reads + 1 }
    v_kt_sem env h.nelem
    let at = h.console.tail % h.console.size
    in_bounds 256 at
    modify λ h. record h {
      console = record h.console {
        buff = update h.console.buff at c;
        tail = (h.console.tail + 1) % h.console.size;
      };
    }
    k tt

  -- The first rounds of the endless loop; each begins with two waits.
  unfoldable pub cons_to_buff : ℕ → Cmd
  unfolding put_char
  cons_to_buff zero = λ h. spins
  cons_to_buff (suc rounds) = do
    h ← get
    wait_for h.console_wait
    h ← get
    wait_for h.nslots
    put_char
    cons_to_buff rounds
