-- ===== src/System/Acts.antt =====
-- What the function of each system call does for its process: it goes on with it, ends it, or makes another one.
use cs170lab.Structs.{Ptr}
use cs170lab.Env.{Env}
use cs170lab.Kernel.{Call, Cmd}
use cs170lab.Syscall.Exit.{do_exit}
use cs170lab.Syscall.Fork.{do_fork}
use cs170lab.Threads.Calls.{
  Good, getpid-Good, do_sbrk-Good, fstat-Good, ioctl-Good, get_ppid-Good, getpagesize-Good,
  getdtablesize-Good, do_dup-Good, do_dup2-Good, do_close-Good, do_pipe-Good,
}
use cs170lab.Threads.Transfers.{do_write-Good, do_read-Good}
use cs170lab.Threads.Loading.{do_execve-Good}
use cs170lab.Threads.Family.{do_wait-Good}
use cs170lab.Threads.Spawning.{finish_fork-Good}
use cs170lab.System.{handler}

pub data Acts (env : Env) (p : Ptr) : Cmd → Type 0 where
  goes_on : {c : Cmd} → Good env p c → Acts env p c
  ends : Acts env p (do_exit env p)
  spawns : Acts env p (do_fork env p)

pub handler-Acts : (env : Env) (p : Ptr) (c : Call) → Acts env p (handler env c p)
unfolding handler
handler-Acts env p Call.exit = ends
handler-Acts env p Call.write = goes_on (do_write-Good env p)
handler-Acts env p Call.read = goes_on (do_read-Good env p)
handler-Acts env p Call.ioctl = goes_on (ioctl-Good env p)
handler-Acts env p Call.fstat = goes_on (fstat-Good env p)
handler-Acts env p Call.getpagesize = goes_on (getpagesize-Good env p)
handler-Acts env p Call.sbrk = goes_on (do_sbrk-Good env p)
handler-Acts env p Call.execve = goes_on (do_execve-Good env p)
handler-Acts env p Call.getpid = goes_on (getpid-Good env p)
handler-Acts env p Call.fork = spawns
handler-Acts env p Call.getdtablesize = goes_on (getdtablesize-Good env p)
handler-Acts env p Call.close = goes_on (do_close-Good env p)
handler-Acts env p Call.wait = goes_on (do_wait-Good env p)
handler-Acts env p Call.getppid = goes_on (get_ppid-Good env p)
handler-Acts env p Call.pipe = goes_on (do_pipe-Good env p)
handler-Acts env p Call.dup = goes_on (do_dup-Good env p)
handler-Acts env p Call.dup2 = goes_on (do_dup2-Good env p)
handler-Acts env p Call.finish_fork = goes_on (finish_fork-Good env p)
