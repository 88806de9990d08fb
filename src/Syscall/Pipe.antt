-- ===== src/Syscall/Pipe.antt =====
-- do_pipe of syscall.c.
pub mod Create
pub mod Success
use cs170lab.Prelude.{ℕ, true, false, Option, none, some}
use cs170lab.Prelude.Int.{pos, ◌+ℤ◌}
use cs170lab.Structs.{Ptr, pipe_size}
use cs170lab.Env.{Env}
use cs170lab.Kernel.{M, Cmd, ◌>>=◌, ◌>>◌, modify, get_pcb, set_fd, put_pipe}
use cs170lab.Sem.{malloc, make_kt_sem}
use cs170lab.Memory.{store_word}
use cs170lab.Syscall.{syscall_return}
use cs170lab.Syscall.Errno.{emfile}
use cs170lab.Syscall.Dup.{find_fd}

module _ (env : Env) where
  -- "initialization and set ref count"
  unfoldable pub init_pipe : Ptr → M (Unit {0})
  init_pipe new_pipe k = do
    read ← make_kt_sem env 1
    write ← make_kt_sem env 1
    nelement ← make_kt_sem env 0
    space_available ← make_kt_sem env pipe_size
    modify (
        put_pipe new_pipe (record {
          buffer = env.uninit_buffer;
          read_count = pos 1;
          write_count = pos 1;
          read = read;
          write = write;
          nelement = nelement;
          space_available = space_available;
          write_head = 0;
          read_head = 0;
          writer_in_use = pos 0;
        }))
    k tt

  -- The end of do_pipe, with both numbers found.
  unfoldable pub connect : Ptr → Ptr → ℕ → ℕ → Cmd
  unfolding ◌+ℤ◌
  connect p new_pipe read_fd write_fd = do
    c ← get_pcb p
    set_fd (c.fd write_fd) λ f. record f { is_open = true }
    init_pipe new_pipe
    set_fd (c.fd read_fd) λ f. record f { my_pipe = new_pipe; is_read = true }
    set_fd (c.fd write_fd) λ f. record f { my_pipe = new_pipe; is_read = false }
    let pipe = c.my_registers 5 +ℤ pos c.base
    store_word pipe read_fd
    store_word (pipe +ℤ pos 4) write_fd
    syscall_return env p (pos 0)

  -- Behind the second search, and behind the first.
  unfoldable pub pipe_second : Ptr → Ptr → ℕ → Option ℕ → Cmd
  pipe_second p new_pipe read_fd none = syscall_return env p emfile
  pipe_second p new_pipe read_fd (some write_fd) = connect p new_pipe read_fd write_fd

  unfoldable pub pipe_first : Ptr → Ptr → Option ℕ → Cmd
  pipe_first p new_pipe none = syscall_return env p emfile
  pipe_first p new_pipe (some read_fd) = do
    c ← get_pcb p
    set_fd (c.fd read_fd) λ f. record f { is_open = true }
    found ← find_fd 64 0 c.fd
    pipe_second p new_pipe read_fd found

  unfoldable pub do_pipe : Ptr → Cmd
  do_pipe p = do
    c ← get_pcb p
    new_pipe ← malloc
    found ← find_fd 64 0 c.fd
    pipe_first p new_pipe found
