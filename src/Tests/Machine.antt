-- ===== src/Tests/Machine.antt =====
-- A kernel with two processes and a pipe between them.
use cs170lab.Prelude.{
  ℕ, ◌+◌, ◌*◌, true, false, none, some, [], ◌∷◌, ltb, ◌==◌, if◌then◌else◌, update,
}
use cs170lab.Prelude.Int.{ℤ, pos}
use cs170lab.Structs.{Ptr, Regs, Fd, Pipe, Pcb, ConsoleBuf}
use cs170lab.Env.Reference.{zeroed_pcb}
use cs170lab.Kernel.{Kernel}

abbrev pub args : ℤ → ℤ → ℤ → Regs
args a b c r = if r == 5 then a else if r == 6 then b else if r == 7 then c else pos 0

-- The structures at the addresses 100 to 163: the two ends of the pipe at 50, the console, and
-- descriptors that are not open.
abbrev pub reading_fd : Fd
reading_fd = record {
  console = false;
  is_open = true;
  is_read = true;
  reference_count = 0;
  my_pipe = 50;
}

abbrev pub writing_fd : Fd
writing_fd = record {
  console = false;
  is_open = true;
  is_read = false;
  reference_count = 0;
  my_pipe = 50;
}

abbrev pub console_fd : Fd
console_fd = record {
  console = true;
  is_open = true;
  is_read = true;
  reference_count = 0;
  my_pipe = 0;
}

abbrev pub closed_fd : Fd
closed_fd = record {
  console = false;
  is_open = false;
  is_read = false;
  reference_count = 0;
  my_pipe = 0;
}

abbrev pub fd_at : Ptr → Fd
fd_at a =
    if a == 100
    then reading_fd
    else if a == 101
    then writing_fd
    else if a == 102
    then console_fd
    else closed_fd

abbrev pub pipe_with : ℕ → Pipe
pipe_with head = record {
  buffer = λ i. 0;
  read_count = pos 1;
  write_count = pos 1;
  read = 60;
  write = 61;
  nelement = 62;
  space_available = 63;
  write_head = head;
  read_head = head;
  writer_in_use = pos 0;
}

abbrev pub process : ℕ → ℕ → Regs → Pcb
process chunk pid regs = record zeroed_pcb {
  my_registers = regs;
  sbrk_ptr = pos 5000;
  limit = 131072;
  base = 131072 * chunk;
  pid = pid;
  memory_num = chunk;
  parent = 1;
  waiters_sem = 70 + pid;
  fd = λ j. 100 + j;
}

abbrev pub init_process : Pcb
init_process = record zeroed_pcb { waiters_sem = 70; children = (1, 2) ∷ (2, 3) ∷ [] }

abbrev pub sems : Ptr → ℕ
sems s = if s == 60 then 1 else if s == 61 then 1 else if s == 63 then 8192 else 0

abbrev pub empty_ring : ConsoleBuf
empty_ring = record { buff = λ i. 0; head = 0; tail = 0; size = 256 }

-- Process 2 runs and process 3 is ready; the bytes of the memory are 7.
abbrev pub machine : ℕ → Pcb → Pcb → Kernel
machine head c d = record {
  pcbs = update (update (update (λ a. none) 1 (some init_process)) 2 (some c)) 3 (some d);
  fds = λ a. some (fd_at a);
  pipes = update (λ a. none) 50 (some (pipe_with head));
  next = 1000;
  sems = sems;
  main_memory = λ a. 7;
  user_base = 0;
  user_limit = 131072;
  memory_chunk = λ i. if ltb i 2 then 1 else 0;
  curr = 2;
  readyq = 3 ∷ [];
  is_noop = false;
  curpid = 2;
  rbtree = (0, 0) ∷ (1, 0) ∷ (2, 0) ∷ [];
  init = 1;
  console = empty_ring;
  nelem = 80;
  nslots = 81;
  console_wait = 82;
  writeok = 83;
  writers = 84;
  readers = 85;
  forked = [];
  written = [];
  reads = 0;
}
