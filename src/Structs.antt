-- ===== src/Structs.antt =====
-- The structures of scheduler.h and console_buf.h, and the constants of simulator.h.
-- A pointer is a number, with 0 for NULL; a string is the list of its bytes.
use cs170lab.Prelude.{ℕ, ◌*◌, ◌%◌, ◌^◌, List, Bool}
use cs170lab.Prelude.Int.{ℤ}

abbrev pub Ptr : Type 0
Ptr = ℕ

abbrev pub null : Ptr
null = 0

-- `int my_registers[NumTotalRegs]`, by the register's number.
abbrev pub Regs : Type 0
Regs = ℕ → ℤ

-- The bytes behind `main_memory`, by their offset from it.
abbrev pub Mem : Type 0
Mem = ℤ → ℕ

-- An entry of a JRB tree: an integer key and a value.
abbrev pub Entry : Type 0
Entry = ℕ × ℕ

abbrev pub Tree : Type 0
Tree = List Entry

-- `struct Fd`. `open` is a word of the language.
pub record Fd : Type 0 where
  pub console : Bool
  pub is_open : Bool
  pub is_read : Bool
  pub reference_count : ℕ
  pub my_pipe : Ptr

-- `struct Pipe`. A semaphore is the pointer that `make_kt_sem` returned.
pub record Pipe : Type 0 where
  pub buffer : ℕ → ℕ
  pub read_count : ℤ
  pub write_count : ℤ
  pub read : Ptr
  pub write : Ptr
  pub nelement : Ptr
  pub space_available : Ptr
  pub write_head : ℕ
  pub read_head : ℕ
  pub writer_in_use : ℤ

-- `struct PCB`.
pub record Pcb : Type 0 where
  pub my_registers : Regs
  pub sbrk_ptr : ℤ
  pub limit : ℕ
  pub base : ℕ
  pub pid : ℕ
  pub exit_value : ℤ
  pub memory_num : ℕ
  pub parent : Ptr
  pub waiters_sem : Ptr
  pub waiters : List Ptr
  pub children : Tree
  pub fd : ℕ → Ptr

-- `struct console_buf`.
pub record ConsoleBuf : Type 0 where
  pub buff : ℕ → ℕ
  pub head : ℕ
  pub tail : ℕ
  pub size : ℕ

abbrev pub page_size : ℕ
page_size = 512

abbrev pub memory_size : ℕ
memory_size = 2048 * page_size

abbrev pub stack_reg : ℕ
stack_reg = 29

abbrev pub ret_addr_reg : ℕ
ret_addr_reg = 31

abbrev pub pc_reg : ℕ
pc_reg = 34

abbrev pub next_pc_reg : ℕ
next_pc_reg = 35

abbrev pub num_total_regs : ℕ
num_total_regs = 40

-- JOS_TCGETP: JOS_IOR('t', 85, struct JOStermios), whose structure has 36 bytes.
abbrev pub jos_tcgetp : ℕ
jos_tcgetp = 0x4024_7455

-- The size of a pipe's buffer.
abbrev pub pipe_size : ℕ
pipe_size = 8192

-- `pid` is an unsigned short.
abbrev pub to_ushort : ℕ → ℕ
to_ushort n = n % 2 ^ 16
