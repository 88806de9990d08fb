-- ===== src/Roundtrip.antt =====
-- What one process writes into a pipe, another one reads from it.
use cs170lab.Prelude.{
  ℕ, ◌+◌, ◌-◌, ◌<◌, ◌≤◌, ◌≡◌, sym, ap, ◌≢◌, true, false, some, arith, ◌==◌, ==_refl, ==_ne, update,
}
use cs170lab.Prelude.Int.{pos, ◌==ℤ◌, pos_add}
use cs170lab.Structs.{Ptr, Fd, Pipe, Pcb, memory_size, pipe_size}
use cs170lab.Env.{Env}
use cs170lab.Kernel.{Kernel, exited}
use cs170lab.Sem.Drive.{drive}
use cs170lab.Syscall.{valid_address, returned}
use cs170lab.Syscall.Return.{finished}
use cs170lab.Syscall.Write.{do_write}
use cs170lab.Syscall.Write.Pipe.{moved}
use cs170lab.Syscall.Write.Transfer.{Writes, received, do_write-received}
use cs170lab.Syscall.Read.{do_read}
use cs170lab.Syscall.Read.Pipe.{read_from, CanRead}
use cs170lab.Syscall.Read.Transfer.{Reads, do_read-delivered}

-- The reader: another process, with `len` bytes wanted at `b` from a descriptor `g` of the same pipe.
pub record Reader (h : Kernel) (p r : Ptr) (d : Pcb) (m : ℕ) (g : Fd) (pipe : Ptr) (b len : ℕ)
    : Type 0 where
  pub other : p ≢ r
  pub at : h.pcbs r ≡ some d
  pub valid : valid_address d ≡ true
  pub arg : d.my_registers 5 ≡ pos m
  pub small : m < 64
  pub is : h.fds (d.fd m) ≡ some g
  pub opened : g.is_open ≡ true
  pub reading : g.is_read ≡ true
  pub piped : g.console ≡ false
  pub same : g.my_pipe ≡ pipe
  pub to : d.my_registers 6 ≡ pos b
  pub size : d.my_registers 7 ≡ pos len
  pub fits : b + d.base + len ≤ memory_size

-- The pipe is empty, has a writer and is not being read; its semaphores are distinct.
pub record IsFresh (h : Kernel) (q : Pipe) : Type 0 where
  pub level : q.read_head ≡ q.write_head
  pub none_counted : q.writer_in_use ≡ pos 0
  pub writer : (q.write_count ==ℤ pos 0) ≡ false
  pub idle : 1 ≤ h.sems q.read
  pub read_space : q.read ≢ q.space_available
  pub read_nelement : q.read ≢ q.nelement

module _ (env : Env) (h : Kernel) (p : Ptr) (c : Pcb) (n : ℕ) (f : Fd) (q : Pipe) (a len : ℕ)
    (w : Writes h p c n f q a len) (room : q.write_head + len ≤ pipe_size) (r : Ptr) (d : Pcb)
    (m : ℕ) (g : Fd) (b : ℕ) (reader : Reader h p r d m g f.my_pipe b len) (fresh : IsFresh h q)
    (plain : (i : ℕ) → i < len → (h.main_memory (pos (a + c.base + i)) == 255) ≡ false) where
  -- The kernel between the two calls.
  abbrev between : Kernel
  between = finished p (pos len) c (record h {
    pipes = update h.pipes f.my_pipe (some (received len (a + c.base) h.main_memory q));
    sems = moved len q.space_available q.nelement h.sems;
  })

  abbrev full : Pipe
  full = received len (a + c.base) h.main_memory q

  Reads-between : Reads between r d m g full b len
  Reads-between = record {
    at = rw (==_ne p r reader.other, reader.at);
    valid = reader.valid;
    arg = reader.arg;
    small = reader.small;
    is = reader.is;
    opened = reader.opened;
    reading = reader.reading;
    piped = reader.piped;
    to = reader.to;
    size = reader.size;
    pipe = rw (reader.same, ==_refl f.my_pipe);
    idle = ground (arith, fresh.idle, fresh.read_space, fresh.read_nelement);
    read_space = fresh.read_space;
    read_nelement = fresh.read_nelement;
  }

  -- What the buffer holds behind the read head.
  buffered :
      (i : ℕ) → i < len → full.buffer (q.read_head + i) ≡ h.main_memory (pos (a + c.base + i))
  buffered i small = ground (arith, fresh.level, ap (λ (z : ℕ). h.main_memory (pos z)) index)
    where
      index : a + c.base + (q.read_head + i - q.write_head) ≡ a + c.base + i
      index = omega (arith, fresh.level)

  CanRead-between :
      CanRead len 0
        (b + d.base)
        q.read_head
        g.my_pipe
        full
        (record between { sems = update between.sems q.read (between.sems q.read - 1) })
  CanRead-between = record {
    at = rw (reader.same, ==_refl f.my_pipe);
    writer = fresh.writer;
    counted = λ i small. rw (fresh.none_counted, pos_add 0 len) (ground arith);
    plain = λ i small. rw (buffered i small) (plain i small);
    apart = λ e. w.can.apart (sym e);
    there = ground (arith, fresh.read_nelement);
    target = omega (arith, reader.fits);
    source = omega (arith, room, fresh.level);
    head = omega (arith, w.can.head, fresh.level);
  }

  abbrev after : Kernel
  after = finished r (pos len) d (read_from len (b + d.base) q.read_head g.my_pipe full between)

  -- A write of `len` bytes other than 255 into an empty pipe that counts no byte and has a writer, where they fit
  -- behind the write head, and then a read of `len` bytes by another process, while no third one reads or writes,
  -- both end and return `len`. Then the reader's memory
  -- at `b` holds the bytes that the writer's memory had at `a`, in order.
  pub write-read :
      (k1 : Kernel) × (k2 : Kernel) × (drive env (do_write env p h) ≡ exited k1)
      × (drive env (do_read env r k1) ≡ exited k2)
      × (k1.pcbs p ≡ some (returned (pos len) c))
      × (k2.pcbs r ≡ some (returned (pos len) d))
      × ((i : ℕ)
          → i < len
          → k2.main_memory (pos (b + d.base + i)) ≡ h.main_memory (pos (a + c.base + i)))
  write-read = (
    between,
    after,
    do_write-received env h p c n f q a len w room,
    do_read-delivered env between r d m g full b len Reads-between CanRead-between,
    rw (==_refl p),
    rw (==_refl r),
    arrived,
  )
    where
      arrived :
          (i : ℕ)
          → i < len
          → after.main_memory (pos (b + d.base + i)) ≡ h.main_memory (pos (a + c.base + i))
      arrived i small = ground (arith, buffered i small, ap (λ (z : ℕ). full.buffer z) (index i))
        where
          index : (i : ℕ) → q.read_head + (b + d.base + i - (b + d.base)) ≡ q.read_head + i
          index i = omega arith
