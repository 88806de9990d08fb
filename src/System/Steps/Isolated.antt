-- ===== src/System/Steps/Isolated.antt =====
-- What a user program can do to the memory of the others.
use cs170lab.Env.{Env}
use cs170lab.Kernel.{Kernel}
