-- ===== src/Syscall/Errno.antt =====
-- The error numbers of errno.h, negated, as the calls return them.
use cs170lab.Prelude.Int.{ℤ, neg}

abbrev pub efault : ℤ
efault = neg 14

abbrev pub ebadf : ℤ
ebadf = neg 9

abbrev pub efbig : ℤ
efbig = neg 27

abbrev pub einval : ℤ
einval = neg 22

abbrev pub epipe : ℤ
epipe = neg 32

abbrev pub enomem : ℤ
enomem = neg 12

abbrev pub eagain : ℤ
eagain = neg 11

abbrev pub emfile : ℤ
emfile = neg 24
