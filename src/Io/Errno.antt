-- ===== src/Io/Errno.antt =====
-- The error numbers of src/errno.h.
use osldr.Base.{ℕ}

abbrev pub ezero : ℕ
ezero = 0

abbrev pub enomem : ℕ
enomem = 1

abbrev pub enoent : ℕ
enoent = 2

abbrev pub erange : ℕ
erange = 3

abbrev pub efault : ℕ
efault = 4

abbrev pub enodev : ℕ
enodev = 5

abbrev pub enopart : ℕ
enopart = 6

abbrev pub enofsys : ℕ
enofsys = 7

abbrev pub eio : ℕ
eio = 8

abbrev pub ecorrupt : ℕ
ecorrupt = 9

abbrev pub eftype : ℕ
eftype = 10
