-- ===== src/Menu/Key.antt =====
-- Scan codes of src/conio.h.
use osldr.Base.{ℕ}

abbrev pub one : ℕ
one = 0x02

abbrev pub enter : ℕ
enter = 0x1C

abbrev pub f8 : ℕ
f8 = 0x42

abbrev pub f9 : ℕ
f9 = 0x43

abbrev pub home : ℕ
home = 0x47

abbrev pub up : ℕ
up = 0x48

abbrev pub prev : ℕ
prev = 0x49

abbrev pub finish : ℕ
finish = 0x4F

abbrev pub down : ℕ
down = 0x50

abbrev pub next : ℕ
next = 0x51
