-- ===== src/Ctype/Tests.antt =====
-- An instance of the theorem about the classes.
use osldr.Base.{◌≡◌, true, false, arith, ◌==◌, get_or}
use osldr.Ctype.{
  ctype_table, isdigit, isupper, islower, isspace, isalnum, isalpha, isblank, iscntrl, ispunct,
  isxdigit, isgraph, isprint,
}
use osldr.Ctype.Classes.{ctype_ascii}

ctype_ascii_example :
    (isdigit b'7' ≡ true)
    × (isupper b'7' ≡ false)
    × (islower b'7' ≡ false)
    × (isspace b'7' ≡ false)
    × (isalnum b'7' ≡ true)
    × (isalpha b'7' ≡ false)
    × (isblank b'7' ≡ false)
    × (iscntrl b'7' ≡ false)
    × (ispunct b'7' ≡ false)
    × (isxdigit b'7' ≡ true)
    × (isgraph b'7' ≡ true)
    × (isprint b'7' ≡ true)
    × ((get_or ctype_table b'7' 0 == 0) ≡ false)
ctype_ascii_example = ctype_ascii b'7' (omega arith)
