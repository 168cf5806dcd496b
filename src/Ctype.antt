-- ===== src/Ctype.antt =====
-- The character classes of src/ctype.c and src/ctype.h. A character is its byte, from 0 to 255.
pub mod Classes
mod Tests
use osldr.Base.{
  ℕ, zero, suc, ◌+◌, ◌-◌, ◌*◌, ◌/◌, ◌%◌, ◌≤◌, ◌<◌, ◌^◌, min, max, ◌⊎◌, ◌↔◌, ◌≡◌, ◌≢◌, inl, inr,
  refl, sym, ap, ◌∙◌, Bool, true, false, not, ◌&&◌, ◌||◌, Option, none, some, List, [], ◌∷◌, ◌++◌,
  map, Bool-cases, Option-cases, leb, ltb, ◌==◌, if◌then◌else◌, add32, sub32, mul32, add64, sub64,
  mul64, arith, dec_le, dec_lt, ℕ_discrete, length, get_elem?, get_or, set, take, drop, replicate,
  Bytes, bit_and, bit_or, bit_xor,
}

-- Class bits.
abbrev upp : ℕ
upp = 0x01

abbrev low : ℕ
low = 0x02

abbrev dig : ℕ
dig = 0x04

abbrev sp : ℕ
sp = 0x08

abbrev pun : ℕ
pun = 0x10

abbrev ctl : ℕ
ctl = 0x20

abbrev blk : ℕ
blk = 0x40

abbrev hex : ℕ
hex = 0x80

abbrev expand : List (ℕ × ℕ) → List ℕ
expand [] = []
expand ((n, class) ∷ runs) = replicate n class ++ expand runs

-- The table, run by run.
pub ctype_table : List ℕ
ctype_table = expand (
    (9, ctl)
    ∷ (1, sp + blk)
    ∷ (4, ctl + sp)
    ∷ (18, ctl)
    ∷ (1, sp + blk)
    ∷ (15, pun)
    ∷ (10, hex + dig)
    ∷ (7, pun)
    ∷ (6, hex + upp)
    ∷ (20, upp)
    ∷ (6, pun)
    ∷ (6, hex + low)
    ∷ (20, low)
    ∷ (4, pun)
    ∷ (1, ctl)
    ∷ (128, 0)
    ∷ [])

has_class : ℕ → ℕ → Bool
has_class mask c = not (bit_and (get_or ctype_table c 0) mask == 0)

unfoldable pub isalnum : ℕ → Bool
unfolding has_class ctype_table
isalnum = has_class (dig + low + upp)

unfoldable pub isdigit : ℕ → Bool
unfolding has_class ctype_table
isdigit = has_class dig

unfoldable pub isspace : ℕ → Bool
unfolding has_class ctype_table
isspace = has_class sp

unfoldable pub isupper : ℕ → Bool
unfolding has_class ctype_table
isupper = has_class upp

unfoldable pub islower : ℕ → Bool
unfolding has_class ctype_table
islower = has_class low

unfoldable pub isalpha : ℕ → Bool
unfolding has_class ctype_table
isalpha = has_class (low + upp)

unfoldable pub isblank : ℕ → Bool
unfolding has_class ctype_table
isblank = has_class blk

unfoldable pub isgraph : ℕ → Bool
unfolding has_class ctype_table
isgraph = has_class (dig + low + upp + hex + pun)

unfoldable pub isprint : ℕ → Bool
unfolding has_class ctype_table
isprint = has_class (dig + low + upp + hex + pun + blk)

unfoldable pub ispunct : ℕ → Bool
unfolding has_class ctype_table
ispunct = has_class pun

unfoldable pub isxdigit : ℕ → Bool
unfolding has_class ctype_table
isxdigit = has_class hex

unfoldable pub iscntrl : ℕ → Bool
unfolding has_class ctype_table
iscntrl = has_class ctl

unfoldable pub tolower : ℕ → ℕ
unfolding isupper
tolower c = if isupper c then c - b'A' + b'a' else c

unfoldable pub toupper : ℕ → ℕ
unfolding islower
toupper c = if islower c then c - b'a' + b'A' else c
