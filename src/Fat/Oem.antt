-- ===== src/Fat/Oem.antt =====
-- `UnicodeToOem` of src/fat.c: a name as the 11 characters of a directory entry.
pub mod Short
mod Tests
use osldr.Base.{
  ℕ, zero, suc, ◌+◌, ◌-◌, ◌*◌, ◌/◌, ◌%◌, ◌≤◌, ◌<◌, ◌^◌, min, max, ◌⊎◌, ◌↔◌, ◌≡◌, ◌≢◌, inl, inr,
  refl, sym, ap, ◌∙◌, Bool, true, false, not, ◌&&◌, ◌||◌, Option, none, some, List, [], ◌∷◌, ◌++◌,
  map, Bool-cases, Option-cases, leb, ltb, ◌==◌, if◌then◌else◌, add32, sub32, mul32, add64, sub64,
  mul64, arith, dec_le, dec_lt, ℕ_discrete, length, get_elem?, get_or, set, take, drop, replicate,
  Bytes, bit_and, bit_or, bit_xor,
}
use osldr.Ctype.{isalnum, toupper}

-- What is legal besides letters and digits; a CHAR from 128 on is negative, and passes.
abbrev pub legal_sign : ℕ → Bool
legal_sign c =
    c == b'$'
    || c == b'%'
    || c == 39
    || leb 128 c
    || c == b'-'
    || c == b'_'
    || c == b'@'
    || c == b'~'
    || c == b'`'
    || c == b'!'
    || c == b'('
    || c == b')'
    || c == b'{'
    || c == b'}'
    || c == b'^'
    || c == b'#'
    || c == b'&'

-- The test for illegal characters, behind `toupper`.
pub legal_char : ℕ → Bool
legal_char c = isalnum c || legal_sign c

-- `strchr( Src, '.' )`, as what is left from there on; nothing if there is no period.
pub from_period : Bytes → Bytes
from_period [] = []
from_period (c ∷ s) = let rest = from_period s in if c == b'.' then c ∷ s else rest

-- One round at the place `i` of the result: what is put there, if anything, the next place, and what is left of
-- the name; none if the name is invalid. The first period has `dot` characters from it on.
pub oem_step : ℕ → ℕ → Bytes → Option (Bytes × ℕ × Bytes)
oem_step dot i [] = some (b' ' ∷ [], i + 1, [])
oem_step dot i (c ∷ s) =
    if c == b'.'
    then if length (c ∷ s) == dot
      then if i == 8 then some ([], i, s) else some (b' ' ∷ [], i + 1, c ∷ s)
      else none
    else if legal_char (toupper c)
    then some (toupper c ∷ [], i + 1, s)
    else none

pub oem_loop : ℕ → ℕ → ℕ → Bytes → Option Bytes
oem_loop zero dot i s = some []
oem_loop (suc fuel) dot i s = if leb 11 i then some [] else elim (oem_step dot i s) [
  | none ↦ none
  | some (put, i', s') ↦ elim (oem_loop fuel dot i' s') [
    | none ↦ none
    | some rest ↦ some (put ++ rest)
  ]
]

-- `UnicodeToOem`: 11 characters, or none.
pub unicode_to_oem : Bytes → Bytes
unicode_to_oem src =
    let dot = length (from_period src) in
    if dot == 0 || leb (length src - dot) 8
    then elim (oem_loop 13 dot 0 src) [ none ↦ [] | some oem ↦ oem ]
    else []
