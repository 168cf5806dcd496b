-- ===== src/Number.antt =====
-- Numbers and text: `strtoul` of src/stdlib.c and `ulltoa` of src/stdio.c. A C string is the list of
-- its bytes without the final NUL; reading at its end gives the NUL.
pub mod RoundTrip
mod Tests
use osldr.Base.{
  ℕ, zero, suc, ◌+◌, ◌-◌, ◌*◌, ◌/◌, ◌%◌, ◌≤◌, ◌<◌, ◌^◌, min, max, ◌⊎◌, ◌↔◌, ◌≡◌, ◌≢◌, inl, inr,
  refl, sym, ap, ◌∙◌, Bool, true, false, not, ◌&&◌, ◌||◌, Option, none, some, List, [], ◌∷◌, ◌++◌,
  map, Bool-cases, Option-cases, leb, ltb, ◌==◌, if◌then◌else◌, add32, sub32, mul32, add64, sub64,
  mul64, arith, dec_le, dec_lt, ℕ_discrete, length, get_elem?, get_or, set, take, drop, replicate,
  Bytes, bit_and, bit_or, bit_xor,
}
use mathlib.Core.List.{reverse}
use osldr.Io.Errno.{erange}
use osldr.Ctype.{isspace, isalnum, isdigit, tolower}

-- `s[i]`
abbrev pub char_at : Bytes → ℕ → ℕ
char_at s i = get_or s i 0

unfoldable pub skip_spaces : Bytes → Bytes
skip_spaces [] = []
skip_spaces (c ∷ s) = if isspace c then skip_spaces s else c ∷ s

-- The base 0 asks for the base by the prefix; 0 stays if it fails.
pub auto_base : Bytes → ℕ
auto_base s =
    if not (char_at s 0 == b'0')
    then 10
    else if leb b'0' (char_at s 1) && leb (char_at s 1) b'7'
    then 8
    else if tolower (char_at s 1) == b'x'
    then 16
    else 0

-- The value of a letter or digit, as a ULONG.
pub digit_value : ℕ → ℕ
digit_value c = if isdigit c then c - b'0' else sub32 (10 + tolower c) b'a'

-- What `strtoul` returns, what it writes through `endptr` (`none`: nothing), and the new `errno`, if
-- it sets it.
pub record Converted : Type 0 where
  pub value : ℕ
  pub end : Option Bytes
  pub errno : Option ℕ

-- The loop over the digits.
pub accumulate : ℕ → ℕ → Bytes → Converted
accumulate base result [] = record { value = result; end = some []; errno = none }
accumulate base result (c ∷ s) =
    let i = digit_value c in
    let next = add32 (mul32 result base) i in
    let rest = accumulate base next s in
    if not (isalnum c) || leb base i
    then record { value = result; end = some (c ∷ s); errno = none }
    else if ltb next result
    then record { value = 2 ^ 32 - 1; end = none; errno = some erange }
    else rest

abbrev pub skip_plus : Bytes → Bytes
skip_plus [] = []
skip_plus (c ∷ s) = if c == b'+' then s else c ∷ s

pub strtoul : Bytes → ℕ → Converted
strtoul nptr base =
    let s = skip_plus (skip_spaces nptr) in
    let base = if base == 0 then auto_base s else base in
    if ltb base 2 || ltb 36 base
    then record { value = 0; end = some nptr; errno = none }
    else if base == 16 && char_at s 0 == b'0' && (char_at s 1 == b'x' || char_at s 1 == b'X')
    then accumulate base 0 (drop 2 s)
    else accumulate base 0 s

-- The character for a digit in `ulltoa`.
pub digit_char : ℕ → ℕ
digit_char d = let c = d + b'0' in if ltb b'9' c then c + (b'a' - b'9' - 1) else c

-- The digits of `ulltoa`, the last one first, on fuel for the rounds.
pub digits_from : ℕ → ℕ → ℕ → Bytes
digits_from zero base value = []
digits_from (suc fuel) base value =
    let rest = digits_from fuel base (value / base) in
    digit_char (value % base) ∷ (if ltb 0 (value / base) then rest else [])

-- `ulltoa`; a number has fewer digits than its value plus one.
pub ulltoa : ℕ → ℕ → Bytes
ulltoa value base = reverse (digits_from (value + 1) base value)
