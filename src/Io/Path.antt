-- ===== src/Io/Path.antt =====
-- `ParseDevice` of src/io.c: the device that a path names.
pub mod Parse
use osldr.Base.{
  ℕ, zero, suc, ◌+◌, ◌-◌, ◌*◌, ◌/◌, ◌%◌, ◌≤◌, ◌<◌, ◌^◌, min, max, ◌⊎◌, ◌↔◌, ◌≡◌, ◌≢◌, inl, inr,
  refl, sym, ap, ◌∙◌, Bool, true, false, not, ◌&&◌, ◌||◌, Option, none, some, List, [], ◌∷◌, ◌++◌,
  map, Bool-cases, Option-cases, leb, ltb, ◌==◌, if◌then◌else◌, add32, sub32, mul32, add64, sub64,
  mul64, arith, dec_le, dec_lt, ℕ_discrete, length, get_elem?, get_or, set, take, drop, replicate,
  Bytes, bit_and, bit_or, bit_xor,
}
use osldr.Io.Errno.{ezero, enoent, enodev, enopart}
use osldr.Number.{Converted, char_at, strtoul}

-- The rest of the path with the device, or NULL; and `errno` as it is left.
abbrev pub Parsed : Type 0
Parsed = Option (Bytes × ℕ) × ℕ

abbrev errno_after : Converted → ℕ → ℕ
errno_after c errno = elim c.errno [ none ↦ errno | some e ↦ e ]

-- What a refusal sets `errno` to: only if it was clear.
abbrev blame : ℕ → ℕ → ℕ
blame errno why = if errno == ezero then why else errno

-- `endptr == start` after a conversion of `start`; without a write through `endptr` the code goes on
-- with an old value, for which the model takes the failure.
abbrev no_number : Converted → Bytes → Bool
no_number c start = elim c.end [ none ↦ true | some rest ↦ length rest == length start ]

abbrev rest_of : Converted → Bytes
rest_of c = elim c.end [ none ↦ [] | some rest ↦ rest ]

-- The check of what follows the device, and the Multiboot representation. The three parts of the
-- `|` have no bit in common, as the device and the partition are bytes.
pub finish : ℕ → ℕ → Bytes → ℕ → Parsed
finish device partition endptr errno =
    if not (char_at endptr 0 == b'/') && not (char_at endptr 0 == 0)
    then (none, enoent)
    else (some (endptr, mul32 device (2 ^ 24) + mul32 partition (2 ^ 16) + 0xFFFF), errno)

-- A hard drive: the optional partition number.
pub hard_drive : ℕ → Bytes → ℕ → Parsed
hard_drive device endptr errno =
    let device = bit_or device 0x80 in
    let path = drop 1 endptr in
    let c = strtoul path 10 in
    let errno' = errno_after c errno in
    if not (char_at endptr 0 == b',')
    then finish device 0xFF endptr errno
    else if no_number c path || ltb 254 c.value
    then (none, blame errno' enopart)
    else finish device c.value (rest_of c) errno'

-- `ParseDevice`, with the boot device and `errno`.
pub parse_device : ℕ → Bytes → ℕ → Parsed
parse_device boot_device path errno =
    let c = strtoul (drop 2 path) 10 in
    let errno' = errno_after c errno in
    if char_at path 0 == b'/'
    then (some (path, boot_device), errno)
    else if not (char_at path 0 == b'f') && not (char_at path 0 == b'h')
        || not (char_at path 1 == b'd')
    then (none, enodev)
    else if no_number c (drop 2 path) || ltb 0x7F c.value
    then (none, blame errno' enodev)
    else if char_at path 0 == b'h'
    then hard_drive c.value (rest_of c) errno'
    else finish c.value 0xFF (rest_of c) errno'
