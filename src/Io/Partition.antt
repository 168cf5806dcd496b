-- ===== src/Io/Partition.antt =====
-- The choice of a partition in `OpenDevice` of src/io.c.
pub mod Table
pub mod Logical
mod Tests
use osldr.Base.{
  ℕ, zero, suc, ◌+◌, ◌-◌, ◌*◌, ◌/◌, ◌%◌, ◌≤◌, ◌<◌, ◌^◌, min, max, ◌⊎◌, ◌↔◌, ◌≡◌, ◌≢◌, inl, inr,
  refl, sym, ap, ◌∙◌, Bool, true, false, not, ◌&&◌, ◌||◌, Option, none, some, List, [], ◌∷◌, ◌++◌,
  map, Bool-cases, Option-cases, leb, ltb, ◌==◌, if◌then◌else◌, add32, sub32, mul32, add64, sub64,
  mul64, arith, dec_le, dec_lt, ℕ_discrete, length, get_elem?, get_or, set, take, drop, replicate,
  Bytes, bit_and, bit_or, bit_xor,
}
use osldr.Io.Errno.{enopart, eio}

-- `PARTITION`, of which only these fields are read.
pub record Partition : Type 0 where
  pub kind : ℕ
  pub start : ℕ
  pub size : ℕ

abbrev byte_at : Bytes → ℕ → ℕ
byte_at s i = get_or s i 0

abbrev pub long_at : Bytes → ℕ → ℕ
long_at s i =
    byte_at s i
    + byte_at s (i + 1) * 2 ^ 8
    + byte_at s (i + 2) * 2 ^ 16
    + byte_at s (i + 3) * 2 ^ 24

-- The entry `i` of the table at 0x1BE of a boot sector.
pub entry : Bytes → ℕ → Partition
entry mbr i = record {
  kind = byte_at mbr (0x1BE + 16 * i + 4);
  start = long_at mbr (0x1BE + 16 * i + 8);
  size = long_at mbr (0x1BE + 16 * i + 12);
}

abbrev pub is_extended : Partition → Bool
is_extended p = p.kind == 0x05 || p.kind == 0x0F

abbrev pub is_unused : Partition → Bool
is_unused p = p.kind == 0x00

-- The loop over the four entries; `none` for a `break`.
pub scan_table : ℕ → ℕ → List Partition → Option Partition → Option (Option Partition)
scan_table part1 i [] part = some part
scan_table part1 i (p ∷ ps) part =
    let skip = scan_table part1 (i + 1) ps part in
    let chain = scan_table part1 (i + 1) ps (some p) in
    if is_unused p
    then skip
    else if is_extended p
    then if part1 == i
      then none
      else if leb 4 part1
      then (elim part [ some _ ↦ none | none ↦ chain ])
      else skip
    else if part1 == i
    then chain
    else skip

-- What becomes of the choice: a partition, an error, or the empty loop `while (part != NULL);`.
pub data Choice : Type 0 where
  placed : Partition → Choice
  refused : ℕ → Choice
  hangs : Choice

-- The loop over the extended partitions, with the sector of the disk that ReadDrive puts into the
-- buffer (`none` when it returns no sector), from `left` numbers before the one that is wanted. Then the
-- code runs `while (part != NULL);`, which nothing ends if `part` is set.
pub traverse : (ℕ → Option Bytes) → ℕ → Partition → Choice
traverse disk zero part = elim (disk part.start) [
  | none ↦ refused eio
  | some mbr ↦ if is_extended (entry mbr 0) then refused enopart else hangs
]
traverse disk (suc left) part = elim (disk part.start) [
  | none ↦ refused eio
  | some mbr ↦
      let next = traverse disk left (entry mbr 1) in
      if is_extended (entry mbr 0)
      then refused enopart
      else if not (is_unused (entry mbr 1)) && is_extended (entry mbr 1)
      then next
      else refused enopart
]

abbrev pub table : Bytes → List Partition
table mbr = entry mbr 0 ∷ entry mbr 1 ∷ entry mbr 2 ∷ entry mbr 3 ∷ []

-- What follows the scan of the table in the MBR.
pub after_scan : (ℕ → Option Bytes) → ℕ → Option (Option Partition) → Choice
after_scan disk part1 none = refused enopart
after_scan disk part1 (some none) = refused enopart
after_scan disk part1 (some (some part)) =
    let chain = traverse disk (part1 - 4) part in if leb 4 part1 then chain else placed part

-- What follows the reading of the MBR.
pub after_mbr : (ℕ → Option Bytes) → ℕ → Option Bytes → Choice
after_mbr disk part1 none = refused eio
after_mbr disk part1 (some mbr) = after_scan disk part1 (scan_table part1 0 (table mbr) none)

pub choose_partition : (ℕ → Option Bytes) → ℕ → Choice
choose_partition disk part1 = after_mbr disk part1 (disk 0)
