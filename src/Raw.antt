-- ===== src/Raw.antt =====
-- The raw device of src/raw.c: a device as one file.
pub mod Read
mod Tests
use osldr.Base.{
  ℕ, zero, suc, ◌+◌, ◌-◌, ◌*◌, ◌/◌, ◌%◌, ◌≤◌, ◌<◌, ◌^◌, min, max, ◌⊎◌, ◌↔◌, ◌≡◌, ◌≢◌, inl, inr,
  refl, sym, ap, ◌∙◌, Bool, true, false, not, ◌&&◌, ◌||◌, Option, none, some, List, [], ◌∷◌, ◌++◌,
  map, Bool-cases, Option-cases, leb, ltb, ◌==◌, if◌then◌else◌, add32, sub32, mul32, add64, sub64,
  mul64, arith, dec_le, dec_lt, ℕ_discrete, length, get_elem?, get_or, set, take, drop, replicate,
  Bytes, bit_and, bit_or, bit_xor,
}
use osldr.Volumes.{VolumeOps, read_part}

-- The values of `From`.
pub data From : Type 0 where
  file_begin : From
  file_current : From
  file_end : From

module _ {S : Type 0} (ops : VolumeOps S) (bytes_per_sector : ℕ) where
  -- The loop of `_ReadFile` from a cursor on: the bytes that it has put into the buffer.
  pub raw_loop : ℕ → ℕ → ℕ → S → Bytes × S
  raw_loop zero cursor n s = ([], s)
  raw_loop (suc fuel) cursor n s =
      let count =
        sub64 (add64 (add64 (cursor % bytes_per_sector) n) bytes_per_sector) 1 / bytes_per_sector in
      let (part, s') = read_part ops bytes_per_sector 1 (cursor / bytes_per_sector) count s in
      let round : Bytes × S = elim part [
        | none ↦ ([], s')
        | some (bytes, k) ↦
            let rest_of_sectors = sub64 (mul64 k bytes_per_sector) (cursor % bytes_per_sector) in
            let len = if ltb n rest_of_sectors then n else rest_of_sectors in
            let (more, s'') = raw_loop fuel (add64 cursor len) (n - len) s' in
            (take len (drop (cursor % bytes_per_sector) bytes) ++ more, s'')
      ] in
      if n == 0 then ([], s) else round

  -- `_ReadFile`: the number that it returns, which is a ULONG, the bytes, and the new cursor.
  pub raw_read_file : ℕ → ℕ → S → (ℕ × Bytes × ℕ) × S
  raw_read_file cursor n s =
      let (bytes, s') = raw_loop n cursor n s in
      ((length bytes % 2 ^ 32, bytes, add64 cursor (length bytes)), s')

-- `_GetFileSize`
abbrev pub raw_file_size : ℕ → ℕ → ℕ
raw_file_size n_sectors bytes_per_sector = mul64 n_sectors bytes_per_sector

-- `_SetFilePointer`, whose offset is a LONGLONG, as a number of 64 bits in two's complement: the comparison is
-- one of ULONGLONG. The new cursor, if it is set.
pub raw_set_file_pointer : ℕ → ℕ → ℕ → ℕ → From → Option ℕ
raw_set_file_pointer n_sectors bytes_per_sector cursor offset from =
    let size = raw_file_size n_sectors bytes_per_sector in
    let new : ℕ = elim from [
      | file_begin ↦ offset
      | file_current ↦ add64 offset cursor
      | file_end ↦ sub64 size offset
    ] in
    if leb size new then none else some new

-- `RAWFILE`: a `FILE` of 8 bytes with the cursor behind it.
abbrev sizeof_raw_file : ℕ
sizeof_raw_file = 16

-- `_OpenFile`, whatever the path: the block, and the cursor in it.
abbrev pub raw_open_file : {S : Type 0} → VolumeOps S → S → Option (ℕ × ℕ) × S
raw_open_file ops s =
    let (block, s') = ops.malloc sizeof_raw_file s in
    (elim block [ none ↦ none | some p ↦ some (p, 0) ], s')
