-- ===== src/Fat/File.antt =====
-- Files of src/fat.c: the reading along the chain of clusters, and the file pointer.
pub mod Entry
pub mod Run
pub mod Piece
pub mod Ran
pub mod Round
pub mod Read
pub mod Seek
mod Tests
use osldr.Base.{
  ℕ, zero, suc, ◌+◌, ◌-◌, ◌*◌, ◌/◌, ◌%◌, ◌≤◌, ◌<◌, ◌^◌, min, max, ◌⊎◌, ◌↔◌, ◌≡◌, ◌≢◌, inl, inr,
  refl, sym, ap, ◌∙◌, Bool, true, false, not, ◌&&◌, ◌||◌, Option, none, some, List, [], ◌∷◌, ◌++◌,
  map, Bool-cases, Option-cases, leb, ltb, ◌==◌, if◌then◌else◌, add32, sub32, mul32, add64, sub64,
  mul64, arith, dec_le, dec_lt, ℕ_discrete, length, get_elem?, get_or, set, take, drop, replicate,
  Bytes, bit_and, bit_or, bit_xor,
}
use osldr.Volumes.{VolumeOps, read_part}
use osldr.Raw.{From, file_begin, file_current, file_end}
use osldr.Fat.{FatType, fat12, fat16, fat32, entry_offset, entry_in}

-- The fields of `FAT_INFO` and of the BPB that the files use.
pub record FatInfo : Type 0 where
  pub kind : FatType
  pub bytes_per_sector : ℕ
  pub sectors_per_cluster : ℕ
  pub bytes_per_cluster : ℕ
  pub fat_start : ℕ
  pub root_dir_start : ℕ
  pub data_start : ℕ
  pub end_cluster : ℕ

-- `FILE_INFO`: the size and the low half of the first cluster in the directory entry, the cursor, and the cluster that it is in.
pub record FatFile : Type 0 where
  pub size : ℕ
  pub first_low : ℕ
  pub cursor : ℕ
  pub cluster : ℕ

-- The place that a file is set to, as a number of 64 bits.
abbrev pub new_cursor : FatFile → ℕ → From → ℕ
new_cursor file offset file_begin = offset
new_cursor file offset file_current = add64 offset file.cursor
new_cursor file offset file_end = sub64 file.size offset

-- An entry of 12 bits at the last byte of a sector goes on in the next one.
abbrev pub spans : FatType → ℕ → ℕ → Bool
spans fat12 bytes_per_sector ofs = ofs == bytes_per_sector - 1
spans fat16 bytes_per_sector ofs = false
spans fat32 bytes_per_sector ofs = false

-- What one sector was asked for, if it has been read.
abbrev pub only_one : List Bytes → Option Bytes
only_one [] = none
only_one (b ∷ []) = some b
only_one (b ∷ c ∷ bs) = none

-- The first sector of a cluster.
abbrev pub cluster_sector : FatInfo → ℕ → ℕ
cluster_sector fi cluster = add32 fi.data_start (mul32 (sub32 cluster 2) fi.sectors_per_cluster)

module _ {S : Type 0} (ops : VolumeOps S) (fi : FatInfo) where
  -- One sector, or none if it cannot be read.
  pub read_one : ℕ → S → Option Bytes × S
  read_one sector s = let (got, s') = ops.read_sector sector 1 s in (only_one got, s')

  -- `GetNextCluster`, with the buffer and the sectors of the table that it reads.
  pub next_cluster : ℕ → S → ℕ × S
  next_cluster cluster s =
      let place = entry_offset fi.kind cluster in
      let ofs = place % fi.bytes_per_sector in
      let sector = add32 fi.fat_start (place / fi.bytes_per_sector) in
      let (block, s) = ops.malloc fi.bytes_per_sector s in
      elim block [
        | none ↦ (0xFFFFFFFF, s)
        | some p ↦
            let (first, s') = read_one sector s in
            let (second, s'') = read_one (add32 sector 1) s' in
            elim first [
              | none ↦ (0xFFFFFFFF, ops.free p s')
              | some buffer ↦
                  if spans fi.kind fi.bytes_per_sector ofs
                  then (
                    entry_in fi.kind fi.bytes_per_sector cluster ofs buffer second,
                    ops.free p s'',
                  )
                  else (entry_in fi.kind fi.bytes_per_sector cluster ofs buffer none, ops.free p s')
            ]
      ]

  -- How long the run of consecutive clusters is, up to `len`, and the cluster that follows it.
  pub run_length : ℕ → ℕ → ℕ → ℕ → S → (ℕ × ℕ) × S
  run_length zero cluster len count s = ((count, 0xFFFFFFFF), s)
  run_length (suc fuel) cluster len count s =
      let (next, s') = next_cluster (add64 cluster count % 2 ^ 32) s in
      let more = run_length fuel cluster len (count + 1) s' in
      if (leb 2 next && ltb next fi.end_cluster)
        && ((next == add64 cluster (count + 1)) && ltb next (add64 cluster len))
      then more
      else ((count + 1, next), s')

  -- The inner loop of `_ReadFile`: `count` consecutive clusters are read in pieces. Whether it came to its end,
  -- the bytes, the cursor, the cluster, and how many bytes are still wanted.
  pub read_run : ℕ → ℕ → ℕ → ℕ → ℕ → S → (Bool × Bytes × ℕ × ℕ × ℕ) × S
  read_run zero count cursor cluster n s = ((true, [], cursor, cluster, n), s)
  read_run (suc fuel) count cursor cluster n s =
      let off = cursor % fi.bytes_per_cluster in
      let (part, s') =
        read_part ops fi.bytes_per_cluster fi.sectors_per_cluster (cluster_sector fi cluster) count
          s in
      let round : (Bool × Bytes × ℕ × ℕ × ℕ) × S = elim part [
        | none ↦ ((false, [], cursor, cluster, n), s')
        | some (bytes, k) ↦
            let rest_of = sub64 (mul64 k fi.bytes_per_cluster) off in
            let len = if ltb n rest_of then n else rest_of in
            let moved =
              sub64 (add64 cursor len / fi.bytes_per_cluster) (cursor / fi.bytes_per_cluster) in
            let ((ok, more, cursor', cluster', n'), s'') =
              read_run fuel (count - k) (add64 cursor len) (add64 cluster moved % 2 ^ 32) (n - len)
                s' in
            ((ok, take len (drop off bytes) ++ more, cursor', cluster', n'), s'')
      ] in
      if count == 0 then ((true, [], cursor, cluster, n), s) else round

  -- The outer loop, while the cluster is valid and less has been read than is still wanted.
  pub read_chain : ℕ → ℕ → ℕ → ℕ → ℕ → S → (Bytes × ℕ × ℕ) × S
  read_chain zero read cursor cluster n s = (([], cursor, cluster), s)
  read_chain (suc fuel) read cursor cluster n s =
      let bpc = fi.bytes_per_cluster in
      let len = sub64 (add64 (add64 (cursor % bpc) n) bpc) 1 / bpc in
      let ((count, next), s1) = run_length len cluster len 0 s in
      let ((ok, bytes, cursor', cluster', n'), s2) = read_run count count cursor cluster n s1 in
      let ((more, cursor'', cluster''), s3) =
        read_chain fuel (read + length bytes) cursor'
          (if cursor' % bpc == 0 then next else cluster') n' s2 in
      if (leb 2 cluster && ltb cluster fi.end_cluster) && ltb read n
      then if ok
        then ((bytes ++ more, cursor'', cluster''), s3)
        else ((bytes, cursor', cluster'), s2)
      else (([], cursor, cluster), s)

  -- `_ReadFile`: the bytes that it has read, whose number it returns, and the file behind it.
  pub read_file : FatFile → ℕ → S → (Bytes × FatFile) × S
  read_file file n s =
      let n = if ltb file.size (add64 file.cursor n) then sub64 file.size file.cursor else n in
      let ((bytes, cursor, cluster), s') = read_chain n 0 file.cursor file.cluster n s in
      ((bytes, record file { cursor = cursor; cluster = cluster }), s')

  -- The loop of `_SetFilePointer`: from the cluster at `cursor` on to the one that holds `target`.
  pub seek_chain : ℕ → ℕ → ℕ → ℕ → S → ℕ × S
  seek_chain zero cursor cluster target s = (cluster, s)
  seek_chain (suc fuel) cursor cluster target s =
      let (next, s') = next_cluster cluster s in
      let on = seek_chain fuel (cursor + fi.bytes_per_cluster) next target s' in
      if leb (cursor + fi.bytes_per_cluster) target then on else (cluster, s)

  -- `_SetFilePointer`, whose offset is a LONGLONG, as a number of 64 bits in two's complement. From a cursor
  -- behind the new one it starts again, at the low half of the first cluster.
  pub set_file_pointer : FatFile → ℕ → From → S → (Bool × FatFile) × S
  set_file_pointer file offset from s =
      let new = new_cursor file offset from in
      let aligned = bit_and file.cursor (sub32 0 fi.bytes_per_cluster) in
      let back = ltb new aligned in
      let (cluster, s') =
        seek_chain new (if back then 0 else aligned) (if back then file.first_low else file.cluster)
          new s in
      if leb (2 ^ 63) new || leb file.size new
      then ((false, file), s)
      else ((true, record file { cursor = new; cluster = cluster }), s')
