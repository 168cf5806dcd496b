-- ===== src/Fat/Mount.antt =====
-- `FatMount` of src/fat.c: the boot sector, and what is calculated from it.
pub mod Sound
mod Tests
use osldr.Base.{
  ℕ, zero, suc, ◌+◌, ◌-◌, ◌*◌, ◌/◌, ◌%◌, ◌≤◌, ◌<◌, ◌^◌, min, max, ◌⊎◌, ◌↔◌, ◌≡◌, ◌≢◌, inl, inr,
  refl, sym, ap, ◌∙◌, Bool, true, false, not, ◌&&◌, ◌||◌, Option, none, some, List, [], ◌∷◌, ◌++◌,
  map, Bool-cases, Option-cases, leb, ltb, ◌==◌, if◌then◌else◌, add32, sub32, mul32, add64, sub64,
  mul64, arith, dec_le, dec_lt, ℕ_discrete, length, get_elem?, get_or, set, take, drop, replicate,
  Bytes, bit_and, bit_or, bit_xor,
}
use osldr.Volumes.{VolumeOps}
use osldr.Io.Errno.{enomem}
use osldr.Fat.{FatType, fat12, fat16, fat32, word_at, dword_at}
use osldr.Fat.File.{FatInfo, only_one}

-- `BPB`, with the fields for FAT32 that `FatMount` and `_OpenFile` use.
pub record Bpb : Type 0 where
  pub byts_per_sec : ℕ
  pub sec_per_clus : ℕ
  pub rsvd_sec_cnt : ℕ
  pub num_fats : ℕ
  pub root_ent_cnt : ℕ
  pub tot_sec16 : ℕ
  pub media : ℕ
  pub fat_sz16 : ℕ
  pub tot_sec32 : ℕ
  pub fat_sz32 : ℕ
  pub fs_ver : ℕ
  pub root_clus : ℕ

-- The fields by their places in the packed structure.
abbrev pub bpb_of : Bytes → Bpb
bpb_of b = record {
  byts_per_sec = word_at b 11;
  sec_per_clus = get_or b 13 0;
  rsvd_sec_cnt = word_at b 14;
  num_fats = get_or b 16 0;
  root_ent_cnt = word_at b 17;
  tot_sec16 = word_at b 19;
  media = get_or b 21 0;
  fat_sz16 = word_at b 22;
  tot_sec32 = dword_at b 32;
  fat_sz32 = dword_at b 36;
  fs_ver = word_at b 42;
  root_clus = dword_at b 44;
}

abbrev pub legal_size : ℕ → Bool
legal_size n = n == 512 || n == 1024 || n == 2048 || n == 4096

abbrev pub legal_count : ℕ → Bool
legal_count n = n == 1 || n == 2 || n == 4 || n == 8 || n == 16 || n == 32 || n == 64 || n == 128

-- "Check legal values"
pub legal_values : ℕ → Bpb → Bool
legal_values n_bytes_per_sector b =
    legal_size b.byts_per_sec
    && legal_count b.sec_per_clus
    && leb (mul32 b.sec_per_clus b.byts_per_sec) 32768
    && not (b.rsvd_sec_cnt == 0)
    && (b.byts_per_sec == n_bytes_per_sector)

-- Whether it is FAT32 by its reserved sectors and root entries, or neither kind.
pub sort_of : Bpb → Option Bool
sort_of b =
    if b.root_ent_cnt == 0 then some true else (if ltb 1 b.rsvd_sec_cnt then none else some false)

-- "Validate values with FAT type", and the further ones for FAT32.
pub legal_for : Bool → Bpb → Bool
legal_for is_fat32 b =
    not (b.tot_sec16 == 0 && b.tot_sec32 == 0)
    && not (not (b.tot_sec16 == 0) && is_fat32)
    && not (ltb b.media 0xF8 && not (b.media == 0xF0))
    && (if is_fat32 then b.fat_sz16 == 0 else not (b.fat_sz16 == 0))
    && not (is_fat32 && (b.fat_sz32 == 0 || not (b.fs_ver == 0)))

abbrev pub fat_sectors : Bpb → ℕ
fat_sectors b = if b.fat_sz16 == 0 then b.fat_sz32 else b.fat_sz16

abbrev pub root_dir_sectors : Bpb → ℕ
root_dir_sectors b = (b.root_ent_cnt * 32 + (b.byts_per_sec - 1)) / b.byts_per_sec

-- The number of clusters, by which the kind of table is chosen.
pub n_clusters : Bpb → ℕ
n_clusters b =
    let tot_sec = if b.tot_sec16 == 0 then b.tot_sec32 else b.tot_sec16 in
    let data_sec =
      sub32 tot_sec
        (add32 (add32 b.rsvd_sec_cnt (mul32 b.num_fats (fat_sectors b))) (root_dir_sectors b)) in
    data_sec / b.sec_per_clus

abbrev pub info_of : Bpb → FatType → ℕ → FatInfo
info_of b kind end =
    let root_dir_start = add32 b.rsvd_sec_cnt (mul32 b.num_fats (fat_sectors b)) in
    record {
      kind = kind;
      bytes_per_sector = b.byts_per_sec;
      sectors_per_cluster = b.sec_per_clus;
      bytes_per_cluster = mul32 b.byts_per_sec b.sec_per_clus;
      fat_start = b.rsvd_sec_cnt;
      root_dir_start = root_dir_start;
      data_start = add32 root_dir_start (root_dir_sectors b);
      end_cluster = end;
    }

-- The kind that the number of clusters gives; none if a FAT32 has another version than 0.
pub fat_info : Bpb → Option FatInfo
fat_info b =
    let n = n_clusters b in
    if ltb n 4085
    then some (info_of b fat12 0xFF7)
    else if ltb n 65525
    then some (info_of b fat16 0xFFF7)
    else if b.fs_ver == 0
    then some (info_of b fat32 0xFFFFFF7)
    else none

-- The checks before the memory for the `FAT_INFO` is allocated.
pub is_fat : ℕ → Bpb → Bool
is_fat n_bytes_per_sector b =
    if legal_values n_bytes_per_sector b
    then elim (sort_of b) [ none ↦ false | some is_fat32 ↦ legal_for is_fat32 b ]
    else false

abbrev pub sizeof_fat_info : ℕ
sizeof_fat_info = 32

abbrev pub max_read_try : ℕ
max_read_try = 8

module _ {S : Type 0} (ops : VolumeOps S) (reset_drive : S → S) where
  -- The attempts to read the boot sector.
  pub try_boot_sector : ℕ → S → Option Bytes × S
  try_boot_sector zero s = (none, s)
  try_boot_sector (suc tries) s =
      let (got, s') = ops.read_sector 0 1 s in
      let again = try_boot_sector tries (reset_drive s') in
      elim (only_one got) [ none ↦ again | some b ↦ (some b, s') ]

  -- `FatMount`, with the number of bytes in a sector that the drive's parameters say, if there are any. Where
  -- the version is refused last, neither block is given back.
  pub fat_mount : Option ℕ → S → Option FatInfo × S
  fat_mount none s = (none, s)
  fat_mount (some n_bytes_per_sector) s =
      let (buffer, s1) = ops.malloc n_bytes_per_sector s in
      let (boot, s2) = try_boot_sector max_read_try s1 in
      let (info, s3) = ops.malloc sizeof_fat_info s2 in
      elim buffer [
        | none ↦ (none, s1)
        | some p ↦ elim boot [
          | none ↦ (none, ops.free p s2)
          | some b ↦
              if is_fat n_bytes_per_sector (bpb_of b)
              then elim info [
                | none ↦ (none, ops.free p (ops.set_errno enomem s3))
                | some q ↦ (fat_info (bpb_of b), s3)
              ]
              else (none, ops.free p s2)
        ]
      ]
