-- ===== src/Fat.antt =====
-- The FAT file system of src/fat.c: names and the file allocation table.
pub mod Chain
pub mod File
pub mod Mount
pub mod Oem
mod Tests
use osldr.Base.{
  ℕ, zero, suc, ◌+◌, ◌-◌, ◌*◌, ◌/◌, ◌%◌, ◌≤◌, ◌<◌, ◌^◌, min, max, ◌⊎◌, ◌↔◌, ◌≡◌, ◌≢◌, inl, inr,
  refl, sym, ap, ◌∙◌, Bool, true, false, not, ◌&&◌, ◌||◌, Option, none, some, List, [], ◌∷◌, ◌++◌,
  map, Bool-cases, Option-cases, leb, ltb, ◌==◌, if◌then◌else◌, add32, sub32, mul32, add64, sub64,
  mul64, arith, dec_le, dec_lt, ℕ_discrete, length, get_elem?, get_or, set, take, drop, replicate,
  Bytes, bit_and, bit_or, bit_xor,
}
use mathlib.Core.List.{reverse}

abbrev space_or_dot : ℕ → Bool
space_or_dot c = c == b' ' || c == b'.'

pub skip_blanks : Bytes → Bytes
skip_blanks [] = []
skip_blanks (c ∷ s) = let rest = skip_blanks s in if c == b' ' then rest else c ∷ s

pub skip_dots : Bytes → Bytes
skip_dots [] = []
skip_dots (c ∷ s) = let rest = skip_dots s in if space_or_dot c then rest else c ∷ s

-- `Trim`: no spaces in front, and no spaces and periods behind.
pub trim_name : Bytes → Bytes
trim_name src = reverse (skip_dots (reverse (skip_blanks src)))

-- `CHAR` is signed, so that the bytes from 128 on are below 32 and illegal.
abbrev pub illegal : ℕ → Bool
illegal c =
    leb 128 c
    || ltb c 32
    || c == b'\\'
    || c == b'/'
    || c == b':'
    || c == b'*'
    || c == b'?'
    || c == 34
    || c == b'<'
    || c == b'>'
    || c == b'|'

pub all_legal : Bytes → Bool
all_legal [] = true
all_legal (c ∷ s) = let rest = all_legal s in if illegal c then false else rest

pub validate_filename : Bytes → Bool
validate_filename name = leb (length name) 255 && all_legal name

-- `CheckSum`, over the bytes of the name.
pub check_sum : ℕ → Bytes → ℕ
check_sum sum [] = sum
check_sum sum (c ∷ s) = check_sum ((sum % 2 * 128 + sum / 2 + c) % 256) s

pub data FatType : Type 0 where
  fat12 : FatType
  fat16 : FatType
  fat32 : FatType

abbrev pub word_at : Bytes → ℕ → ℕ
word_at s i = get_or s i 0 + get_or s (i + 1) 0 * 2 ^ 8

abbrev pub dword_at : Bytes → ℕ → ℕ
dword_at s i = word_at s i + word_at s (i + 2) * 2 ^ 16

-- The place of an entry, in bytes from the start of the table.
pub entry_offset : FatType → ℕ → ℕ
entry_offset fat12 cluster = add32 cluster (cluster / 2)
entry_offset fat16 cluster = mul32 cluster 2
entry_offset fat32 cluster = mul32 cluster 4

abbrev pub half : ℕ → ℕ → ℕ
half cluster res = if cluster % 2 == 1 then res / 16 else res % 2 ^ 12

-- An entry of 12 bits, whose second byte may stand in the next sector; 0xFFFF if that cannot be read.
pub entry12 : ℕ → ℕ → ℕ → Bytes → Option Bytes → ℕ
entry12 bytes_per_sector cluster ofs buffer next =
    if ofs == bytes_per_sector - 1
    then half cluster
        (elim next [ none ↦ 0xFFFF | some b ↦ get_or buffer ofs 0 + get_or b 0 0 * 2 ^ 8 ])
    else half cluster (word_at buffer ofs)

pub entry_in : FatType → ℕ → ℕ → ℕ → Bytes → Option Bytes → ℕ
entry_in fat12 bytes_per_sector cluster ofs buffer next =
    entry12 bytes_per_sector cluster ofs buffer next
entry_in fat16 bytes_per_sector cluster ofs buffer next = word_at buffer ofs
entry_in fat32 bytes_per_sector cluster ofs buffer next = dword_at buffer ofs

-- The second half of `GetNextCluster`, behind the allocation of the buffer: `fat` reads a sector of the table by its
-- number from the start of the table on. The whole function is next_cluster of Fat/File.
pub get_next_cluster : (ℕ → Option Bytes) → FatType → ℕ → ℕ → ℕ
get_next_cluster fat kind bytes_per_sector cluster =
    let clus = entry_offset kind cluster in
    let sector = clus / bytes_per_sector in
    elim (fat sector) [
      | none ↦ 0xFFFFFFFF
      | some buffer ↦
          entry_in kind bytes_per_sector cluster (clus % bytes_per_sector) buffer (fat (sector + 1))
    ]
