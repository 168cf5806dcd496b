-- ===== src/Fat/File/Tests.antt =====
-- Reading of a file of three clusters that do not follow each other.
use osldr.Base.{
  ℕ, zero, suc, ◌+◌, ◌-◌, ◌*◌, ◌≤◌, ◌<◌, ◌⊎◌, ◌≡◌, inl, refl, true, false, none, some, [], ◌∷◌, leb,
  ◌==◌, if◌then◌else◌, arith, length, Bytes,
}
use osldr.Allocator.{Allocator}
use osldr.Sectors.{slice}
use osldr.Volumes.{VolumeOps, IsFaithful, read_part, allocate_part}
use osldr.Volumes.Stream.{Got}
use osldr.Io.Sector.{DriveOps, Volume, State}
use osldr.Io.Sector.Device.{device_ops, device_ops-IsFaithful, device_ops-Reports, HasErrno}
use osldr.Io.Cache.Coherent.{IsCoherent}
use osldr.Fat.{fat16, entry_offset, entry_in, get_next_cluster}
use osldr.Fat.File.{
  FatInfo, FatFile, next_cluster, read_one, run_length, read_run, read_chain, read_file,
  set_file_pointer,
}
use osldr.Fat.File.Run.{chain, file_byte, IsSound, AtCursor, InStep}
use osldr.Fat.File.Seek.{IsReadable, walk, start_of, set_file_pointer-AtCursor}
use osldr.Raw.{file_begin}
use osldr.Fat.File.Read.{read_file-Got}

-- Sectors of two bytes: the entries of the clusters 2, 4 and 3 in the sectors 3, 5 and 4, and data from 10 on.
abbrev low_byte : ℕ → ℕ
low_byte i = if i == 3 then 4 else (if i == 5 then 3 else (if i == 4 then 0xFF else i))

abbrev high_byte : ℕ → ℕ
high_byte i = if i == 4 then 0xFF else (if leb 10 i then i + 100 else 0)

abbrev volume : ℕ → Bytes
volume i = low_byte i ∷ high_byte i ∷ []

abbrev disk : ℕ → Bytes
disk n = volume (n - 63)

abbrev drive : DriveOps Unit
drive = record { read = λ sector n w. (slice disk sector n, w); reset = λ w. w }

abbrev heap : Allocator ℕ
heap = record { malloc = λ n h. (some h, h + n); free = λ p h. h }

abbrev device : Volume
device = record { start_sector = 63; n_sectors = 37 }

abbrev idle : State Unit ℕ
idle = record { world = tt; heap = 1; cache = record { time = 0; items = [] }; errno = none }

abbrev info : FatInfo
info = record {
  kind = fat16;
  bytes_per_sector = 2;
  sectors_per_cluster = 1;
  bytes_per_cluster = 2;
  fat_start = 1;
  root_dir_start = 8;
  data_start = 10;
  end_cluster = 0xFFF7;
}

abbrev on_volume : ℕ → Bytes
on_volume t = disk (63 + t)

info-IsSound : IsSound on_volume info
unfolding entry_offset
info-IsSound = record {
  sector_pos = omega arith;
  sectors_pos = omega arith;
  per_cluster = refl;
  small = omega arith;
  end_le = omega arith;
  table = λ c lt. omega (arith, lt);
  whole = λ i. refl;
}

abbrev file : ℕ → FatFile
file cursor = record { size = 6; first_low = 2; cursor = cursor; cluster = 2 }

read_file-Got_example :
    let ((bytes, file'), s') = read_file (device_ops drive heap 2 device) info (file 1) 4 idle in
    Got
      (λ (s : State Unit ℕ). IsCoherent on_volume s.cache)
      (file_byte on_volume info 2)
      1
      4
      (bytes, s')
    × (file'.cursor ≡ 1 + length bytes)
    × InStep on_volume info 2 file'.cursor file'.cluster
    × (HasErrno drive heap 2 device s'
        ⊎ ((file'.cluster < 2) ⊎ ((0xFFF7 ≤ file'.cluster) ⊎ (4 ≤ 2 * length bytes))))
read_file-Got_example =
    read_file-Got (device_ops drive heap 2 device)
      (λ (s : State Unit ℕ). IsCoherent on_volume s.cache) on_volume
      (device_ops-IsFaithful drive heap 2 device disk (λ sector n w e. refl) (omega arith))
      (HasErrno drive heap 2 device) (device_ops-Reports drive heap 2 device) info info-IsSound 2
      (λ k lt. omega (arith, lt)) (file 1) 4 idle (record { all_true = tt; fits = omega arith })
      (omega arith) (omega arith) (omega arith) (inl refl)

-- The volume without a cache, and a heap of so many bytes, from which nothing is given back.
abbrev plain : VolumeOps ℕ
plain = record {
  read_sector = λ sector n w. (slice on_volume sector n, w);
  malloc = λ n w. if leb n w then (some (0x8000 - w), w - n) else (none, w);
  free = λ p w. w;
  set_errno = λ e w. w;
}

-- Five bytes are wanted, of which the loop leaves the last one.
short_read : (read_file plain info (file 0) 5 0x1000).0.0 ≡ 10 ∷ 110 ∷ 12 ∷ 112 ∷ []
unfolding read_file read_chain read_run run_length next_cluster read_one read_part allocate_part
    entry_offset entry_in
short_read = refl

abbrev InHeap : ℕ → Type 0
InHeap w = w ≤ 0x8000

plain-IsFaithful : IsFaithful plain InHeap on_volume
plain-IsFaithful = record {
  read_keeps = λ sector n w v small. v;
  read_slice = λ sector n w v small whole. refl;
  malloc_keeps = λ n w v. ground (arith, v);
  free_keeps = λ p w v. v;
  errno_keeps = λ e w v. v;
}

info-covers : (j : ℕ) → j * 2 < 6 → chain on_volume info 2 j < 0xFFF7
unfolding get_next_cluster entry_in entry_offset
info-covers zero lt = omega arith
info-covers (suc zero) lt = omega arith
info-covers (suc (suc zero)) lt = omega arith
info-covers (suc (suc (suc j))) lt = absurd (omega arith)

two_at : AtCursor on_volume info 2 1 2
unfolding get_next_cluster entry_in entry_offset
two_at = refl

-- Both calls on the way from the first cluster to the third find what they need.
two-IsReadable :
    (j : ℕ)
    → (start_of info 1 4 + j) * 2 + 2 ≤ 4
    → IsReadable plain info
        (chain on_volume info 2 (start_of info 1 4 + j))
        (walk plain on_volume info 2 (start_of info 1 4) j 0x1000)
unfolding next_cluster read_one get_next_cluster entry_in entry_offset
two-IsReadable zero le = record { block = 0x7000; memory = refl; first = refl; second = λ e. refl }
two-IsReadable (suc zero) le = record {
  block = 0x7002;
  memory = refl;
  first = refl;
  second = λ e. refl;
}
two-IsReadable (suc (suc j)) le = absurd (omega (arith, le))

-- From the first cluster to the third one.
set_file_pointer-AtCursor_example :
    let ((moved, file'), w) = set_file_pointer plain info (file 1) 4 file_begin 0x1000 in
    InHeap w
    × AtCursor on_volume info 2 file'.cursor file'.cluster
    × (((6 ≤ 4) × (moved ≡ false) × (file' ≡ file 1))
        ⊎ ((4 < 6) × (moved ≡ true) × (file'.cursor ≡ 4)))
set_file_pointer-AtCursor_example =
    set_file_pointer-AtCursor plain InHeap on_volume plain-IsFaithful info info-IsSound 2 1
      (omega arith) refl (file 1) 4 file_begin 0x1000 (omega arith) refl (omega arith) (omega arith)
      two_at info-covers two-IsReadable
