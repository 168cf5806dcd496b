-- ===== src/Raw/Tests.antt =====
-- Runs of the raw device, and its theorem on a small drive.
use osldr.Base.{ℕ, ◌+◌, ◌-◌, ◌^◌, ◌⊎◌, ◌≡◌, refl, none, some, [], ◌∷◌, arith, length, Bytes}
use osldr.Allocator.{Allocator}
use osldr.Sectors.{slice}
use osldr.Io.Sector.{DriveOps, Volume, State}
use osldr.Io.Sector.Device.{device_ops, device_ops-IsFaithful, device_ops-Reports, HasErrno}
use osldr.Io.Cache.Coherent.{IsCoherent}
use osldr.Raw.{file_current, file_end, raw_read_file, raw_set_file_pointer}
use osldr.Volumes.Stream.{device_byte, Got}
use osldr.Raw.Read.{raw_read_file-Got}

-- A drive with sectors of two bytes.
abbrev disk : ℕ → Bytes
disk n = n ∷ (n + 100) ∷ []

abbrev drive : DriveOps Unit
drive = record { read = λ sector n w. (slice disk sector n, w); reset = λ w. w }

abbrev heap : Allocator ℕ
heap = record { malloc = λ n h. (some h, h + n); free = λ p h. h }

abbrev device : Volume
device = record { start_sector = 63; n_sectors = 37 }

abbrev idle : State Unit ℕ
idle = record { world = tt; heap = 1; cache = record { time = 0; items = [] }; errno = none }

abbrev volume : ℕ → Bytes
volume t = disk (63 + t)

raw_read_file-Got_example :
    let ((count, bytes, cursor'), s') = raw_read_file (device_ops drive heap 2 device) 2 5 3 idle in
    Got (λ (s : State Unit ℕ). IsCoherent volume s.cache) (device_byte volume 2) 5 3 (bytes, s')
    × ((length bytes ≡ 3) ⊎ HasErrno drive heap 2 device s')
    × (count ≡ length bytes)
    × (cursor' ≡ 5 + count)
raw_read_file-Got_example =
    raw_read_file-Got (device_ops drive heap 2 device)
      (λ (s : State Unit ℕ). IsCoherent volume s.cache) volume
      (device_ops-IsFaithful drive heap 2 device disk (λ sector n w e. refl) (omega arith))
      (HasErrno drive heap 2 device) (device_ops-Reports drive heap 2 device) 2 (omega arith)
      (omega arith) (λ i. refl) 5 3 idle (omega arith) (omega arith)
      (record { all_true = tt; fits = omega arith })

-- A seek past the end, also by a negative offset, is refused.
seek_back : raw_set_file_pointer 37 2 5 (2 ^ 64 - 1) file_current ≡ some 4
unfolding raw_set_file_pointer
seek_back = refl

seek_before : raw_set_file_pointer 37 2 5 (2 ^ 64 - 6) file_current ≡ none
unfolding raw_set_file_pointer
seek_before = refl

seek_end : raw_set_file_pointer 37 2 5 0 file_end ≡ none
unfolding raw_set_file_pointer
seek_end = refl
