-- ===== src/Io/Tests.antt =====
-- Instances of the theorems of the I/O manager.
use osldr.Base.{
  ℕ, zero, suc, ◌+◌, ◌≤◌, ◌<◌, ◌⊎◌, ◌≡◌, refl, none, some, List, [], ◌∷◌, add32, arith, set, Bytes,
}
use osldr.Io.Path.{parse_device}
use osldr.Io.Path.Parse.{partition, written, parse_device-written}
use osldr.Allocator.{Allocator}
use osldr.Sectors.{slice}
use osldr.Io.Errno.{eio}
use osldr.Io.Cache.{CacheItem, Cache, victim, write_cache}
use osldr.Io.Cache.Oldest.{Victim, write_cache-Victim}
use osldr.Io.Sector.{DriveOps, Volume, State, read_sector}
use osldr.Io.Sector.Slice.{Reads, read_sector-Reads}

abbrev boot_ini : Bytes
boot_ini = b'/' ∷ b'b' ∷ []

parse_device-written_example :
    parse_device 0 (written (partition 1 4) boot_ini) 0 ≡ (some (boot_ini, 0x8104FFFF), 0)
parse_device-written_example = parse_device-written 0 0 (partition 1 4) boot_ini (omega arith) refl

abbrev disk : ℕ → Bytes
disk n = n ∷ []

abbrev drive : DriveOps Unit
drive = record { read = λ sector n w. (slice disk sector n, w); reset = λ w. w }

abbrev heap : Allocator ℕ
heap = record { malloc = λ n h. (some h, h + n); free = λ p h. h }

abbrev device : Volume
device = record { start_sector = 63; n_sectors = 37 }

abbrev empty_cache : Cache
empty_cache = record { time = 0; items = [] }

abbrev idle : State Unit ℕ
idle = record { world = tt; heap = 1; cache = empty_cache; errno = none }

read_sector-Reads_example :
    let (got, s') = read_sector drive heap 512 device 35 2 idle in
    (35 + 2 ≤ 37) × Reads (λ t. disk (63 + t)) 35 2 got s'
    ⊎ (37 < 35 + 2) × (got ≡ []) × (s' ≡ record idle { errno = some eio })
read_sector-Reads_example =
    read_sector-Reads drive heap 512 disk (λ sector n w e. refl) 63 37 35 2 idle (omega arith)
      (omega arith) (record { all_true = tt; fits = omega arith })

-- A full cache, whose items are 1 to 32 by time.
abbrev items_from : ℕ → ℕ → List CacheItem
items_from zero i = []
items_from (suc n) i =
    record { tag = i; time = i; address = 100 + i; sector = disk i } ∷ items_from n (i + 1)

abbrev full_cache : Cache
full_cache = record { time = 33; items = items_from 32 1 }

write_cache-Victim_example :
    (v : Victim full_cache.items) × (write_cache heap full_cache 50 7 (disk 50) 1000 ≡ (
      record {
        time = add32 33 1;
        items =
            set full_cache.items
              (victim full_cache.items)
              (record { tag = 50; time = 33; address = 7; sector = disk 50 });
      },
      1000,
    ))
write_cache-Victim_example = write_cache-Victim heap full_cache 50 7 (disk 50) 1000 refl
