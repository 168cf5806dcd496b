-- ===== src/Io/Sector/Device.antt =====
-- A device as the file systems use it: `ReadSector` over its drive, its cache and the heap.
use osldr.Base.{ℕ, ◌+◌, ◌≤◌, ◌<◌, ◌^◌, ◌≡◌, inl, inr, refl, ap, ◌∙◌, some, length, Bytes}
use osldr.Allocator.{Allocator}
use osldr.Sectors.{slice}
use osldr.Volumes.{VolumeOps, IsFaithful, Reports}
use osldr.Io.Cache.Coherent.{IsCoherent}
use osldr.Io.Sector.{DriveOps, Volume, State, read_volume}
use osldr.Io.Sector.Steps.{IsHonest}
use osldr.Io.Sector.Slice.{read_sector-Reads}

module _ {W H : Type 0} (drive : DriveOps W) (a : Allocator H) (bytes_per_sector : ℕ)
    (device : Volume) where
  abbrev pub device_ops : VolumeOps (State W H)
  device_ops = record {
    read_sector = λ sector n s. read_volume drive a (some bytes_per_sector) device sector n s;
    malloc = λ n s. ((a.malloc n s.heap).0, record s { heap = (a.malloc n s.heap).1 });
    free = λ p s. record s { heap = a.free p s.heap };
    set_errno = λ e s. record s { errno = some e };
  }

  abbrev pub HasErrno : State W H → Type 0
  HasErrno s = (e : ℕ) × (s.errno ≡ some e)

  pub device_ops-Reports : Reports device_ops HasErrno
  device_ops-Reports = record { errno_sets = λ e s. (e, refl); free_leaves = λ p s v. v }

  module _ (disk : ℕ → Bytes) (honest : IsHonest drive a bytes_per_sector disk)
      (fits : device.start_sector + device.n_sectors ≤ 2 ^ 64) where
    abbrev volume : ℕ → Bytes
    volume t = disk (device.start_sector + t)

    read_volume-IsCoherent :
        (sector n : ℕ) (s : State W H)
        → IsCoherent volume s.cache
        → sector + n < 2 ^ 64
        → let (got, s') = read_volume drive a (some bytes_per_sector) device sector n s in
          IsCoherent volume s'.cache × (length got ≡ n → got ≡ slice volume sector n)
    unfolding read_volume
    read_volume-IsCoherent sector n s v small =
        elim (read_sector-Reads drive a bytes_per_sector disk honest device.start_sector
          device.n_sectors sector n s fits small v) [
            | inl (_, r) ↦ (r.coherent, λ whole. r.prefix ∙ ap (slice volume sector) whole)
            | inr (_, nothing, same) ↦ rw (same, nothing) (v, λ whole. rw (← whole) refl)
          ]

    -- While the cache holds what the disk holds, the device is read faithfully.
    pub device_ops-IsFaithful :
        IsFaithful device_ops (λ (s : State W H). IsCoherent volume s.cache) volume
    device_ops-IsFaithful = record {
      read_keeps = λ sector n s v small. (read_volume-IsCoherent sector n s v small).0;
      read_slice = λ sector n s v small whole. (read_volume-IsCoherent sector n s v small).1 whole;
      malloc_keeps = λ n s v. v;
      free_keeps = λ p s v. v;
      errno_keeps = λ e s v. v;
    }
