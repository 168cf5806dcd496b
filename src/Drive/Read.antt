-- ===== src/Drive/Read.antt =====
-- `ReadDrive` on a drive without EDD reads the sectors that were asked for.
use osldr.Base.{ℕ, zero, suc, ◌+◌, ◌-◌, ◌*◌, ◌%◌, ◌≤◌, ◌<◌, min, ◌≡◌, refl, some, arith, Bytes}
use osldr.Drive.{DriveInfo, Bios, to_chs, reg_cl, reg_ch, reg_dh, read_tracks, read_drive_with}
use osldr.Sectors.{slice, slice_split}
use osldr.Drive.Chs.{addressed, IsGeometry, addressed-to_chs, registers_fit}

-- The BIOS reads of a drive of this geometry succeed and return the disk's sectors, where they stay
-- on one track.
abbrev pub ReadsDisk : Bios → DriveInfo → (ℕ → Bytes) → Type 0
ReadsDisk bios d disk =
    (ch cl dh n : ℕ)
    → dh < d.heads
    → cl % 64 - 1 + n ≤ d.sectors
    → bios.chs_read d.drive ch cl dh n ≡ some (slice disk (addressed d.heads d.sectors ch cl dh) n)

module _ (bios : Bios) (d : DriveInfo) (disk : ℕ → Bytes) (g : IsGeometry d)
    (r : ReadsDisk bios d disk) where
  -- No round crosses the end of a track, and together they read every sector asked for, in order.
  pub read_tracks-slice :
      (fuel sector left : ℕ)
      → left ≤ fuel
      → sector + left ≤ 1024 * (d.heads * d.sectors)
      → read_tracks bios d fuel sector left ≡ (left, slice disk sector left)
  unfolding read_tracks
  read_tracks-slice zero sector zero enough h = refl
  read_tracks-slice zero sector (suc more) enough h = absurd (omega arith)
  read_tracks-slice (suc fuel) sector zero enough h = refl
  read_tracks-slice (suc fuel) sector (suc more) enough h =
      let c = to_chs d sector in
      let (head, at, within) = registers_fit d sector g in
      let count : ℕ = min (d.sectors - c.sector) (suc more) in
      let got = r (reg_ch c) (reg_cl c) (reg_dh c) count head (omega arith) in
      let rest =
        read_tracks-slice fuel (sector + count) (suc more - count) (omega arith) (omega arith) in
      let whole : count + (suc more - count) ≡ suc more = omega arith in
      rw (read_tracks, got, addressed-to_chs d sector g (omega arith), rest)
        (rw (slice_split disk sector count (suc more - count), whole) refl)

  -- On a drive without EDD, of a geometry that INT 13h/02h can address, whose reads succeed, `ReadDrive`
  -- returns the count asked for and puts exactly those sectors of the disk into the buffer, in order.
  pub read_drive_with-slice :
      (sector left : ℕ)
      → d.controller_flags % 2 ≡ 0
      → sector + left ≤ 1024 * (d.heads * d.sectors)
      → read_drive_with bios d sector left ≡ (left, slice disk sector left)
  unfolding read_drive_with
  read_drive_with-slice sector left no_edd h =
      rw (no_edd, read_tracks-slice left sector left (omega arith) h) refl
