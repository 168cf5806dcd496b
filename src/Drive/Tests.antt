-- ===== src/Drive/Tests.antt =====
-- Runs of the drive functions and instances of their theorems.
use osldr.Base.{ℕ, ◌≤◌, ◌≡◌, refl, none, some, [], ◌∷◌, ◌==◌, if◌then◌else◌, arith, Bytes}
use osldr.Drive.{
  DriveInfo, Bios, DriveTable, blank, find_slot, shift_in, fill, fill_edd, fill_chs, chs_fields,
  get_drive_parameters, read_drive_with,
}
use osldr.Drive.Chs.{addressed, IsGeometry}
use osldr.Sectors.{slice}
use osldr.Drive.Read.{read_drive_with-slice}
use osldr.Base.{◌<◌, ◌⊎◌, get_or}
use osldr.Drive.Params.{EddAnswers, ChsAnswers, get_drive_parameters_again}

abbrev disk : ℕ → Bytes
disk n = n ∷ []

-- A floppy of 80 cylinders as drive 0, and no other drive.
abbrev bios : Bios
bios = record {
  extensions = λ drive. none;
  edd_params = λ drive. none;
  chs_params = λ drive.
      if drive == 0 then some (record { dh = 1; cl = 18; ch = 79; table_bytes = 2 }) else none;
  edd_read = λ drive sector n. none;
  chs_read = λ drive ch cl dh n. some (slice disk (addressed 2 18 ch cl dh) n);
}

abbrev floppy : DriveInfo
floppy = record blank {
  cylinders = 80;
  heads = 2;
  sectors = 18;
  total_sectors = 2880;
  bytes_per_sector = 512;
}

abbrev no_drives : DriveTable
no_drives = record { count = 0; slots = [] }

abbrev with_floppy : DriveTable
with_floppy = record { count = 1; slots = floppy ∷ [] }

floppy_found : get_drive_parameters bios 0 no_drives ≡ (some floppy, with_floppy)
unfolding get_drive_parameters find_slot shift_in fill fill_edd fill_chs chs_fields
floppy_found = refl

get_drive_parameters_again_example :
    (0 ≡ floppy.drive)
    × (((i : ℕ) × (i < 0) × (get_or no_drives.slots i blank ≡ floppy))
        ⊎ (EddAnswers bios floppy ⊎ ChsAnswers bios floppy))
    × (get_or with_floppy.slots 0 blank ≡ floppy)
    × (1 ≤ 16)
    × (get_drive_parameters bios 0 with_floppy ≡ (some floppy, with_floppy))
get_drive_parameters_again_example =
    get_drive_parameters_again bios 0 no_drives with_floppy floppy (omega arith) floppy_found

-- The answer for drive 1 is that of the floppy.
abbrev with_ghost : DriveTable
with_ghost = record { count = 1; slots = record floppy { drive = 1 } ∷ floppy ∷ [] }

abbrev floppy_geometry : IsGeometry floppy
floppy_geometry = omega arith

read_drive_with-slice_example : read_drive_with bios floppy 30 20 ≡ (20, slice disk 30 20)
read_drive_with-slice_example =
    read_drive_with-slice bios floppy disk floppy_geometry (λ ch cl dh n h k. refl) 30 20 refl
      (omega arith)
