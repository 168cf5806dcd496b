-- ===== src/Io/Partition/Tests.antt =====
-- Runs of the choice of a partition, and instances of its theorems.
use osldr.Base.{
  ℕ, ◌⊎◌, ◌≡◌, refl, Option, none, some, [], ◌∷◌, ◌++◌, ◌==◌, if◌then◌else◌, arith, get_elem?,
  replicate, Bytes,
}
use osldr.Io.Partition.{
  entry, scan_table, placed, hangs, traverse, after_scan, after_mbr, table, choose_partition,
}
use osldr.Io.Partition.Table.{primary, choose_partition-primary}
use osldr.Io.Partition.Logical.{Refuses, IsLogical, choose_partition-IsLogical}

-- A table whose first entry is a FAT partition at sector 63 and whose second one is extended, at sector 100.
abbrev fat_entry : Bytes
fat_entry = 0x80 ∷ 0 ∷ 0 ∷ 0 ∷ 6 ∷ 0 ∷ 0 ∷ 0 ∷ 63 ∷ 0 ∷ 0 ∷ 0 ∷ 37 ∷ 0 ∷ 0 ∷ 0 ∷ []

abbrev extended_entry : Bytes
extended_entry = 0 ∷ 0 ∷ 0 ∷ 0 ∷ 5 ∷ 0 ∷ 0 ∷ 0 ∷ 100 ∷ 0 ∷ 0 ∷ 0 ∷ 200 ∷ 0 ∷ 0 ∷ 0 ∷ []

abbrev boot_sector : Bytes
boot_sector = replicate 0x1BE 0 ++ (fat_entry ++ (extended_entry ++ replicate 34 0))

abbrev tables : ℕ → Option Bytes
tables sector =
    if sector == 0
    then some boot_sector
    else if sector == 100
    then some (replicate 0x1BE 0 ++ fat_entry)
    else none

primary_found : choose_partition tables 0 ≡ placed (record { kind = 6; start = 63; size = 37 })
unfolding choose_partition after_mbr after_scan scan_table entry traverse
primary_found = refl

logical_hangs : choose_partition tables 4 ≡ hangs
unfolding choose_partition after_mbr after_scan scan_table entry traverse
logical_hangs = refl

choose_partition-primary_example :
    choose_partition tables 0 ≡ primary (get_elem? (table boot_sector) 0)
choose_partition-primary_example = choose_partition-primary tables 0 boot_sector (omega arith) refl

choose_partition-IsLogical_example :
    IsLogical tables 4 × (choose_partition tables 4 ≡ hangs)
    ⊎ Refuses (IsLogical tables 4) (choose_partition tables 4)
choose_partition-IsLogical_example = choose_partition-IsLogical tables 4 (omega arith)
