-- ===== src/Fat/Mount/Sound.antt =====
-- What `FatMount` gives to the files.
use osldr.Base.{ℕ, ◌≤◌, ◌≡◌}
use osldr.Fat.Mount.{Bpb}

-- The sizes of a boot sector that passes the checks.
record IsLegal (n : ℕ) (b : Bpb) : Type 0 where
  size_ge : 512 ≤ b.byts_per_sec
  size_le : b.byts_per_sec ≤ 4096
  count_ge : 1 ≤ b.sec_per_clus
  count_le : b.sec_per_clus ≤ 128
  same : b.byts_per_sec ≡ n
