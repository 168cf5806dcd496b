-- ===== src/Fat/Mount/Tests.antt =====
-- Mounting a floppy of 1.44 MB.
use osldr.Base.{
  ℕ, zero, suc, ◌-◌, ◌≤◌, ◌≡◌, refl, true, none, some, [], ◌∷◌, ◌++◌, leb, if◌then◌else◌, replicate,
  Bytes,
}
use osldr.Sectors.{slice}
use osldr.Volumes.{VolumeOps}
use osldr.Fat.Mount.{bpb_of, is_fat, legal_values, sort_of, legal_for, n_clusters}

abbrev boot_fields : Bytes
boot_fields =
    replicate 11 0 ++ 0 ∷ 2 ∷ 1 ∷ 1 ∷ 0 ∷ 2 ∷ 224 ∷ 0 ∷ 64 ∷ 11 ∷ 0xF0 ∷ 9 ∷ 0 ∷ 18 ∷ 0 ∷ 2 ∷ 0 ∷ []

abbrev floppy : ℕ → Bytes
floppy zero = boot_fields ++ replicate 484 0
floppy (suc n) = replicate 512 0

-- The floppy without a cache, and a heap of so many bytes, from which nothing is given back.
abbrev plain : VolumeOps ℕ
plain = record {
  read_sector = λ sector n w. (slice floppy sector n, w);
  malloc = λ n w. if leb n w then (some (0x8000 - w), w - n) else (none, w);
  free = λ p w. w;
  set_errno = λ e w. w;
}

abbrev InHeap : ℕ → Type 0
InHeap w = w ≤ 0x8000

-- The floppy passes the checks.
floppy_passes : is_fat 512 (bpb_of (floppy 0)) ≡ true
unfolding is_fat legal_values sort_of legal_for
floppy_passes = refl

floppy_clusters : n_clusters (bpb_of (floppy 0)) ≡ 2847
unfolding n_clusters
floppy_clusters = refl
