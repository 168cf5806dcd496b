-- ===== src/Mem/Region.antt =====
-- Which addresses the free list of src/mem.c holds, and when it is well-formed.
use osldr.Base.{ℕ, ◌+◌, ◌≤◌, ◌<◌, ◌^◌, ◌⊎◌, List, [], ◌∷◌}
use osldr.Mem.{PhysMem, one_mb}

-- The address `x` lies in the region.
abbrev pub Within : PhysMem → ℕ → Type 0
Within r x = (r.address ≤ x) × (x < r.address + r.size)

-- Some region of the list holds the address.
abbrev pub Covers : List PhysMem → ℕ → Type 0
Covers [] x = ⊥
Covers (r ∷ rs) x = Within r x ⊎ Covers rs x

-- A region is not empty, starts at 1 MB or above, and ends inside 64 bits.
pub record IsRegion (r : PhysMem) : Type 0 where
  pub above : one_mb ≤ r.address
  pub not_empty : 0 < r.size
  pub fits : r.address + r.size < 2 ^ 64

-- The interval from `start` of `length` addresses does not meet the region.
abbrev pub Apart : ℕ → ℕ → PhysMem → Type 0
Apart start length r = (start + length ≤ r.address) ⊎ (r.address + r.size ≤ start)

abbrev pub AllApart : ℕ → ℕ → List PhysMem → Type 0
AllApart start length [] = Unit
AllApart start length (r ∷ rs) = Apart start length r × AllApart start length rs

-- Every node is a region, and no two nodes meet.
abbrev pub IsValid : List PhysMem → Type 0
IsValid [] = Unit
IsValid (r ∷ rs) = IsRegion r × AllApart r.address r.size rs × IsValid rs
