-- ===== src/Mem/Room.antt =====
-- When `PhysAlloc` at a given address succeeds.
use osldr.Base.{
  ℕ, ◌+◌, ◌≤◌, ◌<◌, ◌^◌, ◌⊎◌, ◌≡◌, ◌≢◌, inl, inr, none, some, List, [], ◌∷◌, Option-cases, ◌==◌,
  if◌then◌else◌, arith,
}
use osldr.Allocator.{Allocator}
use osldr.Mem.{PhysMem, Found, carve, start_in, fits, find_region, align_size, phys_alloc, enomem}
use osldr.Mem.Cover.{AllRegions}
use osldr.Mem.Alloc.{align_size-lt}

-- One region of the list holds the whole block.
abbrev pub HasRoom : ℕ → ℕ → List PhysMem → Type 0
HasRoom start size [] = ⊥
HasRoom start size (r ∷ rs) =
    (r.address ≤ start) × (start + size ≤ r.address + r.size) ⊎ HasRoom start size rs

module _ (start size alignment : ℕ) (at : start ≢ 0) (lt : start < 2 ^ 32)
    (small : size < 2 ^ 63) where
  room_of_some :
      (l : List PhysMem) (f : Found)
      → AllRegions l
      → find_region start size alignment l ≡ some f
      → (f.start ≡ start) × HasRoom start size l
  unfolding find_region start_in fits carve
  room_of_some [] f v e = ground arith
  room_of_some (c ∷ cs) f v e = elim (Option-cases (find_region start size alignment cs)) [
    | inl k ↦ ground arith
    | inr (g, k) ↦ ground (arith, room_of_some cs g v.1 k)
  ]

  no_room_of_none :
      (l : List PhysMem)
      → AllRegions l
      → find_region start size alignment l ≡ none
      → ¬ HasRoom start size l
  unfolding find_region start_in fits carve
  no_room_of_none [] v e w = w
  no_room_of_none (c ∷ cs) v e (inl w) = ground arith
  no_room_of_none (c ∷ cs) v e (inr w) = elim (Option-cases (find_region start size alignment cs)) [
    | inl k ↦ no_room_of_none cs v.1 k w
    | inr (g, k) ↦ ground arith
  ]

module _ {H : Type 0} (a : Allocator H) (h : H) where
  -- `PhysAlloc` at an address that is not 0 and below 4 GB, for a size below 2 ^ 62 that is not 0 when it is rounded up to
  -- 4, on a list of which each region is not empty, at 1 MB or above and ends below 2 ^ 64: it returns that address
  -- exactly if one free region holds the block of the rounded size; else it returns NULL, sets `errno` to ENOMEM and
  -- leaves the list.
  pub phys_alloc-HasRoom :
      (start size alignment : ℕ) (l : List PhysMem)
      → start ≢ 0
      → start < 2 ^ 32
      → size < 2 ^ 62
      → align_size size ≢ 0
      → AllRegions l
      → HasRoom start (align_size size) l × ((phys_alloc a start size alignment l h).0 ≡ some start)
        ⊎ (¬ HasRoom start (align_size size) l)
          × (phys_alloc a start size alignment l h ≡ (none, some enomem, l, h))
  unfolding phys_alloc
  phys_alloc-HasRoom start size alignment l at lt small ne v =
      let alignment' = if alignment == 0 then 1 else alignment in
      elim (Option-cases (find_region start (align_size size) alignment' l)) [
        | inl k ↦ inr (
          no_room_of_none start (align_size size) alignment' at lt (align_size-lt size small) l v k,
          ground arith,
        )
        | inr (f, k) ↦
            let room =
              room_of_some start (align_size size) alignment' at lt (align_size-lt size small) l f v
                k in
            inl (room.1, ground (arith, room.0))
      ]
