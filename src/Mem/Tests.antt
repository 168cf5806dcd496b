-- ===== src/Mem/Tests.antt =====
-- Runs of the physical memory manager and instances of its theorems.
use osldr.Base.{
  ℕ, ◌+◌, ◌-◌, ◌%◌, ◌≤◌, ◌<◌, ◌^◌, ◌⊎◌, ◌≡◌, refl, ap, true, false, none, some, List, [], ◌∷◌,
  arith,
}
use osldr.Allocator.{Allocator}
use osldr.Mem.{
  PhysMem, one_mb, join, join_first, insert, add_to_phys_list, carve, fits, start_in, align_up,
  find_region, phys_alloc, phys_free, phys_init, add_map, align_size,
}
use osldr.Mem.Region.{Covers, IsValid}
use osldr.Mem.Cover.{AllRegions, Clipped, add_to_phys_list-Covers}
use osldr.Mem.Add.{add_to_phys_list-IsValid}
use osldr.Mem.Alloc.{Taken, phys_alloc-Taken}
use osldr.Mem.Align.{phys_alloc-mod}
use osldr.Base.{leb, if◌then◌else◌, ◌-◌}
use osldr.Mem.{sizeof_phys_mem}
use osldr.Mem.Free.{phys_free-phys_alloc}
use osldr.Mem.Room.{HasRoom, phys_alloc-HasRoom}

-- A heap that never ends.
abbrev heap : Allocator ℕ
heap = record { malloc = λ n h. (some h, h + n); free = λ p h. h }

abbrev two_regions : List PhysMem
two_regions =
    record { address = 0x300000; size = 0x1000 } ∷ record { address = 0x100000; size = 0x5000 } ∷ []

abbrev after_alloc : List PhysMem
after_alloc =
    record { address = 0x105000 - 0x3000; size = 0x3000 }
    ∷ record { address = 0x300000; size = 0x1000 }
    ∷ record { address = 0x100000; size = 0x1000 }
    ∷ []

-- Type 1 is free memory; the first entry lies below 1 MB.
phys_init_run :
    phys_init heap
      (some (
        (0, 0x9f000, 1) ∷ (0x100000, 0x5000, 1) ∷ (0x105000, 0x10, 2) ∷ (0x300000, 0x1000, 1) ∷ []))
      none
      0
    ≡ (true, two_regions, 48)
unfolding phys_init add_map add_to_phys_list insert join_first join
phys_init_run = refl

phys_alloc_run :
    phys_alloc heap 0x101000 0x1000 0 two_regions 0 ≡ (some 0x101000, none, after_alloc, 24)
unfolding phys_alloc find_region carve add_to_phys_list insert join_first join align_size fits
    start_in align_up
phys_alloc_run = refl

add_to_phys_list-Covers_example :
    let (ok, l', _) = add_to_phys_list heap 0x104000 0x3000 two_regions 0 in
    AllRegions l'
    × ((ok ≡ true)
          × (Covers l' 0x106000 → Clipped 0x104000 0x3000 0x106000 ⊎ Covers two_regions 0x106000)
          × (Clipped 0x104000 0x3000 0x106000 ⊎ Covers two_regions 0x106000 → Covers l' 0x106000)
        ⊎ (ok ≡ false) × (l' ≡ two_regions))
add_to_phys_list-Covers_example =
    add_to_phys_list-Covers heap 0x104000 0x3000 two_regions 0 0x106000 (omega arith) (omega arith)
      (omega arith)

add_to_phys_list-IsValid_example : IsValid (add_to_phys_list heap 0x105000 0x3000 two_regions 0).1
add_to_phys_list-IsValid_example =
    add_to_phys_list-IsValid heap 0x105000 0x3000 two_regions 0 (omega arith) (omega arith)
      (omega arith) (omega arith)

given : (phys_alloc heap 0x101000 0x1000 0 two_regions 0).0 ≡ some 0x101000
given = ap (λ r. r.0) phys_alloc_run

phys_alloc-Taken_example :
    (0 < align_size 0x1000)
    × (one_mb ≤ 0x101000)
    × Taken 0x101000
        (align_size 0x1000)
        0x101800
        two_regions
        (phys_alloc heap 0x101000 0x1000 0 two_regions 0).2
phys_alloc-Taken_example =
    phys_alloc-Taken heap 0 0x101000 0x1000 0 0x101800 0x101000 two_regions (omega arith)
      (omega arith) (omega arith) given

aligned : (phys_alloc heap 0 0x800 (2 ^ 12) two_regions 0).0 ≡ some 0x300000
unfolding phys_alloc find_region carve add_to_phys_list insert join_first join align_size fits
    start_in align_up
aligned = refl

phys_alloc-mod_example : 0x300000 % 2 ^ 12 ≡ 0
phys_alloc-mod_example = phys_alloc-mod heap 0 0x800 12 0x300000 two_regions (omega arith) aligned

phys_alloc-HasRoom_example :
    HasRoom 0x101000 (align_size 0x1000) two_regions
      × ((phys_alloc heap 0x101000 0x1000 0 two_regions 0).0 ≡ some 0x101000)
    ⊎ (¬ HasRoom 0x101000 (align_size 0x1000) two_regions)
      × (phys_alloc heap 0x101000 0x1000 0 two_regions 0 ≡ (none, some 1, two_regions, 0))
unfolding align_size
phys_alloc-HasRoom_example =
    phys_alloc-HasRoom heap 0 0x101000 0x1000 0 two_regions (omega arith) (omega arith)
      (omega arith) (omega arith) (omega arith)

-- A heap of so many bytes, from which nothing is given back.
abbrev small_heap : Allocator ℕ
small_heap = record {
  malloc = λ n h. if leb n h then (some (0x8000 - h), h - n) else (none, h);
  free = λ p h. h;
}

given_odd : (phys_alloc small_heap 0x101000 0x1001 0 two_regions 100).0 ≡ some 0x101000
unfolding phys_alloc find_region carve add_to_phys_list insert join_first join align_size fits
    start_in align_up
given_odd = refl

one_more_node :
    (small_heap.malloc sizeof_phys_mem
      (phys_alloc small_heap 0x101000 0x1001 0 two_regions 100).3).0
    ≡ some 32692
unfolding phys_alloc find_region carve add_to_phys_list insert join_first join align_size fits
    start_in align_up
one_more_node = refl

phys_free-phys_alloc_example :
    let (_, _, l', h') = phys_alloc small_heap 0x101000 0x1001 0 two_regions 100 in
    let (l'', _) = phys_free small_heap 0x101000 0x1001 l' h' in
    (0x101000 ≤ 0x102002 → 0x102002 < 0x101000 + 0x1001 → Covers l'' 0x102002)
    × (0x101000 + 0x1001 ≤ 0x102002
        → 0x102002 < 0x101000 + align_size 0x1001
        → Covers two_regions 0x102002 × (¬ Covers l'' 0x102002))
phys_free-phys_alloc_example =
    phys_free-phys_alloc small_heap 0x101000 0x1001 0 0x102002 0x101000 32692 two_regions 100
      (omega arith) (omega arith) (omega arith) (omega arith) given_odd one_more_node
