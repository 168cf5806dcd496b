-- ===== src/Heap/Tests.antt =====
-- Runs of the heap, and the theorems on small heaps.
use osldr.Base.{
  ℕ, ◌+◌, ◌/◌, ◌≤◌, ◌<◌, ◌⊎◌, ◌≡◌, inl, refl, ap, true, none, some, [], ◌∷◌, ◌==◌, if◌then◌else◌,
  arith,
}
use osldr.Heap.{
  Heap, align, remove, is_empty, find_fit, splice, use_block, malloc, merge_next, merge_prev,
  mark_free, grow, free, can_widen, widen, realloc, init_block, init_pages, init_last, init_first,
  heap_init,
}
use osldr.Heap.Count.{count}
use osldr.Heap.Blocks.{Block, Represents}
use osldr.Heap.Malloc.{used, spare, Taken, NoneFits, malloc-Represents}
use osldr.Heap.Free.{free-Represents}
use osldr.Heap.RoundTrip.{free-malloc}
use osldr.Heap.Init.{heap_layout, heap_init-Represents}
use osldr.Heap.Sound.{IsSound}
use osldr.Heap.Life.{Life, begun, given, heap_init-IsSound}
use osldr.Heap.Safe.{area_size, areas-apart, area-in_page, malloc-fresh}
use osldr.Heap.Full.{allocate, release, resize, calls, full-stays}

-- A block of 100 bytes in use, at a boundary of 64 KB, and a free one of 200.
abbrev two_blocks : Heap
two_blocks = record {
  size = λ a. if a == 65532 then 102 else if a == 65648 then 201 else 0;
  prev_size = λ a. if a == 65648 then 102 else if a == 65864 then 201 else 0;
  list = 65648 ∷ [];
  start = 65536;
  total = 400;
}

abbrev first : Block
first = used 100 true

two_blocks-Represents : Represents 65532 two_blocks (first ∷ spare 200 ∷ [])
two_blocks-Represents = record {
  headers = (refl, refl, refl, (refl, refl, refl, tt));
  listed = λ a. refl;
  starts = refl;
  covers = omega arith;
  fits = omega arith;
  sentinel = refl;
}

malloc_run : (malloc 50 two_blocks).0 ≡ some 65664
unfolding malloc find_fit
malloc_run = refl

malloc_list : (malloc 50 two_blocks).1.list ≡ 65716 ∷ []
unfolding malloc find_fit use_block splice remove
malloc_list = refl

malloc_fails : malloc 300 two_blocks ≡ (none, two_blocks)
unfolding malloc find_fit
malloc_fails = refl

free_run : (free 65548 two_blocks).list ≡ 65532 ∷ []
unfolding free mark_free merge_next merge_prev grow is_empty remove
free_run = refl

realloc_run : (realloc 65548 150 two_blocks).0 ≡ some 65548
unfolding realloc is_empty can_widen
realloc_run = refl

realloc_list : (realloc 65548 150 two_blocks).1.list ≡ 65700 ∷ []
unfolding realloc is_empty can_widen widen splice remove
realloc_list = refl

malloc-Represents_example :
    NoneFits (align 50) (first ∷ spare 200 ∷ []) × (malloc 50 two_blocks ≡ (none, two_blocks))
    ⊎ Taken 65532 (align 50) (first ∷ spare 200 ∷ []) (malloc 50 two_blocks)
malloc-Represents_example =
    malloc-Represents 65532 50 two_blocks (first ∷ spare 200 ∷ []) (omega arith)
      two_blocks-Represents

free-Represents_example :
    Represents 65532
      (free 65548 two_blocks)
      (record { size = 316; free = true; aligned = true } ∷ [])
unfolding is_empty
free-Represents_example =
    free-Represents 65532 two_blocks [] first (spare 200 ∷ []) two_blocks-Represents refl refl

free-malloc_example :
    Represents 65532 (free 65664 (malloc 50 two_blocks).1) (first ∷ spare 200 ∷ [])
unfolding is_empty
free-malloc_example =
    free-malloc 65532 50 65664 two_blocks (first ∷ spare 200 ∷ []) (omega arith)
      two_blocks-Represents (inl refl, tt) malloc_run (ap is_empty malloc_list)

-- 200000 bytes of empty memory from 60000 on: a block before the first boundary of 64 KB, two pages, and one
-- behind.
abbrev empty_memory : Heap
empty_memory = record { size = λ a. 0; prev_size = λ a. 0; list = []; start = 0; total = 0 }

abbrev made : Heap
made = heap_init 60000 200000 empty_memory

made_list : made.list ≡ 59996 ∷ 65532 ∷ 131068 ∷ 196604 ∷ []
unfolding heap_init init_first init_pages init_last init_block
made_list = refl

heap_init-Represents_example : Represents 59996 made (heap_layout 60000 200000)
heap_init-Represents_example =
    heap_init-Represents 60000 200000 empty_memory (omega arith) (omega arith) (omega arith) refl

first_run : (malloc 100 made).0 ≡ some 60012
unfolding malloc find_fit heap_init init_first init_pages init_last init_block
first_run = refl

second_run : (malloc 200 (malloc 100 made).1).0 ≡ some 60128
unfolding malloc find_fit use_block splice remove heap_init init_first init_pages init_last
    init_block
second_run = refl

abbrev used_heap : Heap
used_heap = (malloc 200 (malloc 100 made).1).1

two_given : Life made used_heap (60128 ∷ 60012 ∷ [])
two_given =
    given 200 60128 (malloc 100 made).1 (60012 ∷ [])
      (given 100 60012 made [] begun (omega arith) first_run) (omega arith) second_run

heap_init-IsSound_example : IsSound 59996 used_heap (60128 ∷ 60012 ∷ [])
heap_init-IsSound_example =
    heap_init-IsSound 60000 200000 empty_memory used_heap (60128 ∷ 60012 ∷ []) (omega arith)
      (omega arith) (omega arith) refl two_given

areas-apart_example : 60012 + area_size used_heap 60012 + 16 ≤ 60128
areas-apart_example =
    areas-apart 60000 200000 empty_memory used_heap (60128 ∷ 60012 ∷ []) (omega arith) (omega arith)
      (omega arith) refl two_given 60012 60128 (omega arith) (omega arith) (omega arith)

area-in_page_example :
    (used_heap.start + 12 ≤ 60128)
    × (60128 + area_size used_heap 60128 ≤ used_heap.start + used_heap.total)
    × ((i : ℕ) → i < area_size used_heap 60128 → (60128 + i) / 65536 ≡ 60128 / 65536)
area-in_page_example =
    area-in_page 60000 200000 empty_memory used_heap (60128 ∷ 60012 ∷ []) (omega arith)
      (omega arith) (omega arith) refl two_given 60128 (omega arith)

malloc-fresh_example : (count 60128 (60012 ∷ []) ≡ 0) × (200 ≤ area_size used_heap 60128)
malloc-fresh_example =
    malloc-fresh 60000 200000 empty_memory (malloc 100 made).1 (60012 ∷ []) (omega arith)
      (omega arith) (omega arith) refl (given 100 60012 made [] begun (omega arith) first_run) 200
      60128 (omega arith) second_run

abbrev full_heap : Heap
full_heap = record empty_memory { start = 65536; total = 400 }

full-stays_example :
    (calls (release 65552 ∷ resize 65552 20 ∷ allocate 4 ∷ []) full_heap ≡ full_heap)
    × (malloc 8 (calls (release 65552 ∷ resize 65552 20 ∷ allocate 4 ∷ []) full_heap)
        ≡ (none, full_heap))
unfolding is_empty
full-stays_example = full-stays (release 65552 ∷ resize 65552 20 ∷ allocate 4 ∷ []) full_heap 8 refl
