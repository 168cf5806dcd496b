-- ===== src/Heap/Life.antt =====
-- The life of the heap: `HeapInit`, and any number of calls of `malloc`, `free` and `realloc` behind it.
use osldr.Base.{ℕ, ◌+◌, ◌≤◌, ◌<◌, ◌^◌, ◌≡◌, none, some, List, [], ◌∷◌, arith}
use osldr.Heap.{Heap, remove, malloc, free, realloc, heap_init}
use osldr.Heap.Count.{count}
use osldr.Heap.Blocks.{end_of, IsSentinel}
use osldr.Heap.Init.{before_pages, heap_base, heap_layout, heap_init-Represents}
use osldr.Heap.Page.{heap_layout-Paged}
use osldr.Heap.Sound.{IsSound, given-IsSound, failed-IsSound, freed-IsSound}
use osldr.Heap.Resize.{resized-IsSound, not_resized-IsSound}

-- The calls that a program makes, from the heap that `HeapInit` has made: the list is that of the addresses
-- that `malloc` has given and that have not been given to `free`.
pub data Life (start : Heap) : Heap → List ℕ → Type 0 where
  begun : Life start start []
  failed :
      (n : ℕ) (h : Heap) (l : List ℕ)
      → Life start h l
      → n + 3 < 2 ^ 32
      → (malloc n h).0 ≡ none
      → Life start (malloc n h).1 l
  given :
      (n p : ℕ) (h : Heap) (l : List ℕ)
      → Life start h l
      → n + 3 < 2 ^ 32
      → (malloc n h).0 ≡ some p
      → Life start (malloc n h).1 (p ∷ l)
  freed :
      (p : ℕ) (h : Heap) (l : List ℕ)
      → Life start h l
      → 0 < count p l
      → Life start (free p h) (remove p l)
  resized :
      (p n q : ℕ) (h : Heap) (l : List ℕ)
      → Life start h l
      → 0 < count p l
      → 0 < n
      → n + 3 < 2 ^ 32
      → (realloc p n h).0 ≡ some q
      → Life start (realloc p n h).1 (q ∷ remove p l)
  not_resized :
      (p n : ℕ) (h : Heap) (l : List ℕ)
      → Life start h l
      → 0 < count p l
      → 0 < n
      → n + 3 < 2 ^ 32
      → (realloc p n h).0 ≡ none
      → Life start (realloc p n h).1 l

Life-IsSound :
    (base : ℕ) (start h : Heap) (l : List ℕ)
    → IsSound base start []
    → Life start h l
    → IsSound base h l
Life-IsSound base start h l s begun = s
Life-IsSound base start _ _ s (failed n h l v small e) =
    failed-IsSound base n h l small (Life-IsSound base start h l s v) e
Life-IsSound base start _ _ s (given n p h l v small e) =
    given-IsSound base n p h l small (Life-IsSound base start h l s v) e
Life-IsSound base start _ _ s (freed p h l v member) =
    freed-IsSound base p h l member (Life-IsSound base start h l s v)
Life-IsSound base start _ _ s (resized p n q h l v member pos small e) =
    resized-IsSound base p n q h l pos small member (Life-IsSound base start h l s v) e
Life-IsSound base start _ _ s (not_resized p n h l v member pos small e) =
    not_resized-IsSound base p n h l pos small member (Life-IsSound base start h l s v) e

-- On a piece of memory that begins above 0, reaches at least to its first boundary of 64 KB, stays away from 4 GB,
-- and behind whose last block no header of a free block seems to stand: after `HeapInit` and any number of
-- calls of `malloc` and `realloc`, with sizes that do not overflow when they are rounded up, and of `free`,
-- where `free` and `realloc` are given addresses that are out, the heap stands for blocks of which none
-- crosses a boundary of 64 KB, and the addresses that are out are the user areas of different blocks in use.
pub heap_init-IsSound :
    (address size : ℕ) (memory h : Heap) (l : List ℕ)
    → 0 < address
    → address + size + 2 ^ 17 < 2 ^ 32
    → before_pages address ≤ size
    → IsSentinel (memory.size (end_of (heap_base address) (heap_layout address size)))
    → Life (heap_init address size memory) h l
    → IsSound (heap_base address) h l
heap_init-IsSound address size memory h l pos small reach harmless =
    Life-IsSound (heap_base address) (heap_init address size memory) h l (record {
      blocks = heap_layout address size;
      represents = heap_init-Represents address size memory pos small reach harmless;
      paged = heap_layout-Paged address size pos;
      areas_used = λ a. omega arith;
    })
