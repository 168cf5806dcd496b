-- ===== src/Heap.antt =====
-- The heap of src/stdlib.c: `malloc`, `free`, `realloc` and `HeapInit` over the headers of its blocks.
pub mod Blocks
pub mod Count
pub mod Replace
pub mod Malloc
pub mod Join
pub mod Free
pub mod RoundTrip
pub mod Page
pub mod Widen
pub mod Areas
pub mod Sound
pub mod Resize
pub mod Life
pub mod Safe
pub mod Full
pub mod Init
mod Tests
use osldr.Base.{
  ℕ, zero, suc, ◌+◌, ◌-◌, ◌*◌, ◌/◌, ◌%◌, ◌≤◌, ◌<◌, ◌^◌, min, max, ◌⊎◌, ◌↔◌, ◌≡◌, ◌≢◌, inl, inr,
  refl, sym, ap, ◌∙◌, Bool, true, false, not, ◌&&◌, ◌||◌, Option, none, some, List, [], ◌∷◌, ◌++◌,
  map, Bool-cases, Option-cases, leb, ltb, ◌==◌, if◌then◌else◌, add32, sub32, mul32, add64, sub64,
  mul64, arith, dec_le, dec_lt, ℕ_discrete, length, get_elem?, get_or, set, take, drop, replicate,
  Bytes, bit_and, bit_or, bit_xor,
}
use osldr.Allocator.{Allocator}

-- `BLOCKSIZE` and `MIN_BLOCKSIZE`
abbrev pub block_size : ℕ
block_size = 16

abbrev pub min_block_size : ℕ
min_block_size = 4

-- The fields `Size` and `PrevSize` of a header by its address, and the free blocks in the order of the
-- doubly linked list `HeapList`. What the blocks hold is left out.
pub record Heap : Type 0 where
  pub size : ℕ → ℕ
  pub prev_size : ℕ → ℕ
  pub list : List ℕ
  pub start : ℕ
  pub total : ℕ

-- The two low bits of a size are its flags: `x | BLOCK_FREE`, `x & ~BLOCK_FREE` and the two tests.
abbrev pub set_free : ℕ → ℕ
set_free x = x / 2 * 2 + 1

abbrev pub clear_free : ℕ → ℕ
clear_free x = x / 2 * 2

abbrev pub is_free : ℕ → Bool
is_free x = x % 2 == 1

abbrev pub is_aligned : ℕ → Bool
is_aligned x = x / 2 % 2 == 1

-- `x & BLOCK_ALIGNED`
abbrev pub aligned_bit : ℕ → ℕ
aligned_bit x = x / 2 % 2 * 2

-- `SIZEMASK`
abbrev pub masked : ℕ → ℕ
masked x = x / 4 * 4

abbrev pub align : ℕ → ℕ
align n = masked (add32 n 3)

abbrev pub update : (ℕ → ℕ) → ℕ → ℕ → ℕ → ℕ
update f p v q = if q == p then v else f q

abbrev pub set_size : ℕ → ℕ → Heap → Heap
set_size p v h = record h { size = update h.size p v }

abbrev pub set_prev_size : ℕ → ℕ → Heap → Heap
set_prev_size p v h = record h { prev_size = update h.prev_size p v }

abbrev pub next : Heap → ℕ → ℕ
next h p = add32 (add32 p (masked (h.size p))) block_size

abbrev pub prev : Heap → ℕ → ℕ
prev h p = sub32 (sub32 p (masked (h.prev_size p))) block_size

abbrev pub has_next : Heap → ℕ → Bool
has_next h p = leb (add32 p 4) (add32 h.start h.total)

abbrev pub has_prev : Heap → ℕ → Bool
has_prev h p = ltb h.start (add32 p 4)

pub remove : ℕ → List ℕ → List ℕ
remove p [] = []
remove p (q ∷ qs) = let rest = remove p qs in if q == p then qs else q ∷ rest

-- `Link` and `Unlink`
abbrev pub link : ℕ → Heap → Heap
link p h = record h { list = p ∷ h.list }

abbrev pub unlink : ℕ → Heap → Heap
unlink p h = record h { list = remove p h.list }

-- The search of `malloc`.
pub find_fit : ℕ → (ℕ → ℕ) → List ℕ → Option ℕ
find_fit n size [] = none
find_fit n size (p ∷ ps) = let rest = find_fit n size ps in if leb n (size p) then some p else rest

-- A block is cut into one of `n` bytes in use and a free one of `rest` bytes with its header.
pub splice : ℕ → ℕ → ℕ → Heap → Heap
splice block n rest h =
    let h = set_size block (n + aligned_bit (h.size block)) h in
    let new = next h block in
    let h = set_prev_size new (h.size block) h in
    let h = set_size new (set_free (rest - block_size)) h in
    let h = set_prev_size (next h new) (h.size new) h in link new h

-- The block that `malloc` has found, for `n` bytes.
pub use_block : ℕ → ℕ → Heap → Heap
use_block block n h =
    let remainder = sub32 (masked (h.size block)) n in
    let h = unlink block h in
    let whole = set_size block (clear_free (h.size block)) h in
    let whole =
      set_prev_size (next whole block) (clear_free (whole.prev_size (next whole block))) whole in
    if leb (min_block_size + block_size) remainder then splice block n remainder h else whole

pub malloc : ℕ → Heap → Option ℕ × Heap
malloc n h = elim (find_fit (align n) h.size h.list) [
  | none ↦ (none, h)
  | some block ↦ (some (add32 block block_size), use_block block (align n) h)
]

-- `kept` grows by the block `gone` behind it, which loses its header.
pub grow : ℕ → ℕ → Heap → Heap
grow kept gone h =
    let h = set_size kept (add32 (add32 (h.size kept) (masked (h.size gone))) block_size) h in
    set_prev_size (next h kept) (h.size kept) h

-- The merge with the block behind, and the one with the block before; the second also gives the block.
pub merge_next : ℕ → Heap → Heap
merge_next block h =
    let behind = next h block in
    if has_next h block && is_free (h.size behind) && not (is_aligned (h.size behind))
    then grow block behind (unlink behind h)
    else h

pub merge_prev : ℕ → Heap → ℕ × Heap
merge_prev block h =
    let before = prev h block in
    if has_prev h block && not (is_aligned (h.size block)) && is_free (h.size before)
    then (before, grow before block (unlink before h))
    else (block, h)

-- The marking of a block as free.
pub mark_free : ℕ → Heap → Heap
mark_free block h =
    let h = set_size block (set_free (h.size block)) h in
    set_prev_size (next h block) (set_free (h.prev_size (next h block))) h

pub is_empty : List ℕ → Bool
is_empty [] = true
is_empty (p ∷ ps) = false

pub free : ℕ → Heap → Heap
free address h =
    let block = sub32 address block_size in
    let (merged, h') = merge_prev block (merge_next block (mark_free block h)) in
    if is_empty h.list || address == 0 || is_free (h.size block) then h else link merged h'

-- A block of `HeapInit`, with the field `Size`.
pub init_block : ℕ → ℕ → Heap → Heap
init_block block size h =
    let h = set_size block size h in
    let h = set_prev_size (next h block) (h.size block) h in link block h

-- The loop of `HeapInit` over `k` blocks of 64 KB from the address on, from the last to the first.
pub init_pages : ℕ → ℕ → Heap → Heap
init_pages zero aligned h = h
init_pages (suc k) aligned h =
    let block = sub32 (add32 aligned (k * 65536)) 4 in
    init_pages k aligned (init_block block (masked (65536 - block_size) + 3) h)

-- A piece that cannot hold a header and 4 bytes is given up.
abbrev pub enough : ℕ → ℕ
enough n = if ltb n (block_size + min_block_size) then 0 else n

-- The blocks behind and before the whole pages, if they hold something.
pub init_last : ℕ → ℕ → Heap → Heap
init_last end after h =
    let last = init_block (sub32 end 4) (masked (after - block_size) + 3) h in
    if ltb 0 after then last else h

pub init_first : ℕ → ℕ → Heap → Heap
init_first address before h =
    let first = init_block (sub32 address 4) (set_free (before - block_size)) h in
    if ltb 0 before then first else h

-- `HeapInit`; the fields of the headers are those of the memory before.
pub heap_init : ℕ → ℕ → Heap → Heap
heap_init address size h =
    let address = add32 address 15 / 16 * 16 in
    let aligned = add32 address 65535 / 65536 * 65536 in
    let before = sub32 aligned address in
    let after = sub32 size before % 65536 in
    let size = sub32 (sub32 size before) after in
    let before = enough before in
    let after = enough after in
    let h : Heap = record h {
      list = [];
      start = sub32 aligned before;
      total = add32 (add32 before size) after;
    } in
    init_first address before
      (init_pages (size / 65536) aligned (init_last (add32 aligned size) after h))

-- The test of `realloc` for joining the block behind, and what it then does, for `n` bytes, rounded up.
pub can_widen : ℕ → ℕ → Heap → Bool
can_widen block n h =
    let behind = next h block in
    has_next h block
    && (is_free (h.size behind) && not (is_aligned (h.size behind)))
    && leb n (add32 (masked (h.size block)) (masked (h.size behind)))

pub widen : ℕ → ℕ → Heap → Heap
widen block n h =
    let behind = next h block in
    let remainder =
      sub32 (add32 (add32 (masked (h.size block)) (masked (h.size behind))) block_size) n in
    let h = unlink behind h in
    if leb (min_block_size + block_size) remainder
    then splice block n remainder h
    else grow block behind h

-- The end of `realloc`; that the contents are copied is left out.
pub move : ℕ → ℕ → Heap → Option ℕ × Heap
move address n h =
    let (copy, h') = malloc n h in
    elim copy [ none ↦ (none, h') | some p ↦ (some p, free address h') ]

pub realloc : ℕ → ℕ → Heap → Option ℕ × Heap
realloc address n h =
    let block = sub32 address block_size in
    let given = malloc n h in
    let moved = move address (align n) h in
    if n == 0
    then (none, free address h)
    else if address == 0
    then given
    else if is_empty h.list
    then (none, h)
    else if leb n (masked (h.size block))
    then (some address, h)
    else if can_widen block (align n) h
    then (some (add32 block block_size), widen block (align n) h)
    else moved

-- The heap as the rest of the program uses it.
abbrev pub allocator : Allocator Heap
allocator = record { malloc = malloc; free = free }
