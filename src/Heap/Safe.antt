-- ===== src/Heap/Safe.antt =====
-- What the program sees of the heap: the user areas that are out.
use osldr.Base.{
  ℕ, ◌+◌, ◌-◌, ◌/◌, ◌≤◌, ◌<◌, ◌^◌, ◌≡◌, inl, inr, false, some, List, [], ◌∷◌, ◌++◌, Bool-cases, leb,
  arith, ℕ_discrete,
}
use osldr.Heap.{block_size, Heap, masked, malloc, align, heap_init}
use osldr.Heap.Count.{count}
use osldr.Heap.Blocks.{
  Block, after, end_of, end_of-append, end_of-le, Headers, Headers-split, masked-encoded,
  IsSentinel, Represents,
}
use osldr.Heap.Page.{Paged-split}
use osldr.Heap.Areas.{areas, Area, areas-Area}
use osldr.Heap.Init.{before_pages, heap_base, heap_layout}
use osldr.Heap.Malloc.{used, taken, malloc-Represents}
use osldr.Heap.Sound.{IsSound, given-IsSound}
use osldr.Heap.Life.{Life, heap_init-IsSound}

-- The size of a user area, from its header.
abbrev pub area_size : Heap → ℕ → ℕ
area_size h p = masked (h.size (p - block_size))

areas-low : (m a : ℕ) (bs : List Block) → 0 < count a (areas m bs) → m + 16 ≤ a
areas-low m a [] pos = absurd (omega arith)
areas-low m a (b ∷ bs) pos = elim (Bool-cases b.free) [
  | inl f ↦ omega (arith, areas-low (after m b) a bs (rw f at pos))
  | inr f ↦ ground (arith, rw f at pos, areas-low (after m b) a bs)
]

areas-once : (m a : ℕ) (bs : List Block) → count a (areas m bs) ≤ 1
areas-once m a [] = omega arith
areas-once m a (b ∷ bs) = elim (Bool-cases b.free) [
  | inl f ↦ rw f (areas-once (after m b) a bs)
  | inr f ↦ rw f (ground (arith, areas-once (after m b) a bs, areas-low (after m b) a bs))
]

areas-gap :
    (s v : ℕ → ℕ) (m p q : ℕ) (bs : List Block)
    → Headers s v m bs
    → 0 < count p (areas m bs)
    → 0 < count q (areas m bs)
    → p < q
    → p + masked (s (p - 16)) + 16 ≤ q
areas-gap s v m p q [] h pos pos' less = absurd (omega arith)
areas-gap s v m p q (b ∷ bs) h pos pos' less = elim (Bool-cases b.free) [
  | inl f ↦ areas-gap s v (after m b) p q bs h.3 (rw f at pos) (rw f at pos') less
  | inr f ↦
      let size = masked-encoded b h.2 in
      let first = rw f at pos in
      let second = rw f at pos' in
      elim (ℕ_discrete p (m + 16)) [
        | yes e ↦
            let head : p - 16 ≡ m = omega arith in
            let in_tail : 0 < count q (areas (after m b) bs) = ground (arith, second) in
            rw (head, h.0, size) (omega (arith, areas-low (after m b) q bs in_tail))
        | no ne ↦
            let in_tail : 0 < count p (areas (after m b) bs) = ground (arith, first) in
            let low = areas-low (after m b) p bs in_tail in
            areas-gap s v (after m b) p q bs h.3 in_tail (ground (arith, second, low)) less
      ]
]

-- An area of a sound heap, with its block.
module _ (base : ℕ) (h : Heap) (l : List ℕ) (p : ℕ) (s : IsSound base h l)
    (out : 0 < count p l) where
  here : Area base s.blocks p
  here = areas-Area base p s.blocks (omega (arith, out, s.areas_used p))

  area-size : area_size h p ≡ here.block.size
  area-size =
      let c = here in
      let r = rw c.split at s.represents in
      let (_, k) = Headers-split h.size h.prev_size base c.before (c.block ∷ c.behind) r.headers in
      let head : p - block_size ≡ end_of base c.before = omega (arith, c.at) in
      rw (head, k.0) (masked-encoded c.block k.2)

  area-page : (i : ℕ) → i < area_size h p → (p + i) / 65536 ≡ p / 65536
  area-page i less =
      let c = here in
      let paged = rw c.split at s.paged in
      let (_, v) = Paged-split base c.before (c.block ∷ c.behind) paged in
      let size = area-size in let same = v.0.0 in omega (arith, c.at, size, less, same)

  area-inside : (h.start + 12 ≤ p) × (p + area_size h p ≤ h.start + h.total)
  area-inside =
      let c = here in
      let r = rw c.split at s.represents in
      let end = end_of-append base c.before (c.block ∷ c.behind) in
      let size = area-size in
      (
        omega (arith, r.starts, c.at, end_of-le base c.before),
        omega (
          arith,
          r.starts,
          c.at,
          size,
          end,
          end_of-le (after (end_of base c.before) c.block) c.behind,
          r.covers,
        ),
      )

-- The block that `malloc` has taken holds what was asked for.
taken-size :
    (base n : ℕ) (h : Heap) (xs : List Block) (b : Block) (ys : List Block)
    → n ≤ b.size
    → Represents base h (xs ++ (taken n b ++ ys))
    → n ≤ masked (h.size (end_of base xs))
taken-size base n h xs b ys le r =
    let (_, k) = Headers-split h.size h.prev_size base xs (taken n b ++ ys) r.headers in
    elim (Bool-cases (leb 20 (b.size - n))) [
      | inl cut ↦
          let k' = rw cut at k in
          let size = masked-encoded (used n b.aligned) k'.2 in rw (k'.0, size) (omega arith)
      | inr uncut ↦
          let k' = rw uncut at k in
          let size = masked-encoded (record b { free = false }) k'.2 in rw (k'.0, size) le
    ]

given-size :
    (base n p : ℕ) (h : Heap) (bs : List Block)
    → n + 3 < 2 ^ 32
    → Represents base h bs
    → (malloc n h).0 ≡ some p
    → n ≤ area_size (malloc n h).1 p
given-size base n p h bs small r e = elim (malloc-Represents base n h bs small r) [
  | inl (_, none_fits) ↦ absurd (cc (e, none_fits))
  | inr t ↦
      let at : p ≡ end_of base t.before + block_size = cc (e, t.address) in
      let head : p - block_size ≡ end_of base t.before = omega arith in
      let size =
        taken-size base (align n) (malloc n h).1 t.before t.block t.behind t.fits t.result in
      rw head (omega (arith, size))
]

-- A heap in use, from `HeapInit` on.
module _ (address size : ℕ) (memory h : Heap) (l : List ℕ) (pos : 0 < address)
    (small : address + size + 2 ^ 17 < 2 ^ 32) (reach : before_pages address ≤ size)
    (harmless : IsSentinel (memory.size (end_of (heap_base address) (heap_layout address size))))
    (life : Life (heap_init address size memory) h l) where
  sound : IsSound (heap_base address) h l
  sound = heap_init-IsSound address size memory h l pos small reach harmless life

  -- On a heap that `HeapInit` has made on memory that begins above 0, reaches its first boundary of 64 KB, stays
  -- away from 4 GB and has no header of a free block behind it, after any calls of `malloc`, `free` and `realloc`
  -- with sizes that do not overflow and addresses that are out: two user areas that are out do
  -- not overlap, and a header lies between the end of the one and the start of the other.
  pub areas-apart :
      (p q : ℕ) → 0 < count p l → 0 < count q l → p < q → p + area_size h p + block_size ≤ q
  areas-apart p q out out' less =
      areas-gap h.size h.prev_size (heap_base address) p q sound.blocks sound.represents.headers
        (omega (arith, out, sound.areas_used p)) (omega (arith, out', sound.areas_used q)) less

  -- On a heap that `HeapInit` has made on memory that begins above 0, reaches its first boundary of 64 KB, stays
  -- away from 4 GB and has no header of a free block behind it, after any calls of `malloc`, `free` and `realloc`
  -- with sizes that do not overflow and addresses that are out: a user area that is out lies
  -- between the bounds of the heap, and all of its bytes lie in the page of 64 KB in which it begins.
  pub area-in_page :
      (p : ℕ)
      → 0 < count p l
      → (h.start + 12 ≤ p)
        × (p + area_size h p ≤ h.start + h.total)
        × ((i : ℕ) → i < area_size h p → (p + i) / 65536 ≡ p / 65536)
  area-in_page p out =
      let (low, high) = area-inside (heap_base address) h l p sound out in
      (low, high, area-page (heap_base address) h l p sound out)

  -- On a heap that `HeapInit` has made on memory that begins above 0, reaches its first boundary of 64 KB, stays
  -- away from 4 GB and has no header of a free block behind it, after any calls of `malloc`, `free` and `realloc`
  -- with sizes that do not overflow and addresses that are out: an address that `malloc` then
  -- gives for a size that does not overflow is not out yet, and its area has at least that size.
  pub malloc-fresh :
      (n p : ℕ)
      → n + 3 < 2 ^ 32
      → (malloc n h).0 ≡ some p
      → (count p l ≡ 0) × (n ≤ area_size (malloc n h).1 p)
  malloc-fresh n p no_overflow e =
      let given = given-IsSound (heap_base address) n p h l no_overflow sound e in
      let once = areas-once (heap_base address) p given.blocks in
      let head : count p (p ∷ l) ≡ 1 + count p l = ground arith in
      (
        omega (arith, given.areas_used p, once, head),
        given-size (heap_base address) n p h sound.blocks no_overflow sound.represents e,
      )
