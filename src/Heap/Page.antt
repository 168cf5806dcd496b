-- ===== src/Heap/Page.antt =====
-- Blocks and the boundaries of 64 KB.
use osldr.Base.{
  ℕ, zero, suc, ◌+◌, ◌-◌, ◌*◌, ◌/◌, ◌%◌, ◌≤◌, ◌<◌, ◌⊎◌, ◌≡◌, inl, inr, refl, true, false, not, ◌&&◌,
  List, [], ◌∷◌, ◌++◌, Bool-cases, leb, ltb, arith, replicate,
}
use osldr.Base.{leb→le}
use osldr.Heap.Blocks.{Block, after, end_of}
use osldr.Heap.Malloc.{taken}
use osldr.Heap.Join.{grown, absorb, join_last}
use osldr.Heap.Init.{page, last_block, first_page, before_pages, heap_base, heap_layout}

-- A block, from its field `Size` to the end of its user area, lies in one page of 64 KB, and if it stands
-- at the start of the page it is marked as aligned.
abbrev pub InPage : ℕ → Block → Type 0
InPage p b =
    ((p + 4) / 65536 ≡ (p + 19 + b.size) / 65536) × ((0 < (p + 4) % 65536) ⊎ (b.aligned ≡ true))

abbrev pub Paged : ℕ → List Block → Type 0
Paged p [] = Unit
Paged p (b ∷ bs) = InPage p b × Paged (after p b) bs

pub Paged-append :
    (p : ℕ) (xs ys : List Block) → Paged p xs → Paged (end_of p xs) ys → Paged p (xs ++ ys)
Paged-append p [] ys v w = w
Paged-append p (x ∷ xs) ys v w = (v.0, Paged-append (after p x) xs ys v.1 w)

pub Paged-split :
    (p : ℕ) (xs ys : List Block) → Paged p (xs ++ ys) → Paged p xs × Paged (end_of p xs) ys
Paged-split p [] ys v = (tt, v)
Paged-split p (x ∷ xs) ys v = let (l, r) = Paged-split (after p x) xs ys v.1 in ((v.0, l), r)

-- Two neighbours of which the second is not aligned.
InPage-grown :
    (p : ℕ) (d b : Block)
    → InPage p d
    → InPage (after p d) b
    → b.aligned ≡ false
    → InPage p (grown d b)
InPage-grown p d b (same, start) (same', inl inside) a = (omega arith, start)
InPage-grown p d b v (same', inr aligned) a = absurd (cc (aligned, a))

pub taken-Paged :
    (p n : ℕ) (b : Block) (ys : List Block)
    → n ≤ b.size
    → Paged p (b ∷ ys)
    → Paged p (taken n b ++ ys)
taken-Paged p n b ys le v = elim (Bool-cases (leb 20 (b.size - n))) [
  | inl cut ↦
      let big : 20 ≤ b.size - n = leb→le _ _ cut in
      let same = v.0.0 in
      let end : p + (16 + n) + (16 + (b.size - n - 16)) ≡ after p b = omega arith in
      let inside : 0 < (p + (16 + n) + 4) % 65536 = omega (arith, same) in
      rw (cut, end) ((omega (arith, same), v.0.1), ((omega (arith, same), inl inside), v.1))
  | inr uncut ↦ rw uncut v
]

pub absorb-Paged :
    (p : ℕ) (b : Block) (ys : List Block)
    → Paged p (b ∷ ys)
    → let (b', ys') = absorb b ys in Paged p (b' ∷ ys')
absorb-Paged p b [] v = v
absorb-Paged p b (c ∷ cs) v = elim (Bool-cases (c.free && not c.aligned)) [
  | inl joins ↦
      let apart : c.aligned ≡ false = ground (arith, joins) in
      let end : after p (grown b c) ≡ after (after p b) c = omega arith in
      rw (joins, end) (InPage-grown p b c v.0 v.1.0 apart, v.1.1)
  | inr stays ↦ rw stays v
]

pub join_last-Paged :
    (p : ℕ) (xs : List Block) (b : Block) (ys : List Block)
    → Paged p (xs ++ (b ∷ ys))
    → Paged p (join_last xs b ++ ys)
join_last-Paged p [] b ys v = v
join_last-Paged p (d ∷ []) b ys v = elim (Bool-cases (not b.aligned && d.free)) [
  | inl joins ↦
      let apart : b.aligned ≡ false = ground (arith, joins) in
      let end : after p (grown d b) ≡ after (after p d) b = omega arith in
      rw (joins, end) (InPage-grown p d b v.0 v.1.0 apart, v.1.1)
  | inr stays ↦ rw stays v
]
join_last-Paged p (d ∷ e ∷ ds) b ys v = (v.0, join_last-Paged (after p d) (e ∷ ds) b ys v.1)

-- A block in use that grows over the one behind.
pub widened-Paged :
    (p n : ℕ) (b c : Block) (cs : List Block)
    → n ≤ b.size + c.size
    → c.aligned ≡ false
    → Paged p (b ∷ c ∷ cs)
    → Paged p (taken n (grown b c) ++ cs)
widened-Paged p n b c cs le apart v =
    let end : after p (grown b c) ≡ after (after p b) c = omega arith in
    taken-Paged p n (grown b c) cs (omega arith) (InPage-grown p b c v.0 v.1.0 apart, rw end v.1.1)

pages-Paged :
    (p k : ℕ) (bs : List Block)
    → (p + 4) % 65536 ≡ 0
    → Paged (p + k * 65536) bs
    → Paged p (replicate k page ++ bs)
pages-Paged p zero bs start v = let at : p + 0 * 65536 ≡ p = omega arith in rw at at v
pages-Paged p (suc k) bs start v =
    let at : p + suc k * 65536 ≡ p + 65536 + k * 65536 = omega arith in
    ((omega arith, inr refl), pages-Paged (p + 65536) k bs (omega arith) (rw at at v))

last-Paged : (p n : ℕ) → (p + 4) % 65536 ≡ 0 → n < 65536 → Paged p (last_block n)
last-Paged p n start few = elim (Bool-cases (ltb n 20)) [
  | inl none_left ↦ rw none_left tt
  | inr many ↦ rw many ((ground arith, inr refl), tt)
]

-- The blocks that `HeapInit` makes do not cross a boundary of 64 KB.
pub heap_layout-Paged :
    (address size : ℕ) → 0 < address → Paged (heap_base address) (heap_layout address size)
heap_layout-Paged address size pos =
    let n = before_pages address in
    let rest = size - n in
    let pages = rest / 65536 in
    let last = rest % 65536 in
    let start = first_page address - 4 in
    let whole : (start + 4) % 65536 ≡ 0 = omega arith in
    let whole_start : first_page address - 0 - 4 ≡ start = omega arith in
    let behind : Paged start (replicate pages page ++ last_block last) =
      pages-Paged start pages (last_block last) whole
        (last-Paged (start + pages * 65536) last (omega arith) (omega arith)) in
    elim (Bool-cases (ltb n 20)) [
      | inl few ↦ rw (few, whole_start) behind
      | inr many ↦
          let size' : 20 ≤ n = ground arith in
          let end : after (first_page address - n - 4)
                (record { size = n - 16; free = true; aligned = false })
              ≡ start =
            omega arith in
          rw (many, end) ((omega arith, inl (omega arith)), behind)
    ]
