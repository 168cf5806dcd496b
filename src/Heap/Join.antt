-- ===== src/Heap/Join.antt =====
-- Blocks that are joined with a neighbour, and the headers that say so.
use osldr.Base.{
  ℕ, ◌+◌, ◌%◌, ◌≤◌, ◌<◌, ◌^◌, ◌⊎◌, ◌≡◌, inl, inr, refl, ap, true, not, ◌&&◌, List, [], ◌∷◌, ◌++◌,
  Bool-cases, if◌then◌else◌, add32, arith,
}
use osldr.Heap.{
  block_size, Heap, masked, is_free, is_aligned, next, has_next, remove, link, unlink, grow,
}
use osldr.Heap.Replace.{Change, count-free_heads}
use osldr.Heap.Count.{count}
use osldr.Heap.Blocks.{
  Block, encoded, after, end_of, Headers, free_heads, end_of-append, end_of-le, Headers-split,
  masked-encoded, encoded-le, is_free-encoded, is_aligned-encoded, Represents,
}
use osldr.Heap.Malloc.{next-encoded, same_head}

-- A block with the one behind it.
abbrev pub grown : Block → Block → Block
grown b c = record b { size = b.size + (block_size + c.size) }

-- A free block with the blocks behind it, which it joins if the next is free and not aligned.
abbrev pub absorb : Block → List Block → Block × List Block
absorb b [] = (b, [])
absorb b (c ∷ cs) = if c.free && not c.aligned then (grown b c, cs) else (b, c ∷ cs)

-- The blocks before a free block, which joins the last one if that is free and it is not aligned itself.
abbrev pub join_last : List Block → Block → List Block
join_last [] b = b ∷ []
join_last (d ∷ []) b = if not b.aligned && d.free then grown d b ∷ [] else d ∷ b ∷ []
join_last (d ∷ e ∷ ds) b = d ∷ join_last (e ∷ ds) b

-- The block `c` behind `b` at `m` is joined to it, and the list changes.
pub grow-Change :
    (m : ℕ) (b c : Block) (h : Heap) (l : List ℕ)
    → Headers h.size h.prev_size m (b ∷ c ∷ [])
    → after (after m b) c < 2 ^ 32
    → ((a : ℕ)
        → count a l + count a (free_heads m (b ∷ c ∷ []))
          ≡ count a h.list + count a (free_heads m (grown b c ∷ [])))
    → Change h (record (grow m (after m b) h) { list = l }) m (b ∷ c ∷ []) (grown b c ∷ [])
unfolding grow
grow-Change m b c h l k small listed =
    let g = grown b c in
    let whole : g.size % 4 ≡ 0 = omega (arith, k.2, k.3.2) in
    let end : after m g ≡ after (after m b) c = omega arith in
    let c_size = masked-encoded c k.3.2 in
    let field : add32 (add32 (h.size m) (masked (h.size (after m b)))) block_size ≡ encoded g =
      rw (k.0, k.3.0, c_size) (omega (arith, small, encoded-le b)) in
    let end' : add32 (add32 m (masked (encoded g))) block_size ≡ after m g =
      next-encoded m g whole (omega (arith, small)) in
    rw (grow, field, same_head m, end')
      (record {
        same_end = end;
        headers = (ground arith, ground arith, whole, tt);
        size_below = λ a j. ground arith;
        size_above = λ a j. ground arith;
        prev_below = λ a j. ground arith;
        prev_above = λ a j. ground arith;
        list = listed;
        same_start = refl;
        same_total = refl;
      })

-- A header inside the heap, and what it says.
module _ (base : ℕ) (h : Heap) (xs : List Block) (b : Block) (ys : List Block)
    (r : Represents base h (xs ++ (b ∷ ys))) where
  pub header : Headers h.size h.prev_size (end_of base xs) (b ∷ ys)
  header = (Headers-split h.size h.prev_size base xs (b ∷ ys) r.headers).1

  pub header-fits : after (end_of base xs) b + block_size ≤ h.start + h.total + block_size
  header-fits =
      omega
        (arith, end_of-append base xs (b ∷ ys), end_of-le (after (end_of base xs) b) ys, r.covers)

  pub next-head : next h (end_of base xs) ≡ after (end_of base xs) b
  next-head =
      rw header.0 (next-encoded (end_of base xs) b header.2 (omega (arith, header-fits, r.fits)))

  pub has_next-head : has_next h (end_of base xs) ≡ true
  has_next-head = ground (arith, header-fits, r.fits)

-- The list does not matter to `grow`.
pub link-grow :
    (p kept gone q r : ℕ) (h : Heap)
    → link p (grow kept gone (unlink q h))
      ≡ record (grow kept gone (link r h)) { list = p ∷ remove q h.list }
unfolding grow
link-grow p kept gone q r h = refl

-- The test of a merge, on the block of the header.
pub joins-test :
    (size : ℕ → ℕ) (q : ℕ) (c : Block)
    → size q ≡ encoded c
    → c.size % 4 ≡ 0
    → (is_free (size q) && not (is_aligned (size q))) ≡ (c.free && not c.aligned)
joins-test size q c e whole = rw (e, is_free-encoded c whole, is_aligned-encoded c whole) refl

-- A free block behind another one is on the list.
pub member-behind :
    (base : ℕ) (h : Heap) (xs : List Block) (b c : Block) (cs : List Block)
    → Represents base h (xs ++ (b ∷ c ∷ cs))
    → c.free ≡ true
    → 0 < count (after (end_of base xs) b) h.list
member-behind base h xs b c cs r is_f =
    let m = end_of base xs in
    let q = after m b in
    let here : 0 < count q (free_heads m (b ∷ c ∷ cs)) = elim (Bool-cases b.free) [
      | inl f ↦ rw (f, is_f) (ground arith)
      | inr f ↦ rw (f, is_f) (ground arith)
    ] in
    omega (arith, r.listed q, count-free_heads q base xs (b ∷ c ∷ cs), here)

pub head-member :
    (base : ℕ) (h : Heap) (xs : List Block) (b : Block) (ys : List Block)
    → Represents base h (xs ++ (b ∷ ys))
    → b.free ≡ true
    → 0 < count (end_of base xs) h.list
head-member base h xs b ys r is_f =
    let m = end_of base xs in
    let here : 0 < count m (free_heads m (b ∷ ys)) = rw is_f (ground (arith, same_head m)) in
    omega (arith, r.listed m, count-free_heads m base xs (b ∷ ys), here)

pub join_last-snoc :
    (ws : List Block) (d b : Block)
    → join_last (ws ++ (d ∷ [])) b
      ≡ ws ++ (if not b.aligned && d.free then grown d b ∷ [] else d ∷ b ∷ [])
join_last-snoc [] d b = refl
join_last-snoc (w ∷ []) d b = refl
join_last-snoc (w ∷ x ∷ ws) d b = ap (λ (l : List Block). w ∷ l) (join_last-snoc (x ∷ ws) d b)

pub last-cases :
    (xs : List Block) → (xs ≡ []) ⊎ ((ws : List Block) × (d : Block) × (xs ≡ ws ++ (d ∷ [])))
last-cases [] = inl refl
last-cases (x ∷ xs) = elim (last-cases xs) [
  | inl e ↦ inr ([], x, ap (λ (l : List Block). x ∷ l) e)
  | inr (ws, d, e) ↦ inr (x ∷ ws, d, ap (λ (l : List Block). x ∷ l) e)
]

pub absorb-free : (b : Block) (ys : List Block) → b.free ≡ true → (absorb b ys).0.free ≡ true
absorb-free b [] f = f
absorb-free b (c ∷ cs) f = elim (Bool-cases (c.free && not c.aligned)) [
  | inl j ↦ rw j f
  | inr j ↦ rw j f
]
