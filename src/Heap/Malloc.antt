-- ===== src/Heap/Malloc.antt =====
-- The block that `malloc` takes.
use osldr.Base.{
  ℕ, ◌+◌, ◌-◌, ◌%◌, ◌≤◌, ◌<◌, ◌^◌, ◌⊎◌, ◌≡◌, inl, inr, refl, Bool, true, false, Option, none, some,
  List, [], ◌∷◌, ◌++◌, Bool-cases, Option-cases, leb, ◌==◌, if◌then◌else◌, add32, sub32, arith,
}
use osldr.Base.{==_iff, leb→le}
use osldr.Heap.{
  block_size, min_block_size, Heap, update, masked, aligned_bit, set_free, clear_free, unlink,
  find_fit, splice, use_block, malloc, align,
}
use osldr.Heap.Replace.{Change, Represents-Change}
use osldr.Heap.Count.{count, count-remove}
use osldr.Heap.Blocks.{
  Block, bit, encoded, after, end_of, Headers, free_heads, end_of-append, end_of-le, Headers-split,
  masked-encoded, encoded-le, aligned_bit-encoded, clear_free-encoded, Represents, free_heads-At,
}

abbrev pub used : ℕ → Bool → Block
used n a = record { size = n; free = false; aligned = a }

abbrev pub spare : ℕ → Block
spare n = record { size = n; free = true; aligned = false }

-- What becomes of a block of which `n` bytes are taken.
abbrev pub taken : ℕ → Block → List Block
taken n b =
    if leb (min_block_size + block_size) (b.size - n)
    then used n b.aligned ∷ spare (b.size - n - block_size) ∷ []
    else record b { free = false } ∷ []

pub same_head : (p : ℕ) → (p == p) ≡ true
same_head p = (==_iff p p).1 refl

-- The end of a block from its field `Size`, without wrap-around.
pub next-encoded :
    (p : ℕ) (b : Block)
    → b.size % 4 ≡ 0
    → after p b < 2 ^ 32
    → add32 (add32 p (masked (encoded b))) block_size ≡ after p b
next-encoded p b whole small = let size = masked-encoded b whole in omega (arith, size)

-- `splice` writes two headers, and links the new one.
pub splice_lem :
    (m n rest : ℕ) (a : Bool) (h : Heap)
    → aligned_bit (h.size m) ≡ bit a 2
    → n % 4 ≡ 0
    → rest % 4 ≡ 0
    → 20 ≤ rest
    → m + (block_size + n) + rest < 2 ^ 32
    → let u = used n a in
      let f = spare (rest - block_size) in
      splice m n rest h ≡ record {
        size = update (update h.size m (encoded u)) (after m u) (encoded f);
        prev_size =
            update (update h.prev_size (after m u) (encoded u)) (after (after m u) f) (encoded f);
        list = after m u ∷ h.list;
        start = h.start;
        total = h.total;
      }
unfolding splice
splice_lem m n rest a h e whole whole' big small =
    let u = used n a in
    let f = spare (rest - block_size) in
    let bits : n + aligned_bit (h.size m) ≡ encoded u = omega (arith, e) in
    let free : set_free (rest - block_size) ≡ encoded f = omega arith in
    let new : add32 (add32 m (masked (encoded u))) block_size ≡ after m u =
      next-encoded m u whole (omega arith) in
    let end : add32 (add32 (after m u) (masked (encoded f))) block_size ≡ after (after m u) f =
      next-encoded (after m u) f (omega arith) (omega arith) in
    rw (splice, bits, same_head m, new, free, same_head (after m u), end) refl

module _ (m n : ℕ) (b : Block) (h : Heap) (e : h.size m ≡ encoded b)
    (p : h.prev_size (after m b) ≡ encoded b) (whole : b.size % 4 ≡ 0) (whole' : n % 4 ≡ 0)
    (le : n ≤ b.size) (is_free : b.free ≡ true) (small : after m b < 2 ^ 32)
    (listed : 0 < count m h.list) where
  splice-Change :
      20 ≤ b.size - n
      → Change h
          (splice m n (b.size - n) (unlink m h))
          m
          (b ∷ [])
          (used n b.aligned ∷ spare (b.size - n - block_size) ∷ [])
  splice-Change big =
      let u = used n b.aligned in
      let f = spare (b.size - n - block_size) in
      let end : after (after m u) f ≡ after m b = omega arith in
      let bits : aligned_bit (h.size m) ≡ bit b.aligned 2 = rw e (aligned_bit-encoded b whole) in
      rw
        (splice_lem m n (b.size - n) b.aligned (unlink m h) bits whole' (omega arith) big
          (omega arith))
        (record {
          same_end = end;
          headers = (
            ground arith,
            ground arith,
            whole',
            (ground arith, rw end (ground arith), omega arith, tt),
          );
          size_below = λ a k. ground arith;
          size_above = λ a k. ground arith;
          prev_below = λ a k. ground arith;
          prev_above = λ a k. ground arith;
          list = λ a. rw is_free (omega (arith, count-remove a m h.list listed));
          same_start = refl;
          same_total = refl;
        })

  use_block-Change : Change h (use_block m n h) m (b ∷ []) (taken n b)
  unfolding use_block
  use_block-Change =
      let size = masked-encoded b whole in
      let remainder : sub32 (masked (h.size m)) n ≡ b.size - n = rw e (omega (arith, size)) in
      let u : Block = record b { free = false } in
      let field : clear_free (h.size m) ≡ encoded u = rw e (clear_free-encoded b whole) in
      let field' : clear_free (h.prev_size (after m b)) ≡ encoded u =
        rw p (clear_free-encoded b whole) in
      let end : add32 (add32 m (masked (encoded u))) block_size ≡ after m b =
        next-encoded m u whole small in
      elim (Bool-cases (leb 20 (b.size - n))) [
        | inl big ↦ rw (use_block, remainder, big) (splice-Change (leb→le _ _ big))
        | inr few ↦
            rw (use_block, remainder, few, field, same_head m, end, field')
              (record {
                same_end = refl;
                headers = (ground arith, ground arith, whole, tt);
                size_below = λ a k. ground arith;
                size_above = λ a k. ground arith;
                prev_below = λ a k. ground arith;
                prev_above = λ a k. ground arith;
                list = λ a. rw is_free (omega (arith, count-remove a m h.list listed));
                same_start = refl;
                same_total = refl;
              })
      ]

find_fit-none :
    (n : ℕ) (size : ℕ → ℕ) (l : List ℕ) (a : ℕ)
    → find_fit n size l ≡ none
    → 0 < count a l
    → size a < n
unfolding find_fit
find_fit-none n size [] a e pos = absurd (omega arith)
find_fit-none n size (p ∷ ps) a e pos = ground (arith, find_fit-none n size ps a)

find_fit-some :
    (n : ℕ) (size : ℕ → ℕ) (l : List ℕ) (a : ℕ)
    → find_fit n size l ≡ some a
    → (0 < count a l) × (n ≤ size a)
unfolding find_fit
find_fit-some n size [] a e = ground arith
find_fit-some n size (p ∷ ps) a e = ground (arith, find_fit-some n size ps a)

-- A free block among the blocks, of which none is large enough.
abbrev pub NoneFits : ℕ → List Block → Type 0
NoneFits n [] = Unit
NoneFits n (b ∷ bs) = ((b.free ≡ false) ⊎ (b.size < n)) × NoneFits n bs

NoneFits-Headers :
    (n p : ℕ) (s v : ℕ → ℕ) (bs : List Block)
    → Headers s v p bs
    → ((a : ℕ) → 0 < count a (free_heads p bs) → s a < n)
    → NoneFits n bs
NoneFits-Headers n p s v [] h k = tt
NoneFits-Headers n p s v (b ∷ bs) h k = elim (Bool-cases b.free) [
  | inr f ↦ (inl f, NoneFits-Headers n (after p b) s v bs h.3 (rw f at k))
  | inl f ↦
      let k' = rw f at k in
      let this : s p < n = k' p (ground (arith, same_head p)) in
      (
        inr (omega (arith, this, h.0)),
        NoneFits-Headers n (after p b) s v bs h.3 (λ a pos. k' a (omega (arith, pos))),
      )
]

-- The block that is taken, its address, and the blocks that then stand for the heap.
pub record Taken (base n : ℕ) (bs : List Block) (r : Option ℕ × Heap) : Type 0 where
  pub before : List Block
  pub block : Block
  pub behind : List Block
  pub split : bs ≡ before ++ (block ∷ behind)
  pub was_free : block.free ≡ true
  pub fits : n ≤ block.size
  pub address : r.0 ≡ some (end_of base before + block_size)
  pub result : Represents base r.1 (before ++ (taken n block ++ behind))

malloc-Taken :
    (base n : ℕ) (h : Heap) (xs : List Block) (b : Block) (ys : List Block)
    → Represents base h (xs ++ (b ∷ ys))
    → b.free ≡ true
    → find_fit (align n) h.size h.list ≡ some (end_of base xs)
    → Taken base (align n) (xs ++ (b ∷ ys)) (malloc n h)
unfolding malloc
malloc-Taken base n h xs b ys r was_free e =
    let m = end_of base xs in
    let (member, enough) = find_fit-some (align n) h.size h.list m e in
    let (_, header) = Headers-split h.size h.prev_size base xs (b ∷ ys) r.headers in
    let le : align n ≤ b.size = omega (arith, enough, header.0, header.2, encoded-le b) in
    let room : after m b + block_size < 2 ^ 32 =
      omega (arith, end_of-append base xs (b ∷ ys), end_of-le (after m b) ys, r.covers, r.fits) in
    let change =
      use_block-Change m (align n) b h header.0 header.1 header.2 (omega arith) le was_free
        (omega (arith, room)) member in
    let word : add32 m block_size ≡ m + block_size = omega (arith, room) in
    record {
      before = xs;
      block = b;
      behind = ys;
      split = refl;
      was_free = was_free;
      fits = le;
      address = rw (malloc, e, word) refl;
      result =
          rw (malloc, e)
            (Represents-Change base h (use_block m (align n) h) xs (b ∷ []) (taken (align n) b) ys r
              change);
    }

-- `malloc` on a heap that stands for a list of blocks, for a size that does not overflow when it is rounded
-- up to a multiple of 4: if no free block has the rounded size, it returns NULL and changes nothing; else
-- it returns the user area of a free block that is large enough, and the heap then stands for the same
-- blocks with that one in use, cut in two if the rest can hold a header and 4 bytes.
pub malloc-Represents :
    (base n : ℕ) (h : Heap) (bs : List Block)
    → n + 3 < 2 ^ 32
    → Represents base h bs
    → NoneFits (align n) bs × (malloc n h ≡ (none, h)) ⊎ Taken base (align n) bs (malloc n h)
unfolding malloc
malloc-Represents base n h bs small r = elim (Option-cases (find_fit (align n) h.size h.list)) [
  | inl e ↦ inl (
    NoneFits-Headers (align n) base h.size h.prev_size bs r.headers
        (λ a pos. find_fit-none (align n) h.size h.list a e (omega (arith, pos, r.listed a))),
    rw (malloc, e) refl,
  )
  | inr (m, e) ↦
      let (member, enough) = find_fit-some (align n) h.size h.list m e in
      let (b, was_free) = free_heads-At base m bs (omega (arith, member, r.listed m)) in
      let r' : Represents base h (b.before ++ (b.block ∷ b.behind)) = rw b.split at r in
      let at = b.at in
      let e' : find_fit (align n) h.size h.list ≡ some (end_of base b.before) = rw at e in
      inr (rw b.split (malloc-Taken base n h b.before b.block b.behind r' was_free e'))
]
