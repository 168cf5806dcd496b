-- ===== src/Heap/Widen.antt =====
-- `realloc` lets a block in use grow over the free block behind it.
use osldr.Base.{
  ℕ, ◌+◌, ◌-◌, ◌%◌, ◌≤◌, ◌<◌, ◌^◌, ◌≡◌, inl, inr, refl, sym, ◌∙◌, true, false, not, ◌&&◌, List, [],
  ◌∷◌, ◌++◌, Bool-cases, leb, add32, sub32, arith,
}
use osldr.Base.{leb→le}
use mathlib.Core.List.{append_assoc}
use osldr.Heap.{
  block_size, Heap, masked, is_free, is_aligned, aligned_bit, next, remove, unlink, grow, splice,
  can_widen, widen,
}
use osldr.Heap.Replace.{Change, Represents-Change}
use osldr.Heap.Count.{count, count-remove}
use osldr.Heap.Blocks.{
  Block, bit, after, end_of, end_of-append, end_of-le, Headers, masked-encoded, aligned_bit-encoded,
  Represents,
}
use osldr.Heap.Malloc.{used, spare, taken, splice_lem}
use osldr.Heap.Join.{
  grown, grow-Change, header, header-fits, next-head, has_next-head, joins-test, member-behind,
}

module _ (m n : ℕ) (b c : Block) (h : Heap) (k : Headers h.size h.prev_size m (b ∷ c ∷ []))
    (whole : n % 4 ≡ 0) (in_use : b.free ≡ false) (c_free : c.free ≡ true)
    (le : n ≤ b.size + c.size) (small : after (after m b) c < 2 ^ 32)
    (listed : 0 < count (after m b) h.list) where
  widen-splice :
      20 ≤ b.size + (block_size + c.size) - n
      → Change h
          (splice m n (b.size + (block_size + c.size) - n) (unlink (after m b) h))
          m
          (b ∷ c ∷ [])
          (used n b.aligned ∷ spare (b.size + (block_size + c.size) - n - block_size) ∷ [])
  widen-splice big =
      let u = used n b.aligned in
      let rest = b.size + (block_size + c.size) - n in
      let f = spare (rest - block_size) in
      let end : after (after m u) f ≡ after (after m b) c = omega arith in
      let bits : aligned_bit (h.size m) ≡ bit b.aligned 2 = rw k.0 (aligned_bit-encoded b k.2) in
      rw
        (splice_lem m n rest b.aligned (unlink (after m b) h) bits whole (omega (arith, k.2, k.3.2))
          big (omega arith))
        (record {
          same_end = end;
          headers = (
            ground arith,
            ground arith,
            whole,
            (ground arith, ground arith, omega (arith, k.2, k.3.2), tt),
          );
          size_below = λ a j. ground arith;
          size_above = λ a j. ground arith;
          prev_below = λ a j. ground arith;
          prev_above = λ a j. ground arith;
          list = λ a. rw (in_use, c_free) (omega (arith, count-remove a (after m b) h.list listed));
          same_start = refl;
          same_total = refl;
        })

  widen-Change : next h m ≡ after m b → Change h (widen m n h) m (b ∷ c ∷ []) (taken n (grown b c))
  unfolding widen grow
  widen-Change at =
      let q = after m b in
      let b_size = masked-encoded b k.2 in
      let c_size = masked-encoded c k.3.2 in
      let remainder : sub32 (add32 (add32 (masked (h.size m)) (masked (h.size q))) block_size) n
          ≡ b.size + (block_size + c.size) - n =
        rw (k.0, k.3.0, b_size, c_size) (omega arith) in
      elim (Bool-cases (leb 20 (b.size + (block_size + c.size) - n))) [
        | inl cut ↦ rw (widen, at, remainder, cut) (widen-splice (leb→le _ _ cut))
        | inr uncut ↦
            rw (widen, at, remainder, uncut, ← in_use)
              (grow-Change m b c h (remove q h.list) k small
                (λ a. rw (in_use, c_free) (omega (arith, count-remove a q h.list listed))))
      ]

-- What `can_widen` has found.
pub record CanWiden (n : ℕ) (b : Block) (ys : List Block) : Type 0 where
  pub next_block : Block
  pub behind : List Block
  pub split : ys ≡ next_block ∷ behind
  pub was_free : next_block.free ≡ true
  pub unaligned : next_block.aligned ≡ false
  pub fits : n ≤ b.size + next_block.size

-- A block of the heap, and the test on the field behind it.
module _ (base n : ℕ) (h : Heap) (xs : List Block) (b : Block) where
  abbrev m : ℕ
  m = end_of base xs

  can_widen-step :
      (ys : List Block)
      → Represents base h (xs ++ (b ∷ ys))
      → can_widen m n h ≡ (
          (is_free (h.size (after m b)) && not (is_aligned (h.size (after m b))))
          && leb n (add32 b.size (masked (h.size (after m b)))))
  unfolding can_widen
  can_widen-step ys r =
      let k = header base h xs b ys r in
      let size = masked-encoded b k.2 in
      rw (can_widen, next-head base h xs b ys r, has_next-head base h xs b ys r, k.0, size) refl

  pub can_widen-CanWiden :
      (ys : List Block)
      → Represents base h (xs ++ (b ∷ ys))
      → can_widen m n h ≡ true
      → CanWiden n b ys
  can_widen-CanWiden [] r e =
      let at : end_of base (xs ++ (b ∷ [])) ≡ after m b = end_of-append base xs (b ∷ []) in
      let s = r.sentinel in
      let s' = rw at at s in
      let e' : can_widen m n h ≡ false = can_widen-step [] r ∙ rw s' refl in absurd (cc (e, e'))
  can_widen-CanWiden (c ∷ cs) r e =
      let k = header base h xs b (c ∷ cs) r in
      let size = masked-encoded c k.3.2 in
      let fits =
        header-fits base h (xs ++ (b ∷ [])) c cs (rw (append_assoc xs (b ∷ []) (c ∷ cs)) r) in
      let test : ((c.free && not c.aligned) && leb n (add32 b.size c.size)) ≡ true =
        sym (
          can_widen-step (c ∷ cs) r
          ∙ rw (joins-test h.size (after m b) c k.3.0 k.3.2, k.3.0, size) refl)
        ∙ e in
      record {
        next_block = c;
        behind = cs;
        split = refl;
        was_free = ground (arith, test);
        unaligned = ground (arith, test);
        fits = ground (arith, test, fits, r.fits, end_of-append base xs (b ∷ []));
      }

  widen-next :
      (c : Block) (cs : List Block)
      → Represents base h (xs ++ (b ∷ c ∷ cs))
      → n % 4 ≡ 0
      → b.free ≡ false
      → c.free ≡ true
      → n ≤ b.size + c.size
      → Represents base (widen m n h) (xs ++ (taken n (grown b c) ++ cs))
  widen-next c cs r whole in_use c_free le =
      let k = header base h xs b (c ∷ cs) r in
      let room : after (after m b) c < 2 ^ 32 = omega (
        arith,
        end_of-append base xs (b ∷ c ∷ cs),
        end_of-le (after (after m b) c) cs,
        r.covers,
        r.fits,
      ) in
      let member = member-behind base h xs b c cs r c_free in
      Represents-Change base h (widen m n h) xs (b ∷ c ∷ []) (taken n (grown b c)) cs r (
        widen-Change m n b c h (k.0, k.1, k.2, (k.3.0, k.3.1, k.3.2, tt)) whole in_use c_free le
          room member (next-head base h xs b (c ∷ cs) r))

  pub widen-Represents :
      (ys : List Block) (w : CanWiden n b ys)
      → Represents base h (xs ++ (b ∷ ys))
      → n % 4 ≡ 0
      → b.free ≡ false
      → Represents base (widen m n h) (xs ++ (taken n (grown b w.next_block) ++ w.behind))
  widen-Represents ys w r whole in_use =
      let r' = rw w.split at r in widen-next w.next_block w.behind r' whole in_use w.was_free w.fits
