-- ===== src/Heap/Free.antt =====
-- `free` joins a block with its free neighbours.
use osldr.Base.{
  ℕ, ◌+◌, ◌%◌, ◌<◌, ◌^◌, ◌≡◌, inl, inr, refl, sym, ◌∙◌, true, false, not, ◌&&◌, List, [], ◌∷◌, ◌++◌,
  Bool-cases, ◌==◌, if◌then◌else◌, add32, sub32, arith,
}
use mathlib.Core.List.{append_assoc}
use osldr.Heap.{
  block_size, Heap, masked, is_free, is_aligned, set_free, has_prev, remove, link, unlink, grow,
  merge_next, merge_prev, mark_free, is_empty, free,
}
use osldr.Heap.Replace.{Change, Represents-Change}
use osldr.Heap.Count.{count, count-remove}
use osldr.Heap.Blocks.{
  Block, encoded, after, end_of, end_of-append, end_of-le, masked-encoded, is_free-encoded,
  is_aligned-encoded, set_free-encoded, Represents,
}
use osldr.Heap.Malloc.{next-encoded, same_head}
use osldr.Heap.Join.{
  absorb, absorb-free, grow-Change, grown, has_next-head, head-member, header, header-fits,
  join_last, join_last-snoc, joins-test, last-cases, link-grow, member-behind, next-head,
}

module _ (m : ℕ) (b : Block) (h : Heap) (whole : b.size % 4 ≡ 0) (small : after m b < 2 ^ 32)
    (e : h.size m ≡ encoded b) where
  mark-Change :
      h.prev_size (after m b) ≡ encoded b
      → b.free ≡ false
      → Change h (link m (mark_free m h)) m (b ∷ []) (record b { free = true } ∷ [])
  unfolding mark_free
  mark-Change p used =
      let f : Block = record b { free = true } in
      let field : set_free (h.size m) ≡ encoded f = rw e (set_free-encoded b whole) in
      let field' : set_free (h.prev_size (after m b)) ≡ encoded f =
        rw p (set_free-encoded b whole) in
      let end : add32 (add32 m (masked (encoded f))) block_size ≡ after m b =
        next-encoded m f whole small in
      rw (mark_free, field, same_head m, end, field')
        (record {
          same_end = refl;
          headers = (ground arith, ground arith, whole, tt);
          size_below = λ a k. ground arith;
          size_above = λ a k. ground arith;
          prev_below = λ a k. ground arith;
          prev_above = λ a k. ground arith;
          list = λ a. rw used (omega arith);
          same_start = refl;
          same_total = refl;
        })

-- `h` with the block at `m` back on its list.
module _ (base : ℕ) (h : Heap) (xs : List Block) (b : Block) where
  abbrev m : ℕ
  m = end_of base xs

  merge_next-step :
      (ys : List Block)
      → Represents base (link m h) (xs ++ (b ∷ ys))
      → merge_next m h ≡ (
          if is_free (h.size (after m b)) && not (is_aligned (h.size (after m b)))
          then grow m (after m b) (unlink (after m b) h)
          else h)
  unfolding merge_next
  merge_next-step ys r =
      rw (merge_next, next-head base (link m h) xs b ys r, has_next-head base (link m h) xs b ys r)
        refl

  merge_next-Represents :
      (ys : List Block)
      → Represents base (link m h) (xs ++ (b ∷ ys))
      → b.free ≡ true
      → let (b', ys') = absorb b ys in Represents base (link m (merge_next m h)) (xs ++ (b' ∷ ys'))
  merge_next-Represents [] r is_f =
      let at : end_of base (xs ++ (b ∷ [])) ≡ after m b = end_of-append base xs (b ∷ []) in
      let s = r.sentinel in let s' = rw at at s in rw (merge_next-step [] r, s') r
  merge_next-Represents (c ∷ cs) r is_f =
      let k = header base (link m h) xs b (c ∷ cs) r in
      let q = after m b in
      let test = joins-test h.size q c k.3.0 k.3.2 in
      elim (Bool-cases (c.free && not c.aligned)) [
        | inr apart ↦
            let stays : merge_next m h ≡ h = merge_next-step (c ∷ cs) r ∙ rw (test, apart) refl in
            rw (stays, apart) r
        | inl joins ↦
            let c_free : c.free ≡ true = ground (arith, joins) in
            let room : after q c < 2 ^ 32 = omega (
              arith,
              end_of-append base xs (b ∷ c ∷ cs),
              end_of-le (after q c) cs,
              r.covers,
              r.fits,
            ) in
            let member : 0 < count q h.list =
              ground (arith, member-behind base (link m h) xs b c cs r c_free) in
            let change =
              grow-Change m b c (link m h) (m ∷ remove q h.list)
                (k.0, k.1, k.2, (k.3.0, k.3.1, k.3.2, tt)) room
                (λ a. rw (is_f, c_free) (omega (arith, count-remove a q h.list member))) in
            let result =
              Represents-Change base (link m h) _ xs (b ∷ c ∷ []) (grown b c ∷ []) cs r change in
            let step : merge_next m h ≡ grow m q (unlink q h) =
              merge_next-step (c ∷ cs) r ∙ rw (test, joins) refl in
            rw (step, joins) (rw (sym (link-grow m m q q m h)) at result)
      ]

module _ (base : ℕ) (h : Heap) (b : Block) (ys : List Block) (is_f : b.free ≡ true) where
  merge_prev-first :
      Represents base (link base h) (b ∷ ys)
      → let (m', h') = merge_prev base h in Represents base (link m' h') (b ∷ ys)
  unfolding merge_prev
  merge_prev-first r =
      let first : has_prev h base ≡ false = ground (arith, r.starts, r.fits) in
      rw (merge_prev, first) r

  merge_prev-snoc :
      (ws : List Block) (d : Block)
      → let m = after (end_of base ws) d in
        Represents base (link m h) (ws ++ (d ∷ b ∷ ys))
        → let (m', h') = merge_prev m h in
          Represents base
            (link m' h')
            (ws ++ ((if not b.aligned && d.free then grown d b ∷ [] else d ∷ b ∷ []) ++ ys))
  unfolding merge_prev
  merge_prev-snoc ws d r =
      let p = end_of base ws in
      let m = after p d in
      let k = header base (link m h) ws d (b ∷ ys) r in
      let room : after m b < 2 ^ 32 =
        omega
          (arith, end_of-append base ws (d ∷ b ∷ ys), end_of-le (after m b) ys, r.covers, r.fits) in
      let d_size = masked-encoded d k.2 in
      let at : sub32 (sub32 m (masked (h.prev_size m))) block_size ≡ p =
        rw k.1 (omega (arith, d_size, room)) in
      let second : has_prev h m ≡ true = ground (arith, r.starts, end_of-le base ws, room) in
      let tests : (not (is_aligned (h.size m)) && is_free (h.size p)) ≡ (not b.aligned && d.free) =
        rw (k.3.0, k.0, is_aligned-encoded b k.3.2, is_free-encoded d k.2) refl in
      elim (Bool-cases (not b.aligned && d.free)) [
        | inr apart ↦
            let stays : merge_prev m h ≡ (m, h) = rw (merge_prev, at, second, tests, apart) refl in
            rw (stays, apart) r
        | inl joins ↦
            let d_free : d.free ≡ true = ground (arith, joins) in
            let member : 0 < count p h.list =
              ground (arith, head-member base (link m h) ws d (b ∷ ys) r d_free) in
            let change =
              grow-Change p d b (link m h) (p ∷ remove p h.list)
                (k.0, k.1, k.2, (k.3.0, k.3.1, k.3.2, tt)) room
                (λ a. rw (is_f, d_free) (omega (arith, count-remove a p h.list member))) in
            let result =
              Represents-Change base (link m h) _ ws (d ∷ b ∷ []) (grown d b ∷ []) ys r change in
            let step : merge_prev m h ≡ (p, grow p m (unlink p h)) =
              rw (merge_prev, at, second, tests, joins) refl in
            rw (step, joins) (rw (sym (link-grow p p m p m h)) at result)
      ]

  merge_prev-Represents :
      (xs : List Block)
      → let m = end_of base xs in
        Represents base (link m h) (xs ++ (b ∷ ys))
        → let (m', h') = merge_prev m h in Represents base (link m' h') (join_last xs b ++ ys)
  merge_prev-Represents xs r = elim (last-cases xs) [
    | inl e ↦ rw e (merge_prev-first (rw e at r))
    | inr (ws, d, e) ↦
        let at : end_of base (ws ++ (d ∷ [])) ≡ after (end_of base ws) d =
          end_of-append base ws (d ∷ []) in
        let assoc = append_assoc ws (d ∷ []) (b ∷ ys) in
        let r' = rw (e, at, assoc) at r in
        rw (e, at, join_last-snoc ws d b, append_assoc) (merge_prev-snoc ws d r')
  ]

-- `free` on the user area of a block in use, on a heap that stands for a list of blocks and has a free
-- block: the heap then stands for the same
-- blocks with that one free, joined with the block behind if that is free and not aligned, and with the one
-- before if that is free and it is not aligned itself.
pub free-Represents :
    (base : ℕ) (h : Heap) (xs : List Block) (b : Block) (ys : List Block)
    → Represents base h (xs ++ (b ∷ ys))
    → b.free ≡ false
    → is_empty h.list ≡ false
    → let (b', ys') = absorb (record b { free = true }) ys in
      Represents base (free (end_of base xs + block_size) h) (join_last xs b' ++ ys')
unfolding free
free-Represents base h xs b ys r in_use some_free =
    let m = end_of base xs in
    let f : Block = record b { free = true } in
    let k = header base h xs b ys r in
    let room : after m b + block_size < 2 ^ 32 =
      omega (arith, header-fits base h xs b ys r, r.fits) in
    let change = mark-Change m b h k.2 (omega (arith, room)) k.0 k.1 in_use in
    let marked =
      Represents-Change base h (link m (mark_free m h)) xs (b ∷ []) (f ∷ []) ys r change in
    let joined = merge_next-Represents base (mark_free m h) xs f ys marked refl in
    let (b', ys') = absorb f ys in
    let result =
      merge_prev-Represents base (merge_next m (mark_free m h)) b' ys' (absorb-free f ys refl) xs
        joined in
    let block : sub32 (m + block_size) block_size ≡ m = omega (arith, room) in
    let there : (m + block_size == 0) ≡ false = ground arith in
    let not_free : is_free (h.size m) ≡ false = rw k.0 (is_free-encoded b k.2 ∙ in_use) in
    rw (free, block, some_free, there, not_free) result
