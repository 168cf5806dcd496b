-- ===== src/Heap/Replace.antt =====
-- A change of some blocks in the middle of the heap.
use osldr.Base.{ℕ, ◌+◌, ◌≤◌, ◌<◌, ◌≡◌, sym, ap, ◌∙◌, List, ◌++◌, arith}
use osldr.Heap.{Heap}
use osldr.Heap.Count.{count, count-append}
use osldr.Heap.Blocks.{
  Block, end_of, Headers, free_heads, end_of-append, end_of-le, Headers-append, Headers-split,
  Headers-frame, Represents, free_heads-append,
}

pub count-free_heads :
    (a p : ℕ) (xs ys : List Block)
    → count a (free_heads p (xs ++ ys))
      ≡ count a (free_heads p xs) + count a (free_heads (end_of p xs) ys)
count-free_heads a p xs ys =
    ap (count a) (free_heads-append p xs ys)
    ∙ count-append a (free_heads p xs) (free_heads (end_of p xs) ys)

-- The blocks `old` at `m` become the blocks `new`, which fill the same place; the headers elsewhere and the
-- bounds of the heap stay, and the list changes by the free blocks of both.
pub record Change (h h' : Heap) (m : ℕ) (old new : List Block) : Type 0 where
  pub same_end : end_of m new ≡ end_of m old
  pub headers : Headers h'.size h'.prev_size m new
  pub size_below : (a : ℕ) → a < m → h'.size a ≡ h.size a
  pub size_above : (a : ℕ) → end_of m old ≤ a → h'.size a ≡ h.size a
  pub prev_below : (a : ℕ) → a ≤ m → h'.prev_size a ≡ h.prev_size a
  pub prev_above : (a : ℕ) → end_of m old < a → h'.prev_size a ≡ h.prev_size a
  pub list :
      (a : ℕ)
      → count a h'.list + count a (free_heads m old) ≡ count a h.list + count a (free_heads m new)
  pub same_start : h'.start ≡ h.start
  pub same_total : h'.total ≡ h.total

pub Represents-Change :
    (base : ℕ) (h h' : Heap) (xs old new ys : List Block)
    → Represents base h (xs ++ (old ++ ys))
    → Change h h' (end_of base xs) old new
    → Represents base h' (xs ++ (new ++ ys))
Represents-Change base h h' xs old new ys r c =
    let m = end_of base xs in
    let (before, rest) = Headers-split h.size h.prev_size base xs (old ++ ys) r.headers in
    let (_, behind) = Headers-split h.size h.prev_size m old ys rest in
    let old_end = end_of-append base xs (old ++ ys) ∙ end_of-append m old ys in
    let new_end = end_of-append base xs (new ++ ys) ∙ end_of-append m new ys in
    let same : end_of base (xs ++ (new ++ ys)) ≡ end_of base (xs ++ (old ++ ys)) =
      new_end ∙ ap (λ (p : ℕ). end_of p ys) c.same_end ∙ sym old_end in
    let le = end_of-le m old in
    record {
      headers =
          Headers-append h'.size h'.prev_size base xs (new ++ ys)
            (Headers-frame h.size h.prev_size h'.size h'.prev_size base xs before
              (λ a l k. c.size_below a k) (λ a l k. c.prev_below a k))
            (Headers-append h'.size h'.prev_size m new ys c.headers (
              rw c.same_end (
                Headers-frame h.size h.prev_size h'.size h'.prev_size (end_of m old) ys behind
                  (λ a l k. c.size_above a l) (λ a l k. c.prev_above a l))));
      listed = λ a.
          let tail : count a (free_heads (end_of m new) ys)
              ≡ count a (free_heads (end_of m old) ys) =
            ap (λ (p : ℕ). count a (free_heads p ys)) c.same_end in
          omega (
            arith,
            r.listed a,
            c.list a,
            tail,
            count-free_heads a base xs (new ++ ys),
            count-free_heads a base xs (old ++ ys),
            count-free_heads a m new ys,
            count-free_heads a m old ys,
          );
      starts = c.same_start ∙ r.starts;
      covers = rw (same, c.same_start, c.same_total) r.covers;
      fits = rw (c.same_start, c.same_total) r.fits;
      sentinel =
          let above : end_of m old ≤ end_of base (xs ++ (old ++ ys)) =
            omega (arith, old_end, end_of-le (end_of m old) ys) in
          rw (same, c.size_above (end_of base (xs ++ (old ++ ys))) above) r.sentinel;
    }
