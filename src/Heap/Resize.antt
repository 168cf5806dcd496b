-- ===== src/Heap/Resize.antt =====
-- The heap and the addresses that are out, through `realloc`.
use osldr.Base.{
  ℕ, ◌+◌, ◌%◌, ◌≤◌, ◌<◌, ◌^◌, ◌⊎◌, ◌≡◌, inl, inr, refl, true, false, none, some, List, ◌∷◌, ◌++◌,
  Bool-cases, Option-cases, leb, ◌==◌, add32, sub32, arith,
}
use osldr.Heap.{
  block_size, Heap, remove, is_empty, align, malloc, free, realloc, can_widen, widen, move, masked,
}
use osldr.Heap.Count.{count, count-remove}
use osldr.Heap.Blocks.{end_of}
use osldr.Heap.Malloc.{taken}
use osldr.Heap.Join.{grown, header-fits}
use osldr.Heap.Page.{Paged-append, Paged-split, widened-Paged}
use osldr.Heap.Areas.{Area, areas-Area, widened-areas}
use osldr.Heap.Widen.{can_widen-CanWiden, widen-Represents}
use osldr.Heap.Sound.{IsSound, fewer-IsSound, given-IsSound, failed-IsSound, freed-IsSound}

-- The three ways of `realloc`.
realloc-cases :
    (p n : ℕ) (h : Heap)
    → 0 < p
    → 0 < n
    → let block = sub32 p block_size in
      (realloc p n h ≡ (none, h))
      ⊎ ((realloc p n h ≡ (some p, h))
          ⊎ ((can_widen block (align n) h ≡ true)
                × (realloc p n h ≡ (some (add32 block block_size), widen block (align n) h))
              ⊎ (realloc p n h ≡ move p (align n) h)))
unfolding realloc
realloc-cases p n h pos pos' =
    let some_bytes : (n == 0) ≡ false = ground arith in
    let not_null : (p == 0) ≡ false = ground arith in
    let block = sub32 p block_size in
    elim (Bool-cases (is_empty h.list)) [
      | inl empty ↦ inl (rw (realloc, some_bytes, not_null, empty) refl)
      | inr some_free ↦ elim (Bool-cases (leb n (masked (h.size block)))) [
        | inl enough ↦ inr (inl (rw (realloc, some_bytes, not_null, some_free, enough) refl))
        | inr short ↦ elim (Bool-cases (can_widen block (align n) h)) [
          | inl can ↦
              inr (inr (inl (can, rw (realloc, some_bytes, not_null, some_free, short, can) refl)))
          | inr cannot ↦
              inr (inr (inr (rw (realloc, some_bytes, not_null, some_free, short, cannot) refl)))
        ]
      ]
    ]

-- A growing block in use stays where it is.
widen-IsSound :
    (base p n : ℕ) (h : Heap) (l : List ℕ)
    → n % 4 ≡ 0
    → 0 < count p l
    → can_widen (sub32 p block_size) n h ≡ true
    → IsSound base h l
    → (add32 (sub32 p block_size) block_size ≡ p) × IsSound base (widen (sub32 p block_size) n h) l
widen-IsSound base p n h l whole member can s =
    let c : Area base s.blocks p =
      areas-Area base p s.blocks (omega (arith, member, s.areas_used p)) in
    let r = rw c.split at s.represents in
    let fits = header-fits base h c.before c.block c.behind r in
    let block : sub32 p block_size ≡ end_of base c.before = omega (arith, c.at, fits, r.fits) in
    let can' = rw block at can in
    let w = can_widen-CanWiden base n h c.before c.block c.behind r can' in
    let paged = rw (c.split, w.split) at s.paged in
    let used = rw (c.split, w.split) at s.areas_used in
    let (xs_paged, b_paged) = Paged-split base c.before (c.block ∷ w.next_block ∷ w.behind) paged in
    rw block (
      omega (arith, c.at, fits, r.fits),
      record {
        blocks = c.before ++ (taken n (grown c.block w.next_block) ++ w.behind);
        represents = widen-Represents base n h c.before c.block c.behind w r whole c.in_use;
        paged =
            Paged-append base c.before (taken n (grown c.block w.next_block) ++ w.behind) xs_paged (
              widened-Paged (end_of base c.before) n c.block w.next_block w.behind w.fits
                w.unaligned b_paged);
        areas_used = λ a. omega (
          arith,
          used a,
          widened-areas base n a c.before c.block w.next_block w.behind c.in_use w.was_free w.fits,
        );
      },
    )

move-IsSound :
    (base p n : ℕ) (h : Heap) (l : List ℕ)
    → n + 3 < 2 ^ 32
    → 0 < count p l
    → IsSound base h l
    → ((move p n h).0 ≡ none) × IsSound base (move p n h).1 l
      ⊎ ((q : ℕ) × ((move p n h).0 ≡ some q) × IsSound base (move p n h).1 (q ∷ remove p l))
unfolding move
move-IsSound base p n h l small member s = elim (Option-cases (malloc n h).0) [
  | inl e ↦ inl (rw (move, e) (refl, failed-IsSound base n h l small s e))
  | inr (q, e) ↦
      let given = given-IsSound base n q h l small s e in
      let freed = freed-IsSound base p (malloc n h).1 (q ∷ l) (omega (arith, member)) given in
      inr (
        rw (move, e)
          (
            q,
            refl,
            fewer-IsSound base (free p (malloc n h).1) (remove p (q ∷ l)) (q ∷ remove p l)
                (λ a. omega (arith, count-remove a p l member, count-remove a p (q ∷ l))) freed,
          ))
]

-- `realloc` of an area that is out.
realloc-IsSound :
    (base p n : ℕ) (h : Heap) (l : List ℕ)
    → 0 < n
    → n + 3 < 2 ^ 32
    → 0 < count p l
    → IsSound base h l
    → ((realloc p n h).0 ≡ none) × IsSound base (realloc p n h).1 l
      ⊎ ((q : ℕ) × ((realloc p n h).0 ≡ some q) × IsSound base (realloc p n h).1 (q ∷ remove p l))
realloc-IsSound base p n h l pos small member s =
    let c : Area base s.blocks p =
      areas-Area base p s.blocks (omega (arith, member, s.areas_used p)) in
    let same : (a : ℕ) → count a (p ∷ remove p l) ≤ count a l =
      λ a. omega (arith, count-remove a p l member) in
    elim (realloc-cases p n h (omega (arith, c.at)) pos) [
      | inl e ↦ inl (rw e (refl, s))
      | inr (inl e) ↦ inr (rw e (p, refl, fewer-IsSound base h l (p ∷ remove p l) same s))
      | inr (inr (inl (can, e))) ↦
          let (at, wide) = widen-IsSound base p (align n) h l (omega arith) member can s in
          inr (rw (e, at) (p, refl, fewer-IsSound base _ l (p ∷ remove p l) same wide))
      | inr (inr (inr e)) ↦ rw e (move-IsSound base p (align n) h l (omega arith) member s)
    ]

pub resized-IsSound :
    (base p n q : ℕ) (h : Heap) (l : List ℕ)
    → 0 < n
    → n + 3 < 2 ^ 32
    → 0 < count p l
    → IsSound base h l
    → (realloc p n h).0 ≡ some q
    → IsSound base (realloc p n h).1 (q ∷ remove p l)
resized-IsSound base p n q h l pos small member s e =
    elim (realloc-IsSound base p n h l pos small member s) [
      | inl (none_left, _) ↦ absurd (cc (e, none_left))
      | inr (q', e', s') ↦ let same : q' ≡ q = cc (e, e') in rw same at s'
    ]

pub not_resized-IsSound :
    (base p n : ℕ) (h : Heap) (l : List ℕ)
    → 0 < n
    → n + 3 < 2 ^ 32
    → 0 < count p l
    → IsSound base h l
    → (realloc p n h).0 ≡ none
    → IsSound base (realloc p n h).1 l
not_resized-IsSound base p n h l pos small member s e =
    elim (realloc-IsSound base p n h l pos small member s) [
      | inl (_, s') ↦ s'
      | inr (q', e', _) ↦ absurd (cc (e, e'))
    ]
