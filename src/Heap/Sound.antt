-- ===== src/Heap/Sound.antt =====
-- The heap and the addresses that are out, through `malloc` and `free`.
use osldr.Base.{
  ℕ, ◌+◌, ◌≤◌, ◌<◌, ◌^◌, ◌≡◌, inl, inr, refl, sym, true, none, some, List, ◌∷◌, ◌++◌, Bool-cases,
  arith,
}
use osldr.Heap.{block_size, Heap, remove, is_empty, align, malloc, free}
use osldr.Heap.Count.{count, count-remove}
use osldr.Heap.Blocks.{Block, end_of, Represents}
use osldr.Heap.Malloc.{taken, malloc-Represents}
use osldr.Heap.Join.{absorb, join_last}
use osldr.Heap.Free.{free-Represents}
use osldr.Heap.Page.{Paged, Paged-append, Paged-split, taken-Paged, absorb-Paged, join_last-Paged}
use osldr.Heap.Areas.{areas, Area, areas-Area, taken-areas, freed-areas}

-- The heap stands for blocks of which none crosses a boundary of 64 KB, and each address of the list is the
-- user area of a block in use, for each time that it is in the list.
pub record IsSound (base : ℕ) (h : Heap) (l : List ℕ) : Type 0 where
  pub blocks : List Block
  pub represents : Represents base h blocks
  pub paged : Paged base blocks
  pub areas_used : (a : ℕ) → count a l ≤ count a (areas base blocks)

pub fewer-IsSound :
    (base : ℕ) (h : Heap) (l l' : List ℕ)
    → ((a : ℕ) → count a l' ≤ count a l)
    → IsSound base h l
    → IsSound base h l'
fewer-IsSound base h l l' less s = record {
  blocks = s.blocks;
  represents = s.represents;
  paged = s.paged;
  areas_used = λ a. omega (arith, less a, s.areas_used a);
}

pub given-IsSound :
    (base n p : ℕ) (h : Heap) (l : List ℕ)
    → n + 3 < 2 ^ 32
    → IsSound base h l
    → (malloc n h).0 ≡ some p
    → IsSound base (malloc n h).1 (p ∷ l)
given-IsSound base n p h l small s e =
    elim (malloc-Represents base n h s.blocks small s.represents) [
      | inl (_, none_fits) ↦ absurd (cc (e, none_fits))
      | inr t ↦
          let at : p ≡ end_of base t.before + block_size = cc (e, t.address) in
          let paged = rw t.split at s.paged in
          let (xs_paged, b_paged) = Paged-split base t.before (t.block ∷ t.behind) paged in
          let used = rw t.split at s.areas_used in
          record {
            blocks = t.before ++ (taken (align n) t.block ++ t.behind);
            represents = t.result;
            paged =
                Paged-append base t.before (taken (align n) t.block ++ t.behind) xs_paged
                  (taken-Paged (end_of base t.before) (align n) t.block t.behind t.fits b_paged);
            areas_used = λ a. rw at (
                omega (
                  arith,
                  used a,
                  taken-areas base (align n) a t.before t.block t.behind t.was_free t.fits,
                ));
          }
    ]

pub failed-IsSound :
    (base n : ℕ) (h : Heap) (l : List ℕ)
    → n + 3 < 2 ^ 32
    → IsSound base h l
    → (malloc n h).0 ≡ none
    → IsSound base (malloc n h).1 l
failed-IsSound base n h l small s e =
    elim (malloc-Represents base n h s.blocks small s.represents) [
      | inl (_, same) ↦ rw same s
      | inr t ↦ absurd (cc (e, t.address))
    ]

pub freed-IsSound :
    (base p : ℕ) (h : Heap) (l : List ℕ)
    → 0 < count p l
    → IsSound base h l
    → IsSound base (free p h) (remove p l)
unfolding free
freed-IsSound base p h l member s =
    let c : Area base s.blocks p =
      areas-Area base p s.blocks (omega (arith, member, s.areas_used p)) in
    let less : (a : ℕ) → count a (remove p l) ≤ count a l =
      λ a. omega (arith, count-remove a p l member) in
    elim (Bool-cases (is_empty h.list)) [
      | inl empty ↦
          let same : free p h ≡ h = rw (free, empty) refl in
          rw same (fewer-IsSound base h l (remove p l) less s)
      | inr some_free ↦
          let f : Block = record c.block { free = true } in
          let paged = rw c.split at s.paged in
          let (xs_paged, b_paged) = Paged-split base c.before (c.block ∷ c.behind) paged in
          let used = rw c.split at s.areas_used in
          let r = rw c.split at s.represents in
          let (f', ys') = absorb f c.behind in
          let absorbed = absorb-Paged (end_of base c.before) f c.behind b_paged in
          let result = free-Represents base h c.before c.block c.behind r c.in_use some_free in
          record {
            blocks = join_last c.before f' ++ ys';
            represents = rw (sym c.at) at result;
            paged =
                join_last-Paged base c.before f' ys'
                  (Paged-append base c.before (f' ∷ ys') xs_paged absorbed);
            areas_used = λ a. omega (
              arith,
              used a,
              count-remove a p l member,
              freed-areas base p a c.before c.block c.behind c.at c.in_use,
            );
          }
    ]
