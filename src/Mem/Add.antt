-- ===== src/Mem/Add.antt =====
-- `AddToPhysList` keeps the free regions apart, if the new region meets none of them.
use osldr.Base.{
  ℕ, ◌+◌, ◌≤◌, ◌<◌, ◌^◌, ◌≡◌, inl, inr, some, List, [], ◌∷◌, Option-cases, arith, length,
}
use osldr.Allocator.{Allocator}
use osldr.Mem.{PhysMem, join, join_first, insert, add_to_phys_list}
use osldr.Mem.Region.{Apart, AllApart, IsRegion, IsValid}
use osldr.Mem.Cover.{AllRegions, node, join-IsRegion, add_to_phys_list-cases}

pub IsValid-AllRegions : (l : List PhysMem) → IsValid l → AllRegions l
IsValid-AllRegions [] v = tt
IsValid-AllRegions (r ∷ rs) v = (v.0, IsValid-AllRegions rs v.2)

-- An interval that meets no region still meets none when it is made smaller.
pub AllApart-shrink :
    (l : List PhysMem) (s n t m : ℕ) → t ≤ s → s + n ≤ t + m → AllApart t m l → AllApart s n l
AllApart-shrink [] s n t m p q h = tt
AllApart-shrink (r ∷ rs) s n t m p q h = (ground arith, AllApart-shrink rs s n t m p q h.1)

module _ (start length : ℕ) (new : IsRegion (node start length)) where
  -- What is apart from the new region and from the node is apart from what they are joined to.
  join-Apart :
      (s n : ℕ) (c r : PhysMem)
      → 0 < n
      → IsRegion c
      → join start length c ≡ some r
      → Apart start length c
      → Apart s n c
      → Apart start length (node s n)
      → Apart s n r × Apart r.address r.size (node s n)
  unfolding join
  join-Apart s n c r pos v e p q t = ground arith

  -- The same for the node's neighbours in the list.
  join-AllApart :
      (cs : List PhysMem) (c r : PhysMem)
      → IsRegion c
      → IsValid cs
      → join start length c ≡ some r
      → Apart start length c
      → AllApart c.address c.size cs
      → AllApart start length cs
      → AllApart r.address r.size cs
  join-AllApart [] c r v w e p q t = tt
  join-AllApart (d ∷ ds) c r v w e p q t = (
    (join-Apart d.address d.size c r w.0.not_empty v e p (ground (arith, q.0)) t.0).1,
    join-AllApart ds c r v w.2 e p q.1 t.1,
  )

  join_first-AllApart :
      (s n : ℕ) (l l' : List PhysMem)
      → 0 < n
      → IsValid l
      → join_first start length l ≡ some l'
      → AllApart start length l
      → AllApart s n l
      → Apart start length (node s n)
      → AllApart s n l'
  unfolding join_first
  join_first-AllApart s n [] l' pos v e p q t = ground arith
  join_first-AllApart s n (c ∷ cs) l' pos v e p q t = elim (Option-cases (join start length c)) [
    | inr (r, j) ↦ ground (arith, join-Apart s n c r pos v.0 j p.0 q.0 t)
    | inl j ↦ elim (Option-cases (join_first start length cs)) [
      | inr (cs', k) ↦ ground (arith, join_first-AllApart s n cs cs' pos v.2 k p.1 q.1 t)
      | inl k ↦ ground arith
    ]
  ]

  join_first-IsValid :
      (l l' : List PhysMem)
      → IsValid l
      → AllApart start length l
      → join_first start length l ≡ some l'
      → IsValid l'
  unfolding join_first
  join_first-IsValid [] l' v p e = ground arith
  join_first-IsValid (c ∷ cs) l' v p e = elim (Option-cases (join start length c)) [
    | inr (r, j) ↦ ground (
      arith,
      join-IsRegion start length new c r v.0 j,
      join-AllApart cs c r v.0 v.2 j p.0 v.1 p.1,
    )
    | inl j ↦ elim (Option-cases (join_first start length cs)) [
      | inr (cs', k) ↦ ground (
        arith,
        join_first-IsValid cs cs' v.2 p.1 k,
        join_first-AllApart c.address c.size cs cs' v.0.not_empty v.2 k p.1 v.1 p.0,
      )
      | inl k ↦ ground arith
    ]
  ]

  pub insert-IsValid :
      {H : Type 0} (a : Allocator H) (l : List PhysMem) (h : H)
      → IsValid l
      → AllApart start length l
      → IsValid (insert a start length l h).1
  unfolding insert
  insert-IsValid a l h v p = elim (Option-cases (join_first start length l)) [
    | inr (l', j) ↦ ground (arith, join_first-IsValid l l' v p j)
    | inl j ↦ ground arith
  ]

-- `AddToPhysList` keeps the list well-formed (regions not empty, at 1 MB or above, inside 64 bits,
-- no two meeting), if the new region is not empty, ends inside 64 bits and meets no free region.
pub add_to_phys_list-IsValid :
    {H : Type 0} (a : Allocator H) (start length : ℕ) (l : List PhysMem) (h : H)
    → 0 < length
    → start + length < 2 ^ 64
    → IsValid l
    → AllApart start length l
    → IsValid (add_to_phys_list a start length l h).1
add_to_phys_list-IsValid a start length l h pos fits v p =
    elim (add_to_phys_list-cases a start length l h fits) [
      | inl (low, e) ↦ rw e v
      | inr (high, s, n, sum, which, e) ↦ rw e (
          insert-IsValid s n (omega arith) a l h v
            (AllApart-shrink l s n start length (omega arith) (omega arith) p))
    ]
