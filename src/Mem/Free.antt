-- ===== src/Mem/Free.antt =====
-- `PhysFree` after `PhysAlloc` with the same size.
use osldr.Base.{◌⊎◌}
use osldr.Base.{
  ℕ, ◌+◌, ◌%◌, ◌≤◌, ◌<◌, ◌^◌, ◌≡◌, inl, inr, true, some, List, Option-cases, add64, sub64, arith,
  length,
}
use osldr.Allocator.{Allocator}
use osldr.Mem.{
  PhysMem, one_mb, sizeof_phys_mem, join_first, insert, add_to_phys_list, align_size, phys_alloc,
  phys_free,
}
use osldr.Mem.Region.{Covers, IsValid, AllApart}
use osldr.Mem.Cover.{add_to_phys_list-Covers, add_to_phys_list_gains}
use osldr.Mem.Add.{IsValid-AllRegions, add_to_phys_list-IsValid}
use osldr.Mem.Alloc.{phys_alloc-Taken}

module _ {H : Type 0} (a : Allocator H) where
  insert-ok :
      (start length q : ℕ) (l : List PhysMem) (h : H)
      → (a.malloc sizeof_phys_mem h).0 ≡ some q
      → (insert a start length l h).0 ≡ true
  unfolding insert
  insert-ok start length q l h given = elim (Option-cases (join_first start length l)) [
    | inl k ↦ ground (arith, given)
    | inr (l', k) ↦ ground arith
  ]

  pub add_to_phys_list-ok :
      (start length q : ℕ) (l : List PhysMem) (h : H)
      → (a.malloc sizeof_phys_mem h).0 ≡ some q
      → (add_to_phys_list a start length l h).0 ≡ true
  unfolding add_to_phys_list
  add_to_phys_list-ok start length q l h given = ground (
    arith,
    insert-ok one_mb (sub64 (add64 start length) one_mb) q l h given,
    insert-ok start length q l h given,
  )

  pub phys_alloc-lt :
      (start size alignment p : ℕ) (l : List PhysMem) (h : H)
      → (phys_alloc a start size alignment l h).0 ≡ some p
      → p < 2 ^ 32
  unfolding phys_alloc
  phys_alloc-lt start size alignment p l h e = ground arith

  -- `PhysAlloc` on a well-formed list, with a start below 4 GB and a size above 0 and below 2 ^ 62, has given a block,
  -- and the heap that it leaves has memory for one node: then `PhysFree` with the same size gives back exactly
  -- the first `size` bytes of the block, and not those to which the size was rounded up, which were free before.
  pub phys_free-phys_alloc :
      (start size alignment x p q : ℕ) (l : List PhysMem) (h : H)
      → start < 2 ^ 32
      → 0 < size
      → size < 2 ^ 62
      → IsValid l
      → (phys_alloc a start size alignment l h).0 ≡ some p
      → (a.malloc sizeof_phys_mem (phys_alloc a start size alignment l h).3).0 ≡ some q
      → let (_, _, l', h') = phys_alloc a start size alignment l h in
        let (l'', _) = phys_free a p size l' h' in
        (p ≤ x → x < p + size → Covers l'' x)
        × (p + size ≤ x → x < p + align_size size → Covers l x × (¬ Covers l'' x))
  unfolding phys_free
  phys_free-phys_alloc start size alignment x p q l h lt pos small v e given =
      let (rounded, above, t) = phys_alloc-Taken a h start size alignment x p l lt small v e in
      let l' : List PhysMem = (phys_alloc a start size alignment l h).2 in
      let h' : H = (phys_alloc a start size alignment l h).3 in
      let cast : p % 2 ^ 32 ≡ p = omega (arith, phys_alloc-lt start size alignment p l h e) in
      let fits : p + size < 2 ^ 64 = omega (arith, phys_alloc-lt start size alignment p l h e) in
      let regions = IsValid-AllRegions l' t.valid in
      rw cast (
        λ from to. elim (add_to_phys_list-Covers a p size l' h' x pos fits regions).1 [
          | inl (_, _, into) ↦ into (inl (omega arith, from, to))
          | inr (failed, _) ↦ absurd (cc (failed, add_to_phys_list-ok p size q l' h' given))
        ],
        λ from to. (
          t.was_free (omega arith) to,
          λ w. elim (add_to_phys_list_gains a p size l' h' x pos fits regions w) [
            | inl i ↦ absurd (omega (arith, i.1))
            | inr c ↦ elim (t.no_more c).1 [
              | inl below ↦ absurd (omega arith)
              | inr over ↦ absurd (omega arith)
            ]
          ],
        ),
      )

  -- What `PhysFree` leaves of the list when it is given back a block apart from it.
  pub phys_free-IsValid :
      (p size : ℕ) (l : List PhysMem) (h : H)
      → p < 2 ^ 32
      → 0 < size
      → size < 2 ^ 32
      → IsValid l
      → AllApart p size l
      → IsValid (phys_free a p size l h).0
  unfolding phys_free
  phys_free-IsValid p size l h low pos small v apart =
      let cast : p % 2 ^ 32 ≡ p = omega arith in
      rw cast (add_to_phys_list-IsValid a p size l h pos (omega arith) v apart)

  pub phys_free_gains :
      (p size x : ℕ) (l : List PhysMem) (h : H)
      → p < 2 ^ 32
      → 0 < size
      → size < 2 ^ 32
      → IsValid l
      → Covers (phys_free a p size l h).0 x
      → (p ≤ x) × (x < p + size) ⊎ Covers l x
  unfolding phys_free
  phys_free_gains p size x l h low pos small v w =
      let cast : p % 2 ^ 32 ≡ p = omega arith in
      let w' = rw cast at w in
      add_to_phys_list_gains a p size l h x pos (omega arith) (IsValid-AllRegions l v) w'
