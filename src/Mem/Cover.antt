-- ===== src/Mem/Cover.antt =====
-- `AddToPhysList` adds exactly the addresses of the new region that lie above 1 MB.
use osldr.Base.{
  ℕ, ◌+◌, ◌-◌, ◌≤◌, ◌<◌, ◌^◌, ◌⊎◌, ◌≡◌, inl, inr, refl, true, false, some, List, [], ◌∷◌,
  Option-cases, arith, dec_le, dec_lt, length,
}
use mathlib.Core.Path.{subst}
use osldr.Allocator.{Allocator}
use osldr.Mem.{PhysMem, one_mb, join, join_first, insert, add_to_phys_list}
use osldr.Mem.Region.{Within, Covers, IsRegion}

abbrev pub AllRegions : List PhysMem → Type 0
AllRegions [] = Unit
AllRegions (r ∷ rs) = IsRegion r × AllRegions rs

-- A region as a node.
abbrev pub node : ℕ → ℕ → PhysMem
node start length = record { address = start; size = length }

-- `l'` holds the address `x` exactly if the new region or `l` does.
abbrev pub Gains : ℕ → PhysMem → List PhysMem → List PhysMem → Type 0
Gains x new l l' =
    (Covers l' x → Within new x ⊎ Covers l x) × (Within new x ⊎ Covers l x → Covers l' x)

module _ (start length : ℕ) (new : IsRegion (node start length)) where
  pub join-IsRegion : (cur r : PhysMem) → IsRegion cur → join start length cur ≡ some r → IsRegion r
  unfolding join
  join-IsRegion cur r v e = ground arith

  pub join-Within :
      (x : ℕ) (cur r : PhysMem)
      → IsRegion cur
      → join start length cur ≡ some r
      → (Within r x → Within (node start length) x ⊎ Within cur x)
        × (Within (node start length) x ⊎ Within cur x → Within r x)
  unfolding join
  join-Within x cur r v e = (λ w. ground arith, λ w. ground arith)

  pub join_first-AllRegions :
      (l l' : List PhysMem) → AllRegions l → join_first start length l ≡ some l' → AllRegions l'
  unfolding join_first
  join_first-AllRegions [] l' v e = ground arith
  join_first-AllRegions (c ∷ cs) l' v e = elim (Option-cases (join start length c)) [
    | inr (r, j) ↦ ground (arith, join-IsRegion c r v.0 j)
    | inl j ↦ elim (Option-cases (join_first start length cs)) [
      | inr (cs', k) ↦ ground (arith, join_first-AllRegions cs cs' v.1 k)
      | inl k ↦ ground arith
    ]
  ]

  pub join_first-Gains :
      (x : ℕ) (l l' : List PhysMem)
      → AllRegions l
      → join_first start length l ≡ some l'
      → Gains x (node start length) l l'
  unfolding join_first
  join_first-Gains x [] l' v e = ground arith
  join_first-Gains x (c ∷ cs) l' v e = elim (Option-cases (join start length c)) [
    | inr (r, j) ↦ ground (arith, join-Within x c r v.0 j)
    | inl j ↦ elim (Option-cases (join_first start length cs)) [
      | inr (cs', k) ↦ ground (arith, join_first-Gains x cs cs' v.1 k)
      | inl k ↦ ground arith
    ]
  ]

  module _ {H : Type 0} (a : Allocator H) (l : List PhysMem) (h : H) (v : AllRegions l) where
    -- Either the node was made or joined, and the list has grown, or it is as it was.
    insert-cases :
        (x : ℕ)
        → let (ok, l', _) = insert a start length l h in
          AllRegions l' × ((ok ≡ true) × Gains x (node start length) l l' ⊎ (ok ≡ false) × (l' ≡ l))
    unfolding insert
    insert-cases x = elim (Option-cases (join_first start length l)) [
      | inr (l', j) ↦ ground (arith, join_first-AllRegions l l' v j, join_first-Gains x l l' v j)
      | inl j ↦ ground arith
    ]

-- What the new region is after the clipping to 1 MB.
abbrev pub Clipped : ℕ → ℕ → ℕ → Type 0
Clipped start length x = (one_mb ≤ x) × (start ≤ x) × (x < start + length)

module _ {H : Type 0} (a : Allocator H) (start length : ℕ) (l : List PhysMem) (h : H) where
  -- The three ways through `AddToPhysList` before the list is searched.
  pub add_to_phys_list-cases :
      start + length < 2 ^ 64
      → (start + length ≤ one_mb) × (add_to_phys_list a start length l h ≡ (true, l, h))
        ⊎ (one_mb < start + length)
          × (s : ℕ) × (n : ℕ) × (s + n ≡ start + length)
          × ((s ≡ start) × (one_mb ≤ start) ⊎ (s ≡ one_mb) × (start < one_mb))
          × (add_to_phys_list a start length l h ≡ insert a s n l h)
  unfolding add_to_phys_list
  add_to_phys_list-cases fits = elim (dec_le (start + length) one_mb) [
    | yes low ↦ inl (low, ground arith)
    | no high ↦ inr (elim (dec_lt start one_mb) [
      | yes below ↦ (
        omega arith,
        one_mb,
        start + length - one_mb,
        omega arith,
        inr (refl, below),
        ground arith,
      )
      | no above ↦ (omega arith, start, length, refl, inl (refl, omega arith), ground arith)
    ])
  ]

  -- `AddToPhysList` keeps every node a region. If it returns TRUE, the list holds an address
  -- exactly if it did before or the address lies in the new region at 1 MB or above; if it returns
  -- FALSE, the list is unchanged. The new region is not empty and ends inside 64 bits.
  pub add_to_phys_list-Covers :
      (x : ℕ)
      → 0 < length
      → start + length < 2 ^ 64
      → AllRegions l
      → let (ok, l', _) = add_to_phys_list a start length l h in
        AllRegions l'
        × ((ok ≡ true)
              × (Covers l' x → Clipped start length x ⊎ Covers l x)
              × (Clipped start length x ⊎ Covers l x → Covers l' x)
            ⊎ (ok ≡ false) × (l' ≡ l))
  add_to_phys_list-Covers x pos fits v = elim (add_to_phys_list-cases fits) [
    | inl (low, e) ↦ rw e (v, inl (refl, inr, λ w. ground arith))
    | inr (high, s, n, sum, which, e) ↦
        rw e (ground (arith, insert-cases s n (omega arith) a l h v x))
  ]

  -- Whatever `AddToPhysList` returns, nothing but the new region is added.
  pub add_to_phys_list_gains :
      (x : ℕ)
      → 0 < length
      → start + length < 2 ^ 64
      → AllRegions l
      → Covers (add_to_phys_list a start length l h).1 x
      → (start ≤ x) × (x < start + length) ⊎ Covers l x
  add_to_phys_list_gains x pos fits v w = elim (add_to_phys_list-Covers x pos fits v).1 [
    | inl (_, out, _) ↦ elim (out w) [ inl c ↦ inl (c.1, c.2) | inr o ↦ inr o ]
    | inr (_, same) ↦ inr (subst (λ l'. Covers l' x) same w)
  ]
