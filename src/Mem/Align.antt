-- ===== src/Mem/Align.antt =====
-- With no address asked for, `PhysAlloc` returns a multiple of the alignment.
use osldr.Base.{
  ℕ, ◌-◌, ◌*◌, ◌/◌, ◌%◌, ◌<◌, ◌^◌, ◌≡◌, inl, inr, refl, ◌∙◌, true, some, List, [], ◌∷◌,
  Option-cases, ◌==◌, if◌then◌else◌, sub32, arith,
}
use native.Mathlib.Nat.{mul-mod_left, mod-mod_of_dvd, dvd_of_mod-eq-zero, one-le-pow}
use osldr.Allocator.{Allocator}
use osldr.Base.{bit_and_multiple, all_below, all_below-elim, ==_iff}
use osldr.Mem.{PhysMem, Found, carve, align_up, start_in, find_region, align_size, phys_alloc}

-- The masks of the alignments that are powers of two.
mask_table : all_below 32 (λ k. sub32 0 (2 ^ k) == (2 ^ 32 / 2 ^ k - 1) * 2 ^ k) ≡ true
unfolding all_below
mask_table = refl

mask : (k : ℕ) → k < 32 → sub32 0 (2 ^ k) ≡ (2 ^ 32 / 2 ^ k - 1) * 2 ^ k
mask k h = (==_iff _ _).0 (all_below-elim 32 _ k mask_table h)

align_up-mod : (k : ℕ) (address : ℕ) → k < 32 → align_up address (2 ^ k) % 2 ^ k ≡ 0
unfolding align_up
align_up-mod k address h = rw (mask k h, bit_and_multiple k) (mul-mod_left _ _)

module _ (size k : ℕ) (h : k < 32) where
  find_region-mod :
      (l : List PhysMem) (f : Found) → find_region 0 size (2 ^ k) l ≡ some f → f.start % 2 ^ k ≡ 0
  unfolding find_region start_in carve
  find_region-mod [] f e = ground arith
  find_region-mod (c ∷ cs) f e = elim (Option-cases (find_region 0 size (2 ^ k) cs)) [
    | inl n ↦ ground (arith, align_up-mod k c.address h)
    | inr (g, n) ↦ ground (arith, find_region-mod cs g n, align_up-mod k c.address h)
  ]

word_table : all_below 32 (λ k. 2 ^ 32 % 2 ^ k == 0) ≡ true
unfolding all_below
word_table = refl

word_multiple : (k : ℕ) → k < 32 → 2 ^ 32 % 2 ^ k ≡ 0
word_multiple k h = (==_iff _ _).0 (all_below-elim 32 _ k word_table h)

-- An address of at most 32 bits with an alignment below 2 ^ 32 is a multiple of it after the cast.
cast-mod : (k p : ℕ) → k < 32 → p % 2 ^ k ≡ 0 → p % 2 ^ 32 % 2 ^ k ≡ 0
cast-mod k p h e = mod-mod_of_dvd (2 ^ k) p (dvd_of_mod-eq-zero (2 ^ k) (word_multiple k h)) ∙ e

module _ {H : Type 0} (a : Allocator H) (h : H) where
  -- With address 0 and a power of two below 2 ^ 32 as the alignment (0 stands for 1), what `PhysAlloc`
  -- returns is a multiple of the alignment.
  pub phys_alloc-mod :
      (size k p : ℕ) (l : List PhysMem)
      → k < 32
      → (phys_alloc a 0 size (2 ^ k) l h).0 ≡ some p
      → p % 2 ^ k ≡ 0
  unfolding phys_alloc
  phys_alloc-mod size k p l lt e =
      let given : (if 2 ^ k == 0 then 1 else 2 ^ k) ≡ 2 ^ k = ground (arith, one-le-pow k 2) in
      let e' = rw given at e in
      elim (Option-cases (find_region 0 (align_size size) (2 ^ k) l)) [
        | inl n ↦ ground arith
        | inr (f, n) ↦
            ground (arith, cast-mod k f.start lt, find_region-mod (align_size size) k lt l f n)
      ]
