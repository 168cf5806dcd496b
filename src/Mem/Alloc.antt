-- ===== src/Mem/Alloc.antt =====
-- `PhysAlloc` hands out free memory, and takes exactly that memory off the list.
use osldr.Base.{
  ℕ, ◌+◌, ◌-◌, ◌≤◌, ◌<◌, ◌^◌, ◌⊎◌, ◌≡◌, ◌≢◌, inl, inr, true, some, List, [], ◌∷◌, Bool-cases,
  Option-cases, ◌==◌, if◌then◌else◌, sub32, add64, sub64, arith,
}
use osldr.Allocator.{Allocator}
use osldr.Base.{bit_and-le}
use osldr.Base.{none}
use osldr.Mem.{
  PhysMem, one_mb, add_to_phys_list, Found, carve, align_up, start_in, fits, find_region,
  align_size, phys_alloc,
}
use osldr.Mem.Region.{Covers, Apart, AllApart, IsRegion, IsValid}
use osldr.Mem.Cover.{node, add_to_phys_list_gains}
use osldr.Mem.Add.{IsValid-AllRegions, AllApart-shrink, add_to_phys_list-IsValid}

-- The part behind the allocation, where one is left over.
abbrev pub After : ℕ → Found → Type 0
After size f =
    (f.after.1 ≡ 0)
    ⊎ (f.start + size ≤ f.after.0)
      × (0 < f.after.1)
      × (f.after.0 + f.after.1 < 2 ^ 64)
      × AllApart f.after.0 f.after.1 f.regions

-- The interval meets nothing of what the search leaves or takes.
abbrev Clear : ℕ → ℕ → ℕ → Found → Type 0
Clear s n size f =
    AllApart s n f.regions
    × Apart s n (node f.start size)
    × ((f.after.1 ≡ 0) ⊎ Apart s n (node f.after.0 f.after.1))

-- An address that is aligned lies below 4 GB, since `-Alignment` has 32 bits.
pub start_in-lt :
    (start alignment : ℕ) (c : PhysMem) → start < 2 ^ 32 → start_in start alignment c < 2 ^ 32
unfolding start_in align_up
start_in-lt start alignment c lt = elim (Bool-cases (start == 0)) [
  | inl z ↦
      rw z (omega (arith, bit_and-le (sub64 (add64 c.address alignment) 1) (sub32 0 alignment)))
  | inr z ↦ rw z lt
]

module _ (size : ℕ) (pos : 0 < size) (small : size < 2 ^ 63) where
  -- Where the cut leaves the rest of the list, apart from anything that the list was apart from.
  carve-Clear :
      (s n start : ℕ) (c : PhysMem) (cs : List PhysMem)
      → start < 2 ^ 32
      → IsRegion c
      → fits start size c ≡ true
      → Apart s n c
      → AllApart s n cs
      → Clear s n size (carve c cs start size)
  unfolding carve fits
  carve-Clear s n start c cs lt v e p q = ground arith

  -- What the search has done to a well-formed list `l`, at the address `x`.
  record Cut (x : ℕ) (l : List PhysMem) (f : Found) : Type 0 where
    low : f.start < 2 ^ 32
    valid : IsValid f.regions
    after_free : After size f
    taken : AllApart f.start size f.regions
    was_free : f.start ≤ x → x < f.start + size → Covers l x
    stays : Covers f.regions x → Covers l x
    after_was_free : f.after.0 ≤ x → x < f.after.0 + f.after.1 → Covers l x
    above : one_mb ≤ f.start

  carve-Cut :
      (x start : ℕ) (c : PhysMem) (cs : List PhysMem)
      → start < 2 ^ 32
      → IsValid (c ∷ cs)
      → fits start size c ≡ true
      → Cut x (c ∷ cs) (carve c cs start size)
  unfolding carve fits
  carve-Cut x start c cs lt v e = record {
    low = ground arith;
    valid = ground (arith, inside c.address (start - c.address), inside (start + size) tail_size);
    after_free = ground (arith, inside (start + size) tail_size);
    taken = ground (arith, inside start size);
    was_free = λ p q. ground arith;
    stays = λ p. ground arith;
    after_was_free = λ p q. ground arith;
    above = ground arith;
  }
    where
      tail_size : ℕ
      tail_size = c.address + c.size - (start + size)

      inside : (s n : ℕ) → c.address ≤ s → s + n ≤ c.address + c.size → AllApart s n cs
      inside s n p q = AllApart-shrink cs s n c.address c.size p q v.1

  Cut-cons :
      (x : ℕ) (c : PhysMem) (cs : List PhysMem) (g : Found)
      → IsValid (c ∷ cs)
      → Cut x cs g
      → Clear c.address c.size size g
      → Cut x (c ∷ cs) (record g { regions = c ∷ g.regions })
  Cut-cons x c cs g v k p = record {
    low = k.low;
    valid = (v.0, p.0, k.valid);
    after_free = ground arith;
    taken = (ground arith, k.taken);
    was_free = λ q r. inr (k.was_free q r);
    stays = λ q. ground (arith, k.stays);
    after_was_free = λ q r. inr (k.after_was_free q r);
    above = k.above;
  }

  find_region-Clear :
      (s n start alignment : ℕ) (l : List PhysMem) (f : Found)
      → start < 2 ^ 32
      → IsValid l
      → find_region start size alignment l ≡ some f
      → AllApart s n l
      → Clear s n size f
  unfolding find_region
  find_region-Clear s n start alignment [] f lt v e p = ground arith
  find_region-Clear s n start alignment (c ∷ cs) f lt v e p =
      elim (Bool-cases (fits (start_in start alignment c) size c)) [
        | inl t ↦ ground (
          arith,
          carve-Clear s n (start_in start alignment c) c cs (start_in-lt start alignment c lt) v.0 t
              p.0 p.1,
        )
        | inr t ↦ elim (Option-cases (find_region start size alignment cs)) [
          | inr (g, k) ↦ ground (arith, find_region-Clear s n start alignment cs g lt v.2 k p.1)
          | inl k ↦ ground arith
        ]
      ]

  find_region-Cut :
      (x start alignment : ℕ) (l : List PhysMem) (f : Found)
      → start < 2 ^ 32
      → IsValid l
      → find_region start size alignment l ≡ some f
      → Cut x l f
  unfolding find_region
  find_region-Cut x start alignment [] f lt v e = ground arith
  find_region-Cut x start alignment (c ∷ cs) f lt v e =
      elim (Bool-cases (fits (start_in start alignment c) size c)) [
        | inl t ↦
            let same : carve c cs (start_in start alignment c) size ≡ f = ground arith in
            rw same at
              (carve-Cut x (start_in start alignment c) c cs (start_in-lt start alignment c lt) v t)
        | inr t ↦ elim (Option-cases (find_region start size alignment cs)) [
          | inr (g, k) ↦
              let same : record g { regions = c ∷ g.regions } ≡ f = ground arith in
              rw same at (
                Cut-cons x c cs g v (find_region-Cut x start alignment cs g lt v.2 k)
                  (find_region-Clear c.address c.size start alignment cs g lt v.2 k v.1))
          | inl k ↦ ground arith
        ]
      ]

-- The list holds nothing of the allocated block any more, and nothing that it did not hold before.
pub record Taken (p n x : ℕ) (l l' : List PhysMem) : Type 0 where
  pub valid : IsValid l'
  pub was_free : p ≤ x → x < p + n → Covers l x
  pub no_more : Covers l' x → Covers l x × ((x < p) ⊎ (p + n ≤ x))

AllApart-Covers :
    (l : List PhysMem) (s n x : ℕ) → AllApart s n l → Covers l x → (x < s) ⊎ (s + n ≤ x)
AllApart-Covers [] s n x p w = absurd w
AllApart-Covers (r ∷ rs) s n x p (inl w) = ground arith
AllApart-Covers (r ∷ rs) s n x p (inr w) = AllApart-Covers rs s n x p.1 w

pub align_size-lt : (size : ℕ) → size < 2 ^ 62 → align_size size < 2 ^ 63
unfolding align_size
align_size-lt size h = omega arith

pub align_size-le :
    (size : ℕ) → size < 2 ^ 62 → (size ≤ align_size size) × (0 < align_size size → 0 < size)
unfolding align_size
align_size-le size small = (omega arith, λ pos. omega arith)

Cut-Taken-none :
    (size : ℕ) (pos : 0 < size) (small : size < 2 ^ 63) (x : ℕ) (l : List PhysMem) (f : Found)
    → Cut size pos small x l f
    → Taken f.start size x l f.regions
Cut-Taken-none size pos small x l f k = record {
  valid = k.valid;
  was_free = k.was_free;
  no_more = λ w. (k.stays w, AllApart-Covers f.regions f.start size x k.taken w);
}

module _ {H : Type 0} (a : Allocator H) (h : H) where
  Cut-Taken :
      (size : ℕ) (pos : 0 < size) (small : size < 2 ^ 63) (x : ℕ) (l : List PhysMem) (f : Found)
      → Cut size pos small x l f
      → (f.after.1 ≢ 0)
      → Taken f.start size x l (add_to_phys_list a f.after.0 f.after.1 f.regions h).1
  Cut-Taken size pos small x l f k ne =
      let free : (f.start + size ≤ f.after.0)
          × (0 < f.after.1)
          × (f.after.0 + f.after.1 < 2 ^ 64)
          × AllApart f.after.0 f.after.1 f.regions =
        elim k.after_free [ inl z ↦ absurd (ne z) | inr w ↦ w ] in
      let grown =
        add_to_phys_list_gains a f.after.0 f.after.1 f.regions h x free.1 free.2
          (IsValid-AllRegions f.regions k.valid) in
      record {
        valid =
            add_to_phys_list-IsValid a f.after.0 f.after.1 f.regions h free.1 free.2 k.valid free.3;
        was_free = k.was_free;
        no_more = λ w. elim (grown w) [
          | inl i ↦ (k.after_was_free i.0 i.1, inr (omega (arith, free.0, i.0)))
          | inr c ↦ (k.stays c, AllApart-Covers f.regions f.start size x k.taken c)
        ];
      }

  -- `PhysAlloc` on a well-formed list, for the sizes, addresses and alignments that the program
  -- passes: if it returns the address `p`, the size rounded up to 4 is not 0, the block of that
  -- size at `p` was free, at 1 MB or above, no part of it is free afterwards, nothing is free that
  -- was not before, and the list is well-formed again, whether or not the memory for a new node
  -- could be had.
  pub phys_alloc-Taken :
      (start size alignment x p : ℕ) (l : List PhysMem)
      → start < 2 ^ 32
      → size < 2 ^ 62
      → IsValid l
      → (phys_alloc a start size alignment l h).0 ≡ some p
      → (0 < align_size size)
        × (one_mb ≤ p)
        × Taken p (align_size size) x l (phys_alloc a start size alignment l h).2
  unfolding phys_alloc
  phys_alloc-Taken start size alignment x p l lt small v e =
      elim (Bool-cases (align_size size == 0)) [
        | inl z ↦ ground arith
        | inr z ↦
            elim (Option-cases
              (find_region start (align_size size) (if alignment == 0 then 1 else alignment) l)) [
                | inl n ↦ ground arith
                | inr (f, found) ↦
                    let size_pos : 0 < align_size size = ground arith in
                    let size_small : align_size size < 2 ^ 63 = align_size-lt size small in
                    let k =
                      find_region-Cut (align_size size) size_pos size_small x start
                        (if alignment == 0 then 1 else alignment) l f lt v found in
                    ground (
                      arith,
                      k.low,
                      k.above,
                      Cut-Taken-none (align_size size) size_pos size_small x l f k,
                      Cut-Taken (align_size size) size_pos size_small x l f k,
                    )
              ]
      ]

  -- Without memory the list stays.
  pub phys_alloc-none :
      (start size alignment : ℕ) (l : List PhysMem)
      → (phys_alloc a start size alignment l h).0 ≡ none
      → (phys_alloc a start size alignment l h).2 ≡ l
  unfolding phys_alloc
  phys_alloc-none start size alignment l e = ground arith
