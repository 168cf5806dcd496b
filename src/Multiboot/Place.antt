-- ===== src/Multiboot/Place.antt =====
-- Files that are read into memory from `PhysAlloc`: what changes, and what is given back.
use osldr.Base.{
  ℕ, ◌+◌, ◌≤◌, ◌<◌, ◌^◌, ◌⊎◌, ◌≡◌, inl, inr, refl, ◌∙◌, Bool, none, some, List, [], ◌∷◌, Bool-cases,
  Option-cases, leb, ◌==◌, if◌then◌else◌, arith, dec_le, length, Bytes,
}
use osldr.Allocator.{Allocator}
use osldr.Files.{Files, ReadsAtMost, Machine, store}
use osldr.Mem.{PhysMem, align_size, phys_alloc, phys_free}
use osldr.Mem.Region.{Covers, IsValid, AllApart}
use osldr.Mem.Alloc.{align_size-le, phys_alloc-Taken, phys_alloc-none}
use osldr.Mem.Free.{phys_alloc-lt, phys_free-IsValid, phys_free_gains}
use osldr.Multiboot.{place_sized, place_file}

-- A list none of whose addresses lies in an interval is apart from it.
Clear-AllApart :
    (p n : ℕ) (l : List PhysMem)
    → 0 < n
    → IsValid l
    → ((x : ℕ) → Covers l x → (x < p) ⊎ (p + n ≤ x))
    → AllApart p n l
Clear-AllApart p n [] pos v c = tt
Clear-AllApart p n (r ∷ rs) pos v c =
    let low : r.address ≤ p → (p + n ≤ r.address) ⊎ (r.address + r.size ≤ p) = λ le.
      elim (dec_le (r.address + r.size) p) [
        | yes below ↦ inr below
        | no above ↦ absurd (ground (arith, c p (inl (le, omega (arith, above)))))
      ] in
    let first : (p + n ≤ r.address) ⊎ (r.address + r.size ≤ p) = elim (dec_le r.address p) [
      | yes le ↦ low le
      | no above ↦
          ground
            (arith, v.0.not_empty, c r.address (inl (omega arith, omega (arith, v.0.not_empty))))
    ] in
    (first, Clear-AllApart p n rs pos v.2 (λ x w. c x (inr w)))

-- A step from one state to the next that takes memory only from the free list, and changes no memory but
-- what the free list held.
pub record Within {H W : Type 0} (s s' : Machine H W) : Type 0 where
  pub valid : IsValid s'.regions
  pub was_free : (x : ℕ) → Covers s'.regions x → Covers s.regions x
  pub kept : (x : ℕ) → (¬ Covers s.regions x) → s'.memory x ≡ s.memory x

pub Within-trans :
    {H W : Type 0} (s s' s'' : Machine H W) → Within s s' → Within s' s'' → Within s s''
Within-trans s s' s'' u v = record {
  valid = v.valid;
  was_free = λ x w. u.was_free x (v.was_free x w);
  kept = λ x out. v.kept x (λ w. out (u.was_free x w)) ∙ u.kept x out;
}

pub Within-heap :
    {H W : Type 0} (s s' : Machine H W) (h : H) (w : W)
    → Within s s'
    → Within s (record s' { heap = h; world = w })
Within-heap s s' h w v = record { valid = v.valid; was_free = v.was_free; kept = v.kept }

-- The interval of `n` addresses from `p` on was free, and is not any more.
abbrev pub Took : {H W : Type 0} → Machine H W → Machine H W → ℕ → ℕ → Type 0
Took s s' p n = (x : ℕ) → p ≤ x → x < p + n → Covers s.regions x × (¬ Covers s'.regions x)

pub store-outside :
    (p x : ℕ) (bytes : Bytes) (memory : ℕ → ℕ)
    → (x < p) ⊎ (p + length bytes ≤ x)
    → store p bytes memory x ≡ memory x
store-outside p x bytes memory out = ground arith

module _ {H F W : Type 0} (a : Allocator H) (io : Files F W) (short : ReadsAtMost F W io) where
  -- The block that `PhysAlloc` gives for a file, and what is in it after the reading.
  pub read-Within :
      (start size alignment p count : ℕ) (f : F) (s : Machine H W)
      → start < 2 ^ 32
      → size < 2 ^ 32
      → count ≤ size
      → IsValid s.regions
      → (phys_alloc a start size alignment s.regions s.heap).0 ≡ some p
      → let (bytes, w) = io.read_file f count s.world in
        let r = phys_alloc a start size alignment s.regions s.heap in
        let s' : Machine H W = record {
          memory = store p bytes s.memory;
          regions = r.2;
          heap = r.3;
          world = w;
        } in
        Within s s' × Took s s' p size
  read-Within start size alignment p count f s low small le v e =
      let taken = λ (x : ℕ).
        phys_alloc-Taken a s.heap start size alignment x p s.regions low (omega arith) v e in
      let round : size ≤ align_size size = (align_size-le size (omega arith)).0 in
      let fits = short f count s.world in
      (
        record {
          valid = (taken 0).2.valid;
          was_free = λ x w. ((taken x).2.no_more w).0;
          kept = λ x out.
              let apart : (x < p) ⊎ (p + size ≤ x) = elim (dec_le p x) [
                | no low' ↦ inl (omega arith)
                | yes from ↦ elim (dec_le (p + size) x) [
                  | yes over ↦ inr over
                  | no to ↦ absurd (out ((taken x).2.was_free from (omega (arith, to, round))))
                ]
              ] in
              store-outside p x (io.read_file f count s.world).0 s.memory
                (ground (arith, apart, fits, le));
        },
        λ x from to. (
          (taken x).2.was_free from (omega (arith, round)),
          λ w. ground (arith, ((taken x).2.no_more w).1, round),
        ),
      )

  pub read_positive :
      (start size alignment p : ℕ) (s : Machine H W)
      → start < 2 ^ 32
      → size < 2 ^ 32
      → IsValid s.regions
      → (phys_alloc a start size alignment s.regions s.heap).0 ≡ some p
      → 0 < size
  read_positive start size alignment p s low small v e =
      (align_size-le size (omega arith)).1
        (phys_alloc-Taken a s.heap start size alignment 0 p s.regions low (omega arith) v e).0

  -- What was taken and is given back again.
  pub free-Within :
      (s s' : Machine H W) (p n : ℕ)
      → p < 2 ^ 32
      → 0 < n
      → n < 2 ^ 32
      → Within s s'
      → Took s s' p n
      → let (regions, heap) = phys_free a p n s'.regions s'.heap in
        Within s (record s' { regions = regions; heap = heap })
  free-Within s s' p n low pos small within took =
      let clear : (x : ℕ) → Covers s'.regions x → (x < p) ⊎ (p + n ≤ x) = λ x w. elim (dec_le p x) [
        | no below ↦ inl (omega arith)
        | yes from ↦ elim (dec_le (p + n) x) [
          | yes over ↦ inr over
          | no inside ↦ absurd ((took x from (omega arith)).1 w)
        ]
      ] in
      record {
        valid =
            phys_free-IsValid a p n s'.regions s'.heap low pos small within.valid
              (Clear-AllApart p n s'.regions pos within.valid clear);
        was_free = λ x w.
            elim (phys_free_gains a p n x s'.regions s'.heap low pos small within.valid w) [
              | inl i ↦ (took x i.0 i.1).0
              | inr c ↦ within.was_free x c
            ];
        kept = within.kept;
      }

  -- `place_sized` gives a block of the size of the file, or gives back what it took.
  place_sized-Within :
      (page_align : Bool) (size : ℕ) (f : F) (s : Machine H W)
      → size < 2 ^ 32
      → IsValid s.regions
      → let (r, s') = place_sized a io page_align size f s in
        Within s s' × ((p : ℕ) → r ≡ some p → (p < 2 ^ 32) × Took s s' p size)
  unfolding place_sized
  place_sized-Within page_align size f s small v =
      let alignment : ℕ = if page_align then 4096 else 0 in
      elim (Option-cases (phys_alloc a 0 size alignment s.regions s.heap).0) [
        | inl failed ↦
            let same = phys_alloc-none a s.heap 0 size alignment s.regions failed in
            rw (place_sized, failed)
              (
                record { valid = rw same v; was_free = λ x w. rw same at w; kept = λ x out. refl },
                λ p e. absurd (cc e),
              )
        | inr (p, e) ↦
            let (within, took) =
              read-Within 0 size alignment p size f s (omega arith) small (omega arith) v e in
            elim (Bool-cases (length (io.read_file f size s.world).0 == size)) [
              | inl whole ↦
                  rw (place_sized, e, whole)
                    (
                      within,
                      λ q same.
                          let at : p ≡ q = cc same in
                          let low = phys_alloc-lt a 0 size alignment p s.regions s.heap e in
                          (omega (arith, low, at), rw at at took),
                    )
              | inr part ↦
                  rw (place_sized, e, part)
                    (
                      free-Within s _ p size (phys_alloc-lt a 0 size alignment p s.regions s.heap e)
                          (read_positive 0 size alignment p s (omega arith) small v e) small within
                          took,
                      λ q same. absurd (cc same),
                    )
            ]
      ]

  pub place_file-Within :
      (page_align : Bool) (f : F) (s : Machine H W)
      → IsValid s.regions
      → let size = io.file_size f s.world in
        let (r, s') = place_file a io page_align f s in
        Within s s' × ((p : ℕ) → r ≡ some p → (size < 2 ^ 32) × (p < 2 ^ 32) × Took s s' p size)
  unfolding place_file
  place_file-Within page_align f s v =
      let size = io.file_size f s.world in
      elim (Bool-cases (leb size 0xFFFFFFFF)) [
        | inr big ↦
            rw (place_file, big)
              (
                record { valid = v; was_free = λ x c. c; kept = λ x out. refl },
                λ p e. absurd (cc e),
              )
        | inl fits ↦
            let small : size < 2 ^ 32 = ground (arith, fits) in
            let (within, took) = place_sized-Within page_align size f s small v in
            rw (place_file, fits) (within, λ p e. (small, (took p e).0, (took p e).1))
      ]

  -- The block that `PhysAlloc` gives.
  pub alloc-Within :
      (start size alignment p : ℕ) (s : Machine H W)
      → start < 2 ^ 32
      → size < 2 ^ 32
      → IsValid s.regions
      → let r = phys_alloc a start size alignment s.regions s.heap in
        r.0 ≡ some p
        → let s' : Machine H W = record s { regions = r.2; heap = r.3 } in
          Within s s' × Took s s' p size × (p < 2 ^ 32) × (0 < size)
  alloc-Within start size alignment p s low small v e =
      let taken = λ (x : ℕ).
        phys_alloc-Taken a s.heap start size alignment x p s.regions low (omega arith) v e in
      let (round, pos) = align_size-le size (omega arith) in
      (
        record {
          valid = (taken 0).2.valid;
          was_free = λ x w. ((taken x).2.no_more w).0;
          kept = λ x out. refl;
        },
        λ x from to. (
          (taken x).2.was_free from (omega (arith, round)),
          λ w. ground (arith, ((taken x).2.no_more w).1, round),
        ),
        phys_alloc-lt a start size alignment p s.regions s.heap e,
        pos (taken 0).0,
      )

  pub alloc-none-Within :
      (start size alignment : ℕ) (s : Machine H W)
      → IsValid s.regions
      → let r = phys_alloc a start size alignment s.regions s.heap in
        r.0 ≡ none → Within s (record s { regions = r.2; heap = r.3 })
  alloc-none-Within start size alignment s v e =
      let same = phys_alloc-none a s.heap start size alignment s.regions e in
      record { valid = rw same v; was_free = λ x w. rw same at w; kept = λ x out. refl }

-- What is written in a block that was taken.
pub write-Within :
    {H W : Type 0} (s s' : Machine H W) (p n : ℕ) (memory : ℕ → ℕ) (w : W)
    → Within s s'
    → Took s s' p n
    → ((x : ℕ) → (x < p) ⊎ (p + n ≤ x) → memory x ≡ s'.memory x)
    → Within s (record s' { memory = memory; world = w })
write-Within s s' p n memory w v took same = record {
  valid = v.valid;
  was_free = v.was_free;
  kept = λ x out.
      let apart : (x < p) ⊎ (p + n ≤ x) = elim (dec_le p x) [
        | no low ↦ inl (omega arith)
        | yes from ↦ elim (dec_le (p + n) x) [
          | yes over ↦ inr over
          | no to ↦ absurd (out (took x from (omega arith)).0)
        ]
      ] in
      same x apart ∙ v.kept x out;
}
