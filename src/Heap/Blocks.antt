-- ===== src/Heap/Blocks.antt =====
-- The blocks that the headers stand for, in the order of their addresses.
use osldr.Base.{
  ℕ, ◌+◌, ◌%◌, ◌≤◌, ◌<◌, ◌^◌, ◌≡◌, inl, inr, refl, sym, ap, ◌∙◌, Bool, true, false, not, ◌&&◌, List,
  [], ◌∷◌, ◌++◌, Bool-cases, if◌then◌else◌, arith, ℕ_discrete,
}
use osldr.Heap.{block_size, Heap, masked, is_free, is_aligned, aligned_bit, set_free, clear_free}
use osldr.Heap.Count.{count}

pub record Block : Type 0 where
  pub size : ℕ
  pub free : Bool
  pub aligned : Bool

abbrev pub bit : Bool → ℕ → ℕ
bit b n = if b then n else 0

-- The field `Size`.
abbrev pub encoded : Block → ℕ
encoded b = b.size + bit b.free 1 + bit b.aligned 2

-- Where a block ends, and a list of blocks.
abbrev pub after : ℕ → Block → ℕ
after p b = p + (block_size + b.size)

abbrev pub end_of : ℕ → List Block → ℕ
end_of p [] = p
end_of p (b ∷ bs) = end_of (after p b) bs

-- From `p` on, the headers are those of the blocks: each has its size, and the one behind has it as its
-- previous size.
abbrev pub Headers : (ℕ → ℕ) → (ℕ → ℕ) → ℕ → List Block → Type 0
Headers s v p [] = Unit
Headers s v p (b ∷ bs) =
    (s p ≡ encoded b) × (v (after p b) ≡ encoded b) × (b.size % 4 ≡ 0) × Headers s v (after p b) bs

-- The addresses of the free blocks.
abbrev pub free_heads : ℕ → List Block → List ℕ
free_heads p [] = []
free_heads p (b ∷ bs) = let rest = free_heads (after p b) bs in if b.free then p ∷ rest else rest

pub end_of-append : (p : ℕ) (xs ys : List Block) → end_of p (xs ++ ys) ≡ end_of (end_of p xs) ys
end_of-append p [] ys = refl
end_of-append p (x ∷ xs) ys = end_of-append (after p x) xs ys

pub end_of-le : (p : ℕ) (xs : List Block) → p ≤ end_of p xs
end_of-le p [] = omega arith
end_of-le p (x ∷ xs) = omega (arith, end_of-le (after p x) xs)

module _ (s v : ℕ → ℕ) where
  pub Headers-append :
      (p : ℕ) (xs ys : List Block)
      → Headers s v p xs
      → Headers s v (end_of p xs) ys
      → Headers s v p (xs ++ ys)
  Headers-append p [] ys h k = k
  Headers-append p (x ∷ xs) ys h k = (h.0, h.1, h.2, Headers-append (after p x) xs ys h.3 k)

  pub Headers-split :
      (p : ℕ) (xs ys : List Block)
      → Headers s v p (xs ++ ys)
      → Headers s v p xs × Headers s v (end_of p xs) ys
  Headers-split p [] ys h = (tt, h)
  Headers-split p (x ∷ xs) ys h =
      let (k, l) = Headers-split (after p x) xs ys h.3 in ((h.0, h.1, h.2, k), l)

  -- Headers survive a change elsewhere.
  pub Headers-frame :
      (s' v' : ℕ → ℕ) (p : ℕ) (xs : List Block)
      → Headers s v p xs
      → ((a : ℕ) → p ≤ a → a < end_of p xs → s' a ≡ s a)
      → ((a : ℕ) → p < a → a ≤ end_of p xs → v' a ≡ v a)
      → Headers s' v' p xs
  Headers-frame s' v' p [] h f g = tt
  Headers-frame s' v' p (x ∷ xs) h f g =
      let le = end_of-le (after p x) xs in
      (
        f p (omega arith) (omega (arith, le)) ∙ h.0,
        g (after p x) (omega arith) (omega (arith, le)) ∙ h.1,
        h.2,
        Headers-frame s' v' (after p x) xs h.3 (λ a l m. f a (omega (arith, l)) m)
            (λ a l m. g a (omega (arith, l)) m),
      )

flags :
    (n : ℕ) (f a : Bool)
    → n % 4 ≡ 0
    → let x = n + bit f 1 + bit a 2 in
      (masked x ≡ n)
      × (is_free x ≡ f)
      × (is_aligned x ≡ a)
      × (aligned_bit x ≡ bit a 2)
      × (set_free x ≡ n + 1 + bit a 2)
      × (clear_free x ≡ n + bit a 2)
flags n true true h = ground arith
flags n true false h = ground arith
flags n false true h = ground arith
flags n false false h = ground arith

-- The flags and the size of an encoded block.
module _ (b : Block) (whole : b.size % 4 ≡ 0) where
  pub masked-encoded : masked (encoded b) ≡ b.size
  masked-encoded = (flags b.size b.free b.aligned whole).0

  pub is_free-encoded : is_free (encoded b) ≡ b.free
  is_free-encoded = (flags b.size b.free b.aligned whole).1

  pub is_aligned-encoded : is_aligned (encoded b) ≡ b.aligned
  is_aligned-encoded = (flags b.size b.free b.aligned whole).2

  pub aligned_bit-encoded : aligned_bit (encoded b) ≡ bit b.aligned 2
  aligned_bit-encoded = (flags b.size b.free b.aligned whole).3

  pub set_free-encoded : set_free (encoded b) ≡ encoded (record b { free = true })
  set_free-encoded = (flags b.size b.free b.aligned whole).4

  pub clear_free-encoded : clear_free (encoded b) ≡ encoded (record b { free = false })
  clear_free-encoded = (flags b.size b.free b.aligned whole).5 ∙ omega arith

pub encoded-le : (b : Block) → encoded b ≤ b.size + 3
encoded-le b = elim (Bool-cases b.free) [
  | inl f ↦ elim (Bool-cases b.aligned) [
    | inl a ↦ rw (f, a) (omega arith)
    | inr a ↦ rw (f, a) (omega arith)
  ]
  | inr f ↦ elim (Bool-cases b.aligned) [
    | inl a ↦ rw (f, a) (omega arith)
    | inr a ↦ rw (f, a) (omega arith)
  ]
]

-- What stands behind the heap cannot be taken for a free block to be joined.
abbrev pub IsSentinel : ℕ → Type 0
IsSentinel x = (is_free x && not (is_aligned x)) ≡ false

-- The headers of the heap are those of the blocks from `base` on, the list holds the free ones, addresses
-- do not wrap, and the field behind the heap, which is not the heap's own, is harmless.
pub record Represents (base : ℕ) (h : Heap) (bs : List Block) : Type 0 where
  pub headers : Headers h.size h.prev_size base bs
  pub listed : (a : ℕ) → count a h.list ≡ count a (free_heads base bs)
  pub starts : h.start ≡ base + 4
  pub covers : end_of base bs ≤ h.start + h.total
  pub fits : h.start + h.total + block_size < 2 ^ 32
  pub sentinel : IsSentinel (h.size (end_of base bs))

pub free_heads-append :
    (p : ℕ) (xs ys : List Block)
    → free_heads p (xs ++ ys) ≡ free_heads p xs ++ free_heads (end_of p xs) ys
free_heads-append p [] ys = refl
free_heads-append p (x ∷ xs) ys = elim (Bool-cases x.free) [
  | inl f ↦ rw (f, free_heads-append (after p x) xs ys) refl
  | inr f ↦ rw (f, free_heads-append (after p x) xs ys) refl
]

-- A block of the list, at its address.
pub record At (p : ℕ) (bs : List Block) (m : ℕ) : Type 0 where
  pub before : List Block
  pub block : Block
  pub behind : List Block
  pub split : bs ≡ before ++ (block ∷ behind)
  pub at : end_of p before ≡ m

At-later :
    (p m : ℕ) (b : Block) (bs : List Block)
    → (c : At (after p b) bs m) × (c.block.free ≡ true)
    → (c : At p (b ∷ bs) m) × (c.block.free ≡ true)
At-later p m b bs (c, f) = (
  record {
    before = b ∷ c.before;
    block = c.block;
    behind = c.behind;
    split = ap (λ (l : List Block). b ∷ l) c.split;
    at = c.at;
  },
  f,
)

pub free_heads-At :
    (p m : ℕ) (bs : List Block)
    → 0 < count m (free_heads p bs)
    → (b : At p bs m) × (b.block.free ≡ true)
free_heads-At p m [] pos = absurd (omega arith)
free_heads-At p m (b ∷ bs) pos = elim (Bool-cases b.free) [
  | inl f ↦ elim (ℕ_discrete m p) [
    | yes e ↦ (record { before = []; block = b; behind = bs; split = refl; at = sym e }, f)
    | no ne ↦ At-later p m b bs (free_heads-At (after p b) m bs (ground (arith, rw f at pos)))
  ]
  | inr f ↦ At-later p m b bs (free_heads-At (after p b) m bs (rw f at pos))
]
