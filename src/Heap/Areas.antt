-- ===== src/Heap/Areas.antt =====
-- The user areas of the blocks in use.
use osldr.Base.{
  ℕ, ◌+◌, ◌-◌, ◌≤◌, ◌<◌, ◌≡◌, inl, inr, refl, ap, ◌∙◌, true, false, not, ◌&&◌, List, [], ◌∷◌, ◌++◌,
  Bool-cases, leb, ◌==◌, if◌then◌else◌, arith, ℕ_discrete,
}
use osldr.Base.{leb→le}
use osldr.Heap.{block_size}
use osldr.Heap.Count.{count, count-append}
use osldr.Heap.Blocks.{Block, after, end_of}
use osldr.Heap.Malloc.{taken}
use osldr.Heap.Join.{grown, absorb, join_last, absorb-free}

abbrev pub areas : ℕ → List Block → List ℕ
areas p [] = []
areas p (b ∷ bs) =
    let rest = areas (after p b) bs in if b.free then rest else (p + block_size) ∷ rest

pub areas-append :
    (p : ℕ) (xs ys : List Block) → areas p (xs ++ ys) ≡ areas p xs ++ areas (end_of p xs) ys
areas-append p [] ys = refl
areas-append p (x ∷ xs) ys = elim (Bool-cases x.free) [
  | inl f ↦ rw (f, areas-append (after p x) xs ys) refl
  | inr f ↦ rw (f, areas-append (after p x) xs ys) refl
]

-- The block in use whose user area begins at an address.
pub record Area (p : ℕ) (bs : List Block) (a : ℕ) : Type 0 where
  pub before : List Block
  pub block : Block
  pub behind : List Block
  pub split : bs ≡ before ++ (block ∷ behind)
  pub at : a ≡ end_of p before + block_size
  pub in_use : block.free ≡ false

Area-later : (p a : ℕ) (b : Block) (bs : List Block) → Area (after p b) bs a → Area p (b ∷ bs) a
Area-later p a b bs c = record {
  before = b ∷ c.before;
  block = c.block;
  behind = c.behind;
  split = ap (λ (l : List Block). b ∷ l) c.split;
  at = c.at;
  in_use = c.in_use;
}

pub areas-Area : (p a : ℕ) (bs : List Block) → 0 < count a (areas p bs) → Area p bs a
areas-Area p a [] pos = absurd (omega arith)
areas-Area p a (b ∷ bs) pos = elim (Bool-cases b.free) [
  | inl f ↦ Area-later p a b bs (areas-Area (after p b) a bs (rw f at pos))
  | inr f ↦ elim (ℕ_discrete a (p + block_size)) [
    | yes e ↦ record { before = []; block = b; behind = bs; split = refl; at = e; in_use = f }
    | no ne ↦ Area-later p a b bs (areas-Area (after p b) a bs (ground (arith, rw f at pos)))
  ]
]

abbrev one : ℕ → ℕ → ℕ
one a p = if a == p then 1 else 0

taken-head :
    (m n a : ℕ) (b : Block) (ys : List Block)
    → b.free ≡ true
    → n ≤ b.size
    → count a (areas m (taken n b ++ ys)) ≡ one a (m + block_size) + count a (areas m (b ∷ ys))
taken-head m n a b ys was_free le = elim (Bool-cases (leb 20 (b.size - n))) [
  | inl cut ↦
      let big : 20 ≤ b.size - n = leb→le _ _ cut in
      let end : m + (16 + n) + (16 + (b.size - n - 16)) ≡ after m b = omega arith in
      rw (cut, was_free, end) refl
  | inr uncut ↦ rw (uncut, was_free) refl
]

-- `malloc` adds the area of its block.
pub taken-areas :
    (base n a : ℕ) (xs : List Block) (b : Block) (ys : List Block)
    → b.free ≡ true
    → n ≤ b.size
    → count a (areas base (xs ++ (taken n b ++ ys)))
      ≡ one a (end_of base xs + block_size) + count a (areas base (xs ++ (b ∷ ys)))
taken-areas base n a xs b ys was_free le =
    let m = end_of base xs in
    rw (areas-append base xs (taken n b ++ ys), areas-append base xs (b ∷ ys))
      (omega (
        arith,
        taken-head m n a b ys was_free le,
        count-append a (areas base xs) (areas m (taken n b ++ ys)),
        count-append a (areas base xs) (areas m (b ∷ ys)),
      ))

absorb-areas :
    (p : ℕ) (b : Block) (ys : List Block)
    → b.free ≡ true
    → let (b', ys') = absorb b ys in areas p (b' ∷ ys') ≡ areas (after p b) ys
absorb-areas p b [] f = rw f refl
absorb-areas p b (c ∷ cs) f = elim (Bool-cases (c.free && not c.aligned)) [
  | inl joins ↦
      let c_free : c.free ≡ true = ground (arith, joins) in
      let end : after p (grown b c) ≡ after (after p b) c = omega arith in
      rw (joins, f, c_free, end) refl
  | inr stays ↦ rw (stays, f) refl
]

join_last-areas :
    (p : ℕ) (xs : List Block) (b : Block) (ys : List Block)
    → b.free ≡ true
    → areas p (join_last xs b ++ ys) ≡ areas p (xs ++ (b ∷ ys))
join_last-areas p [] b ys f = refl
join_last-areas p (d ∷ []) b ys f = elim (Bool-cases (not b.aligned && d.free)) [
  | inl joins ↦
      let d_free : d.free ≡ true = ground (arith, joins) in
      let end : after p (grown d b) ≡ after (after p d) b = omega arith in
      rw (joins, f, d_free, end) refl
  | inr stays ↦ rw stays refl
]
join_last-areas p (d ∷ e ∷ ds) b ys f = rw (join_last-areas (after p d) (e ∷ ds) b ys f) refl

-- `free` takes the area of its block away, and no other.
pub freed-areas :
    (base p a : ℕ) (xs : List Block) (b : Block) (ys : List Block)
    → p ≡ end_of base xs + block_size
    → b.free ≡ false
    → let (b', ys') = absorb (record b { free = true }) ys in
      count a (areas base (join_last xs b' ++ ys')) + one a p
      ≡ count a (areas base (xs ++ (b ∷ ys)))
freed-areas base p a xs b ys at in_use =
    let m = end_of base xs in
    let f : Block = record b { free = true } in
    let (b', ys') = absorb f ys in
    let step : areas base (join_last xs b' ++ ys') ≡ areas base xs ++ areas (after m b) ys =
      join_last-areas base xs b' ys' (absorb-free f ys refl)
      ∙ (areas-append base xs (b' ∷ ys')
          ∙ ap (λ (l : List ℕ). areas base xs ++ l) (absorb-areas m f ys refl)) in
    let whole : areas base (xs ++ (b ∷ ys))
        ≡ areas base xs ++ ((m + block_size) ∷ areas (after m b) ys) =
      areas-append base xs (b ∷ ys) ∙ rw in_use refl in
    rw (step, whole, at)
      (omega (
        arith,
        count-append a (areas base xs) (areas (after m b) ys),
        count-append a (areas base xs) ((m + block_size) ∷ areas (after m b) ys),
      ))

-- A block in use that has grown keeps its area, and no other changes.
pub widened-areas :
    (base n a : ℕ) (xs : List Block) (b c : Block) (cs : List Block)
    → b.free ≡ false
    → c.free ≡ true
    → n ≤ b.size + c.size
    → count a (areas base (xs ++ (taken n (grown b c) ++ cs)))
      ≡ count a (areas base (xs ++ (b ∷ c ∷ cs)))
widened-areas base n a xs b c cs in_use c_free le =
    let m = end_of base xs in
    let end : after m (grown b c) ≡ after (after m b) c = omega arith in
    let same : areas m (taken n (grown b c) ++ cs) ≡ areas m (b ∷ c ∷ cs) =
      elim (Bool-cases (leb 20 (b.size + (block_size + c.size) - n))) [
        | inl cut ↦
            let big : 20 ≤ b.size + (block_size + c.size) - n = leb→le _ _ cut in
            let end' : m + (16 + n) + (16 + (b.size + (16 + c.size) - n - 16))
                ≡ after (after m b) c =
              omega arith in
            rw (cut, in_use, c_free, end') refl
        | inr uncut ↦ rw (uncut, in_use, c_free, end) refl
      ] in
    rw (areas-append base xs (taken n (grown b c) ++ cs), areas-append base xs (b ∷ c ∷ cs), same)
      refl
