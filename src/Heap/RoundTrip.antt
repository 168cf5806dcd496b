-- ===== src/Heap/RoundTrip.antt =====
-- What `free` does with what `malloc` has given.
use osldr.Base.{
  ℕ, ◌+◌, ◌-◌, ◌≤◌, ◌<◌, ◌^◌, ◌⊎◌, ◌≡◌, inl, inr, refl, sym, ap, ◌∙◌, Bool, true, false, not, ◌&&◌,
  some, List, [], ◌∷◌, ◌++◌, Bool-cases, leb, arith,
}
use osldr.Base.{leb→le}
use mathlib.Core.List.{append_assoc}
use osldr.Heap.{block_size, Heap, align, is_empty, malloc, free}
use osldr.Heap.Blocks.{Block, end_of, Represents}
use osldr.Heap.Malloc.{used, spare, taken, malloc-Represents}
use osldr.Heap.Join.{grown, absorb, join_last}
use osldr.Heap.Free.{free-Represents}

-- No two neighbours are free that could be joined.
abbrev pub Apart : Block → Block → Type 0
Apart b c = (b.free ≡ false) ⊎ ((c.free ≡ false) ⊎ (c.aligned ≡ true))

abbrev pub AllApart : List Block → Type 0
AllApart [] = Unit
AllApart (b ∷ []) = Unit
AllApart (b ∷ c ∷ bs) = Apart b c × AllApart (c ∷ bs)

and_false : (b : Bool) → (b && false) ≡ false
and_false true = refl
and_false false = refl

Apart-join : (d b : Block) → Apart d b → b.free ≡ true → (not b.aligned && d.free) ≡ false
Apart-join d b (inl f) free = rw f (and_false _)
Apart-join d b (inr (inl f)) free = absurd (cc (f, free))
Apart-join d b (inr (inr a)) free = rw a refl

join_last-AllApart :
    (xs : List Block) (b : Block) (ys : List Block)
    → AllApart (xs ++ (b ∷ ys))
    → b.free ≡ true
    → join_last xs b ≡ xs ++ (b ∷ [])
join_last-AllApart [] b ys v f = refl
join_last-AllApart (d ∷ []) b ys v f = rw (Apart-join d b v.0 f) refl
join_last-AllApart (d ∷ e ∷ ds) b ys v f =
    ap (λ (l : List Block). d ∷ l) (join_last-AllApart (e ∷ ds) b ys v.1 f)

AllApart-behind : (xs ys : List Block) → AllApart (xs ++ ys) → AllApart ys
AllApart-behind [] ys v = v
AllApart-behind (x ∷ []) [] v = tt
AllApart-behind (x ∷ []) (y ∷ ys) v = v.1
AllApart-behind (x ∷ z ∷ xs) ys v = AllApart-behind (z ∷ xs) ys v.1

absorb-AllApart :
    (b : Block) (ys : List Block) → AllApart (b ∷ ys) → b.free ≡ true → absorb b ys ≡ (b, ys)
absorb-AllApart b [] v f = refl
absorb-AllApart b (c ∷ cs) (inl g, v) f = absurd (cc (f, g))
absorb-AllApart b (c ∷ cs) (inr (inl g), v) f = rw g refl
absorb-AllApart b (c ∷ cs) (inr (inr g), v) f = rw g (let none = and_false c.free in rw none refl)

free_again : (b : Block) → b.free ≡ true → ◌≡◌ {A = Block} (record b { free = true }) b
free_again b e = ap (λ (f : Bool). record b { free = f }) (sym e)

grown_again :
    (n : ℕ) (b : Block)
    → b.free ≡ true
    → 20 ≤ b.size - n
    → grown (record (used n b.aligned) { free = true }) (spare (b.size - n - block_size)) ≡ b
grown_again n b e big =
    let size : n + (block_size + (b.size - n - block_size)) ≡ b.size = omega arith in
    ap (λ (m : ℕ). record b { size = m; free = true }) size ∙ free_again b e

free-Taken :
    (base n : ℕ) (h : Heap) (xs : List Block) (b : Block) (ys : List Block)
    → AllApart (xs ++ (b ∷ ys))
    → b.free ≡ true
    → Represents base h (xs ++ (taken n b ++ ys))
    → is_empty h.list ≡ false
    → Represents base (free (end_of base xs + block_size) h) (xs ++ (b ∷ ys))
free-Taken base n h xs b ys v was_free r some_free =
    let joins = join_last-AllApart xs b ys v was_free in
    let whole : (xs ++ (b ∷ [])) ++ ys ≡ xs ++ (b ∷ ys) = append_assoc xs (b ∷ []) ys in
    elim (Bool-cases (leb 20 (b.size - n))) [
      | inl cut ↦
          let result =
            free-Represents base h xs (used n b.aligned) (spare (b.size - n - block_size) ∷ ys)
              (rw cut at r) refl some_free in
          rw (grown_again n b was_free (leb→le _ _ cut), joins, whole) at result
      | inr uncut ↦
          let result =
            free-Represents base h xs (record b { free = false }) ys (rw uncut at r) refl
              some_free in
          let alone = absorb-AllApart b ys (AllApart-behind xs (b ∷ ys) v) was_free in
          rw (free_again b was_free, alone, joins, whole) at result
    ]

-- Of the blocks of a heap without free neighbours that could be joined, `free` gives back exactly what
-- `malloc` has taken: after `malloc` has returned an address and `free` has been called with it, the heap
-- stands for the same blocks again, if the heap still had a free block in between.
pub free-malloc :
    (base n p : ℕ) (h : Heap) (bs : List Block)
    → n + 3 < 2 ^ 32
    → Represents base h bs
    → AllApart bs
    → (malloc n h).0 ≡ some p
    → is_empty (malloc n h).1.list ≡ false
    → Represents base (free p (malloc n h).1) bs
free-malloc base n p h bs small r v e some_free = elim (malloc-Represents base n h bs small r) [
  | inl (none_fits, failed) ↦ absurd (cc (e, failed))
  | inr t ↦
      let at : p ≡ end_of base t.before + block_size = cc (e, t.address) in
      let v' = rw t.split at v in
      rw (at, t.split)
        (free-Taken base (align n) (malloc n h).1 t.before t.block t.behind v' t.was_free t.result
          some_free)
]
