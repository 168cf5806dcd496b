-- ===== src/Heap/Count.antt =====
-- How often an address stands in a list.
use osldr.Base.{ℕ, ◌+◌, ◌<◌, ◌≡◌, List, [], ◌∷◌, ◌++◌, ◌==◌, if◌then◌else◌, arith}
use osldr.Heap.{remove}

abbrev pub count : ℕ → List ℕ → ℕ
count a [] = 0
count a (x ∷ xs) = (if a == x then 1 else 0) + count a xs

pub count-append : (a : ℕ) (xs ys : List ℕ) → count a (xs ++ ys) ≡ count a xs + count a ys
count-append a [] ys = omega arith
count-append a (x ∷ xs) ys = ground (arith, count-append a xs ys)

pub count-remove :
    (a p : ℕ) (xs : List ℕ)
    → 0 < count p xs
    → count a (remove p xs) + (if a == p then 1 else 0) ≡ count a xs
unfolding remove
count-remove a p [] pos = absurd (omega arith)
count-remove a p (x ∷ xs) pos = ground (arith, count-remove a p xs)
