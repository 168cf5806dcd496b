-- ===== src/Heap/Full.antt =====
-- A heap without a free block.
use osldr.Base.{ℕ, ◌≡◌, inl, inr, refl, ap, true, Option, none, List, [], ◌∷◌, Bool-cases, ◌==◌}
use osldr.Heap.{Heap, align, is_empty, find_fit, malloc, free, realloc}

-- A call of the program, and what becomes of the heap by calls in their order.
pub data Call : Type 0 where
  allocate : ℕ → Call
  release : ℕ → Call
  resize : ℕ → ℕ → Call

abbrev pub call : Call → Heap → Heap
call (allocate n) h = (malloc n h).1
call (release p) h = free p h
call (resize p n) h = (realloc p n h).1

abbrev pub calls : List Call → Heap → Heap
calls [] h = h
calls (c ∷ cs) h = calls cs (call c h)

find_fit-empty : (n : ℕ) (size : ℕ → ℕ) (l : List ℕ) → is_empty l ≡ true → find_fit n size l ≡ none
unfolding find_fit is_empty
find_fit-empty n size [] e = refl
find_fit-empty n size (p ∷ ps) e = absurd (cc e)

full-malloc : (h : Heap) (n : ℕ) → is_empty h.list ≡ true → malloc n h ≡ (none, h)
unfolding malloc
full-malloc h n e = rw (malloc, find_fit-empty (align n) h.size h.list e) refl

full-free : (h : Heap) (p : ℕ) → is_empty h.list ≡ true → free p h ≡ h
unfolding free
full-free h p e = rw (free, e) refl

full-realloc : (h : Heap) (p n : ℕ) → is_empty h.list ≡ true → realloc p n h ≡ (none, h)
unfolding realloc
full-realloc h p n e = elim (Bool-cases (n == 0)) [
  | inl nothing ↦ rw (realloc, nothing, full-free h p e) refl
  | inr some_bytes ↦ elim (Bool-cases (p == 0)) [
    | inl null ↦ rw (realloc, some_bytes, null, full-malloc h n e) refl
    | inr not_null ↦ rw (realloc, some_bytes, not_null, e) refl
  ]
]

full-call : (h : Heap) (c : Call) → is_empty h.list ≡ true → call c h ≡ h
full-call h (allocate n) e = ap (λ (r : Option ℕ × Heap). r.1) (full-malloc h n e)
full-call h (release p) e = full-free h p e
full-call h (resize p n) e = ap (λ (r : Option ℕ × Heap). r.1) (full-realloc h p n e)

full-calls : (cs : List Call) (h : Heap) → is_empty h.list ≡ true → calls cs h ≡ h
full-calls [] h e = refl
full-calls (c ∷ cs) h e = let same = full-call h c e in rw same (full-calls cs h e)

-- Once the list of free blocks is empty, nothing can be given back or allocated any more: no calls of `malloc`,
-- `free` and `realloc` change the heap, and after them `malloc` fails for every size.
pub full-stays :
    (cs : List Call) (h : Heap) (n : ℕ)
    → is_empty h.list ≡ true
    → (calls cs h ≡ h) × (malloc n (calls cs h) ≡ (none, h))
full-stays cs h n e = let same = full-calls cs h e in rw same (refl, full-malloc h n e)
