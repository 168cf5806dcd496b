-- ===== src/Heap/Init.antt =====
-- The blocks that `HeapInit` makes.
use osldr.Base.{
  ℕ, zero, suc, ◌+◌, ◌-◌, ◌*◌, ◌/◌, ◌%◌, ◌≤◌, ◌<◌, ◌^◌, ◌≡◌, inl, inr, refl, ap, ◌∙◌, true, false,
  List, [], ◌∷◌, ◌++◌, Bool-cases, ltb, if◌then◌else◌, add32, sub32, arith, replicate,
}
use osldr.Heap.{
  block_size, min_block_size, Heap, enough, init_last, init_first, update, masked, set_free,
  init_block, init_pages, heap_init,
}
use osldr.Heap.Count.{count}
use osldr.Heap.Blocks.{
  Block, IsSentinel, encoded, after, end_of, Headers, free_heads, Headers-frame, end_of-le,
  Represents,
}
use osldr.Heap.Malloc.{next-encoded, same_head}

-- The heap while it is being made, from the address `p` on.
record Built (h : Heap) (p : ℕ) (bs : List Block) : Type 0 where
  headers : Headers h.size h.prev_size p bs
  listed : (a : ℕ) → count a h.list ≡ count a (free_heads p bs)

-- The fields that stay, of those from the address `e` on too.
record SameBounds (e : ℕ) (h h' : Heap) : Type 0 where
  start : h'.start ≡ h.start
  total : h'.total ≡ h.total
  above : (a : ℕ) → e ≤ a → h'.size a ≡ h.size a

init_block-Built :
    (e p : ℕ) (b : Block) (bs : List Block) (h : Heap)
    → b.size % 4 ≡ 0
    → b.free ≡ true
    → after p b < 2 ^ 32
    → p < e
    → Built h (after p b) bs
    → Built (init_block p (encoded b) h) p (b ∷ bs) × SameBounds e h (init_block p (encoded b) h)
unfolding init_block
init_block-Built e p b bs h whole is_free small low k =
    let end = next-encoded p b whole small in
    rw (init_block, same_head p, end)
      (
        record {
          headers = (
            ground (arith, same_head p),
            ground (arith, same_head (after p b)),
            whole,
            Headers-frame h.size h.prev_size (update h.size p (encoded b))
                (update h.prev_size (after p b) (encoded b)) (after p b) bs k.headers
                (λ a l m. ground arith) (λ a l m. ground arith),
          );
          listed = λ a. rw is_free (ground (arith, k.listed a));
        },
        record { start = refl; total = refl; above = λ a l. ground arith },
      )

abbrev pub page : Block
page = record { size = 65520; free = true; aligned = true }

SameBounds-trans :
    (e : ℕ) (h h' h'' : Heap) → SameBounds e h h' → SameBounds e h' h'' → SameBounds e h h''
SameBounds-trans e h h' h'' s t = record {
  start = t.start ∙ s.start;
  total = t.total ∙ s.total;
  above = λ a l. t.above a l ∙ s.above a l;
}

replicate-snoc :
    (k : ℕ) (b : Block) (bs : List Block) → replicate k b ++ (b ∷ bs) ≡ b ∷ (replicate k b ++ bs)
replicate-snoc zero b bs = refl
replicate-snoc (suc k) b bs = ap (λ (l : List Block). b ∷ l) (replicate-snoc k b bs)

pub end_of-pages :
    (p k : ℕ) (bs : List Block) → end_of p (replicate k page ++ bs) ≡ end_of (p + k * 65536) bs
end_of-pages p zero bs = let at : p + 0 * 65536 ≡ p = omega arith in rw at refl
end_of-pages p (suc k) bs =
    let at : p + 65536 + k * 65536 ≡ p + suc k * 65536 = omega arith in
    end_of-pages (p + 65536) k bs ∙ ap (λ (q : ℕ). end_of q bs) at

init_pages-Built :
    (e k aligned : ℕ) (bs : List Block) (h : Heap)
    → 4 ≤ aligned
    → aligned + k * 65536 - 4 ≤ e
    → aligned + k * 65536 < 2 ^ 32
    → Built h (aligned + k * 65536 - 4) bs
    → Built (init_pages k aligned h) (aligned - 4) (replicate k page ++ bs)
      × SameBounds e h (init_pages k aligned h)
unfolding init_pages
init_pages-Built e zero aligned bs h pos low small b =
    let at : aligned + 0 * 65536 - 4 ≡ aligned - 4 = omega arith in
    (rw at at b, record { start = refl; total = refl; above = λ a l. refl })
init_pages-Built e (suc k) aligned bs h pos low small b =
    let p = aligned + k * 65536 - 4 in
    let at : sub32 (add32 aligned (k * 65536)) 4 ≡ p = omega arith in
    let end : aligned + suc k * 65536 - 4 ≡ after p page = omega arith in
    let b' = rw end at b in
    let (one, same) = init_block-Built e p page bs h refl refl (omega arith) (omega arith) b' in
    let (all, same') =
      init_pages-Built e k aligned (page ∷ bs) (init_block p 65523 h) pos (omega arith)
        (omega arith) one in
    rw (at, ← replicate-snoc k page bs) (all, SameBounds-trans e h _ _ same same')

-- The blocks that the heap is divided into: what lies before the first boundary of 64 KB, the whole
-- pages, and what is left, where a piece that cannot hold a header and 4 bytes is given up.
abbrev pub first_block : ℕ → List Block
first_block n =
    if ltb n (block_size + min_block_size)
    then []
    else record { size = n - block_size; free = true; aligned = false } ∷ []

abbrev pub last_block : ℕ → List Block
last_block n =
    if ltb n (block_size + min_block_size)
    then []
    else record { size = masked (n - block_size); free = true; aligned = true } ∷ []

abbrev pub layout : ℕ → ℕ → ℕ → List Block
layout first pages last = first_block first ++ (replicate pages page ++ last_block last)

last-Built :
    (e p n : ℕ) (h : Heap)
    → 4 ≤ p
    → end_of (p - 4) (last_block n) ≤ e
    → p + n + 16 < 2 ^ 32
    → h.list ≡ []
    → Built (init_last p (enough n) h) (p - 4) (last_block n)
      × SameBounds e h (init_last p (enough n) h)
unfolding init_last
last-Built e p n h pos low small empty = elim (Bool-cases (ltb n 20)) [
  | inl few ↦
      rw (init_last, few)
        (
          record { headers = tt; listed = λ a. rw empty refl },
          record { start = refl; total = refl; above = λ a l. refl },
        )
  | inr many ↦
      let used : ltb 0 n ≡ true = ground arith in
      let b : Block = record { size = masked (n - block_size); free = true; aligned = true } in
      let field : masked (n - block_size) + 3 ≡ encoded b = omega arith in
      let at : sub32 p 4 ≡ p - 4 = omega arith in
      let low' = rw many at low in
      rw (init_last, many, used, field, at)
        (init_block-Built e (p - 4) b [] h (omega arith) refl (omega arith) (omega (arith, low'))
          (record { headers = tt; listed = λ a. rw empty refl }))
]

first-Built :
    (e q n : ℕ) (bs : List Block) (h : Heap)
    → 4 ≤ q
    → q + n - 4 ≤ e
    → q + n < 2 ^ 32
    → n % 16 ≡ 0
    → Built h (q + n - 4) bs
    → Built (init_first q (enough n) h) (q + n - enough n - 4) (first_block n ++ bs)
      × SameBounds e h (init_first q (enough n) h)
unfolding init_first
first-Built e q n bs h pos low small whole b = elim (Bool-cases (ltb n 20)) [
  | inl few ↦
      let all : q + n - 0 - 4 ≡ q + n - 4 = omega arith in
      rw (init_first, few, all) (b, record { start = refl; total = refl; above = λ a l. refl })
  | inr many ↦
      let used : ltb 0 n ≡ true = ground arith in
      let f : Block = record { size = n - block_size; free = true; aligned = false } in
      let field : set_free (n - block_size) ≡ encoded f = omega arith in
      let at : sub32 q 4 ≡ q - 4 = omega arith in
      let start : q + n - n - 4 ≡ q - 4 = omega arith in
      let end : q + n - 4 ≡ after (q - 4) f = ground arith in
      rw (init_first, many, used, field, at, start)
        (init_block-Built e (q - 4) f bs h (omega arith) refl (omega arith) (ground arith)
          (rw end at b))
]

-- The start of the heap, rounded up to 16 bytes, and the first boundary of 64 KB from there on.
abbrev pub heap_address : ℕ → ℕ
heap_address address = (address + 15) / 16 * 16

abbrev pub first_page : ℕ → ℕ
first_page address = (heap_address address + 65535) / 65536 * 65536

abbrev pub before_pages : ℕ → ℕ
before_pages address = first_page address - heap_address address

-- Where the headers begin: 4 bytes before the first block.
abbrev pub heap_base : ℕ → ℕ
heap_base address = first_page address - enough (before_pages address) - 4

abbrev pub heap_layout : ℕ → ℕ → List Block
heap_layout address size =
    let rest = size - before_pages address in
    layout (before_pages address) (rest / 65536) (rest % 65536)

end_of-first :
    (p n : ℕ) (bs : List Block) → end_of p (first_block n ++ bs) ≡ end_of (p + enough n) bs
end_of-first p n bs = elim (Bool-cases (ltb n 20)) [
  | inl few ↦ let at : p + 0 ≡ p = omega arith in rw (few, at) refl
  | inr many ↦ let at : p + (16 + (n - 16)) ≡ p + n = ground arith in rw (many, at) refl
]

end_of-last : (p n : ℕ) → end_of p (last_block n) ≤ p + enough n
end_of-last p n = elim (Bool-cases (ltb n 20)) [
  | inl few ↦ rw few (omega arith)
  | inr many ↦ rw many (ground arith)
]

-- `HeapInit` on a piece of memory that reaches at least to its first boundary of 64 KB, and whose addresses
-- do not come near 4 GB, and behind whose last block no header of a free block seems to stand, whatever
-- else the memory holds: the heap stands for the free blocks of the layout.
pub heap_init-Represents :
    (address size : ℕ) (memory : Heap)
    → 0 < address
    → address + size + 2 ^ 17 < 2 ^ 32
    → before_pages address ≤ size
    → IsSentinel (memory.size (end_of (heap_base address) (heap_layout address size)))
    → Represents (heap_base address) (heap_init address size memory) (heap_layout address size)
unfolding heap_init
heap_init-Represents address size memory pos small reach harmless =
    let q = heap_address address in
    let al = first_page address in
    let n = before_pages address in
    let rest = size - n in
    let pages = rest / 65536 in
    let last = rest % 65536 in
    let h : Heap = record memory {
      list = [];
      start = al - enough n;
      total = enough n + pages * 65536 + enough last;
    } in
    let h1 = init_last (al + pages * 65536) (enough last) h in
    let h2 = init_pages pages al h1 in
    let few : enough n ≤ n = ground arith in
    let few' : enough last ≤ last = ground arith in
    let end =
      end_of-first (heap_base address) n (replicate pages page ++ last_block last)
      ∙ end_of-pages (heap_base address + enough n) pages (last_block last) in
    let e = end_of (heap_base address) (heap_layout address size) in
    let tail = end_of-last (heap_base address + enough n + pages * 65536) last in
    let start : heap_base address + enough n + pages * 65536 ≡ al + pages * 65536 - 4 =
      omega (arith, few) in
    let end' : e ≡ end_of (al + pages * 65536 - 4) (last_block last) =
      end ∙ ap (λ (p : ℕ). end_of p (last_block last)) start in
    let grows = end_of-le (al + pages * 65536 - 4) (last_block last) in
    let (built, same) =
      last-Built e (al + pages * 65536) last h (omega arith) (omega (arith, end')) (omega arith)
        refl in
    let (built', same') =
      init_pages-Built e pages al (last_block last) h1 (omega arith) (omega (arith, end', grows))
        (omega arith) built in
    let to_pages : al - 4 ≡ q + n - 4 = omega arith in
    let (built'', same'') =
      first-Built e q n (replicate pages page ++ last_block last) h2 (omega arith)
        (omega (arith, end', grows)) (omega arith) (omega arith) (rw to_pages at built') in
    let bounds = SameBounds-trans e h _ _ same (SameBounds-trans e h1 _ _ same' same'') in
    let base : q + n - enough n - 4 ≡ heap_base address = omega arith in
    let result = rw base at built'' in
    let e1 : add32 address 15 / 16 * 16 ≡ q = omega arith in
    let e2 : add32 q 65535 / 65536 * 65536 ≡ al = omega arith in
    let e3 : sub32 al q ≡ n = omega arith in
    let e4 : sub32 size n ≡ rest = omega arith in
    let e5 : sub32 rest last ≡ pages * 65536 = omega arith in
    let e6 : sub32 al (enough n) ≡ al - enough n = omega (arith, few) in
    let e7 : add32 (add32 (enough n) (pages * 65536)) (enough last)
        ≡ enough n + pages * 65536 + enough last =
      omega (arith, few, few') in
    let e8 : pages * 65536 / 65536 ≡ pages = omega arith in
    let e9 : add32 al (pages * 65536) ≡ al + pages * 65536 = omega arith in
    let all : heap_init address size memory ≡ init_first q (enough n) h2 =
      rw (heap_init, e1, e2, e3, e4, e5, e6, e7, e8, e9) refl in
    rw all (record {
      headers = result.headers;
      listed = result.listed;
      starts = omega (arith, bounds.start, few);
      covers = omega (arith, bounds.start, bounds.total, end, tail, few);
      fits = omega (arith, bounds.start, bounds.total, few, few');
      sentinel = rw (bounds.above e (omega arith)) harmless;
    })
