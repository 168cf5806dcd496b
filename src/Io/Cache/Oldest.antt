-- ===== src/Io/Cache/Oldest.antt =====
-- A full cache gives up the least recently used sector.
use osldr.Base.{
  ℕ, suc, ◌+◌, ◌≤◌, ◌<◌, ◌⊎◌, ◌≡◌, inl, inr, refl, ◌∙◌, true, false, some, List, [], ◌∷◌, ltb, ◌==◌,
  add32, arith, dec_lt, length, get_elem?, set, Bytes,
}
use osldr.Base.{lt→ltb, ==_iff}
use osldr.Allocator.{Allocator}
use osldr.Io.Cache.{cache_size, CacheItem, Cache, oldest, victim, write_cache}

-- No item was used before the time.
abbrev pub NoneBefore : ℕ → List CacheItem → Type 0
NoneBefore time [] = Unit
NoneBefore time (c ∷ cs) = (time ≤ c.time) × NoneBefore time cs

NoneBefore-weaken : (t u : ℕ) (l : List CacheItem) → t ≤ u → NoneBefore u l → NoneBefore t l
NoneBefore-weaken t u [] le h = tt
NoneBefore-weaken t u (c ∷ cs) le h = (omega (arith, h.0), NoneBefore-weaken t u cs le h.1)

-- The item at `k` of the list, used before the time.
record Later (j time : ℕ) (l : List CacheItem) (r : ℕ) : Type 0 where
  k : ℕ
  item : CacheItem
  at : r ≡ j + k
  there : get_elem? l k ≡ some item
  older : item.time ≤ time
  least : NoneBefore item.time l

oldest_lem :
    (j i time : ℕ) (l : List CacheItem)
    → ((oldest j i time l ≡ i) × NoneBefore time l) ⊎ Later j time l (oldest j i time l)
unfolding oldest
oldest_lem j i time [] = inl (refl, tt)
oldest_lem j i time (c ∷ cs) = elim (dec_lt c.time time) [
  | yes older ↦
      let takes : ltb c.time time ≡ true = lt→ltb _ _ older in
      elim (oldest_lem (j + 1) j c.time cs) [
        | inl (e, h) ↦ inr (
            rw takes (record {
              k = 0;
              item = c;
              at = e ∙ omega arith;
              there = refl;
              older = omega arith;
              least = (omega arith, h);
            }))
        | inr l ↦ inr (
            rw takes (record {
              k = suc l.k;
              item = l.item;
              at = omega (arith, l.at);
              there = l.there;
              older = omega (arith, l.older);
              least = (l.older, l.least);
            }))
      ]
  | no newer ↦
      let keep : ltb c.time time ≡ false = ground arith in
      elim (oldest_lem (j + 1) i time cs) [
        | inl (e, h) ↦ inl (rw keep (e, (omega arith, h)))
        | inr l ↦ inr (
            rw keep (record {
              k = suc l.k;
              item = l.item;
              at = omega (arith, l.at);
              there = l.there;
              older = l.older;
              least = (omega (arith, l.older), l.least);
            }))
      ]
]

-- The entry that a full cache gives up.
pub record Victim (l : List CacheItem) : Type 0 where
  pub item : CacheItem
  pub there : get_elem? l (victim l) ≡ some item
  pub least : NoneBefore item.time l

victim_lem : (l : List CacheItem) → 0 < length l → Victim l
unfolding victim
victim_lem [] pos = absurd (omega arith)
victim_lem (c ∷ cs) pos = elim (oldest_lem 1 0 c.time cs) [
  | inl (e, h) ↦ record { item = c; there = rw (victim, e) refl; least = (omega arith, h) }
  | inr l ↦
      let index : oldest 1 0 c.time cs ≡ suc l.k = l.at ∙ omega arith in
      record { item = l.item; there = rw (victim, index) l.there; least = (l.older, l.least) }
]

-- When the cache is full, `WriteCache` frees the block of an item that no other item is older than (by
-- its time), and puts the sector in its place, with the cache's time.
pub write_cache-Victim :
    {H : Type 0} (a : Allocator H) (cache : Cache) (tag address : ℕ) (sector : Bytes) (h : H)
    → length cache.items ≡ cache_size
    → (v : Victim cache.items) × (write_cache a cache tag address sector h ≡ (
      record {
        time = add32 cache.time 1;
        items =
            set cache.items
              (victim cache.items)
              (record { tag = tag; time = cache.time; address = address; sector = sector });
      },
      a.free v.item.address h,
    ))
unfolding write_cache
write_cache-Victim a cache tag address sector h full =
    let v = victim_lem cache.items (omega (arith, full)) in
    let test : (length cache.items == cache_size) ≡ true = (==_iff _ _).1 full in
    (v, rw (test, v.there) refl)
