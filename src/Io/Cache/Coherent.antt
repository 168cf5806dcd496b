-- ===== src/Io/Cache/Coherent.antt =====
-- A cache holds what the disk holds.
use osldr.Base.{
  ℕ, zero, suc, ◌≤◌, ◌⊎◌, ◌≡◌, inl, inr, refl, ap, none, some, List, [], ◌∷◌, ◌++◌, Bool-cases,
  Option-cases, ◌==◌, arith, length, set, Bytes,
}
use osldr.Base.{length-append}
use osldr.Allocator.{Allocator}
use osldr.Io.Cache.{cache_size, CacheItem, Cache, touch, read_cache, victim, write_cache}

module _ (disk : ℕ → Bytes) where
  abbrev pub AllTrue : List CacheItem → Type 0
  AllTrue [] = Unit
  AllTrue (c ∷ cs) = (c.sector ≡ disk c.tag) × AllTrue cs

  -- Every item is the sector of its tag, and there are at most as many as the array has.
  pub record IsCoherent (cache : Cache) : Type 0 where
    pub all_true : AllTrue cache.items
    pub fits : length cache.items ≤ cache_size

  touch-AllTrue :
      (tag now : ℕ) (l l' : List CacheItem) (d : Bytes)
      → AllTrue l
      → touch tag now l ≡ some (d, l')
      → (d ≡ disk tag) × AllTrue l' × (length l' ≡ length l)
  unfolding touch
  touch-AllTrue tag now [] l' d v e = ground arith
  touch-AllTrue tag now (c ∷ cs) l' d v e = elim (Option-cases (touch tag now cs)) [
    | inl k ↦ ground arith
    | inr ((d', cs'), k) ↦ ground (arith, touch-AllTrue tag now cs cs' d' v.1 k)
  ]

  AllTrue-set :
      (i : ℕ) (c : CacheItem) (l : List CacheItem)
      → AllTrue l
      → c.sector ≡ disk c.tag
      → AllTrue (set l i c) × (length (set l i c) ≡ length l)
  AllTrue-set i c [] v t = (tt, refl)
  AllTrue-set zero c (x ∷ l) v t = ground arith
  AllTrue-set (suc i) c (x ∷ l) v t = ground (arith, AllTrue-set i c l v.1 t)

  AllTrue-++ : (l m : List CacheItem) → AllTrue l → AllTrue m → AllTrue (l ++ m)
  AllTrue-++ [] m v w = w
  AllTrue-++ (c ∷ l) m v w = (v.0, AllTrue-++ l m v.1 w)

  pub read_cache-IsCoherent :
      (cache : Cache) (tag : ℕ)
      → IsCoherent cache
      → let (found, cache') = read_cache cache tag in
        IsCoherent cache' × ((found ≡ none) ⊎ (found ≡ some (disk tag)))
  unfolding read_cache
  read_cache-IsCoherent cache tag v = elim (Option-cases (touch tag cache.time cache.items)) [
    | inl k ↦ rw (read_cache, k) (v, inl refl)
    | inr ((d, items), k) ↦
        let (same, kept, size) = touch-AllTrue tag cache.time cache.items items d v.all_true k in
        rw (read_cache, k)
          (
            record { all_true = kept; fits = omega (arith, size, v.fits) },
            inr (ap (λ (b : Bytes). some b) same),
          )
  ]

  pub write_cache-IsCoherent :
      {H : Type 0} (a : Allocator H) (cache : Cache) (tag address : ℕ) (h : H)
      → IsCoherent cache
      → IsCoherent (write_cache a cache tag address (disk tag) h).0
  unfolding write_cache
  write_cache-IsCoherent a cache tag address h v =
      let item : CacheItem = record {
        tag = tag;
        time = cache.time;
        address = address;
        sector = disk tag;
      } in
      let i = victim cache.items in
      elim (Bool-cases (length cache.items == cache_size)) [
        | inl full ↦
            rw (write_cache, full)
              (let (kept, size) = AllTrue-set i item cache.items v.all_true refl in
                record { all_true = kept; fits = omega (arith, size, v.fits) })
        | inr free ↦
            rw (write_cache, free)
              (record {
                all_true = AllTrue-++ cache.items (item ∷ []) v.all_true (refl, tt);
                fits = ground (arith, length-append cache.items (item ∷ []), v.fits);
              })
      ]
