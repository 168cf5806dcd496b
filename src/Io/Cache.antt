-- ===== src/Io/Cache.antt =====
-- The cache of sectors of a device: `ReadCache` and `WriteCache` of src/io.c.
pub mod Coherent
pub mod Oldest
use osldr.Base.{
  ℕ, zero, suc, ◌+◌, ◌-◌, ◌*◌, ◌/◌, ◌%◌, ◌≤◌, ◌<◌, ◌^◌, min, max, ◌⊎◌, ◌↔◌, ◌≡◌, ◌≢◌, inl, inr,
  refl, sym, ap, ◌∙◌, Bool, true, false, not, ◌&&◌, ◌||◌, Option, none, some, List, [], ◌∷◌, ◌++◌,
  map, Bool-cases, Option-cases, leb, ltb, ◌==◌, if◌then◌else◌, add32, sub32, mul32, add64, sub64,
  mul64, arith, dec_le, dec_lt, ℕ_discrete, length, get_elem?, get_or, set, take, drop, replicate,
  Bytes, bit_and, bit_or, bit_xor,
}
use osldr.Allocator.{Allocator}

abbrev pub cache_size : ℕ
cache_size = 32

-- `CACHE_ITEM`. `Data` points to a block of the item's own: its address, and the sector in it.
pub record CacheItem : Type 0 where
  pub tag : ℕ
  pub time : ℕ
  pub address : ℕ
  pub sector : Bytes

-- `CACHE`: the items in use, whose number is `nItems`.
pub record Cache : Type 0 where
  pub time : ℕ
  pub items : List CacheItem

-- The search of `ReadCache`: the data of the first item with the tag, whose time is set.
pub touch : ℕ → ℕ → List CacheItem → Option (Bytes × List CacheItem)
touch tag now [] = none
touch tag now (c ∷ cs) =
    let rest = touch tag now cs in
    let there : Option (Bytes × List CacheItem) = elim rest [
      | none ↦ none
      | some (d, cs') ↦ some (d, c ∷ cs')
    ] in
    if c.tag == tag then some (c.sector, record c { time = now } ∷ cs) else there

pub read_cache : Cache → ℕ → Option Bytes × Cache
read_cache cache tag = elim (touch tag cache.time cache.items) [
  | none ↦ (none, cache)
  | some (d, items) ↦ (some d, record { time = add32 cache.time 1; items = items })
]

-- The loop of `WriteCache` over the items from `j` on: the index of the least recently used, which is
-- `i` with its time so far.
pub oldest : ℕ → ℕ → ℕ → List CacheItem → ℕ
oldest j i time [] = i
oldest j i time (c ∷ cs) =
    let older = oldest (j + 1) j c.time cs in
    let same = oldest (j + 1) i time cs in if ltb c.time time then older else same

-- The index that a full cache gives up.
pub victim : List CacheItem → ℕ
victim [] = 0
victim (c ∷ cs) = oldest 1 0 c.time cs

module _ {H : Type 0} (a : Allocator H) where
  pub write_cache : Cache → ℕ → ℕ → Bytes → H → Cache × H
  write_cache cache tag address sector h =
      let item : CacheItem = record {
        tag = tag;
        time = cache.time;
        address = address;
        sector = sector;
      } in
      let i = victim cache.items in
      let freed : H = elim (get_elem? cache.items i) [ none ↦ h | some c ↦ a.free c.address h ] in
      if length cache.items == cache_size
      then (record { time = add32 cache.time 1; items = set cache.items i item }, freed)
      else (record { time = add32 cache.time 1; items = cache.items ++ (item ∷ []) }, h)
