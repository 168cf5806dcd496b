-- ===== src/Io/Sector.antt =====
-- `ReadSector` of src/io.c, over the drive functions, the heap and the cache.
pub mod Slice
pub mod Steps
pub mod Device
use osldr.Base.{
  ℕ, zero, suc, ◌+◌, ◌-◌, ◌*◌, ◌/◌, ◌%◌, ◌≤◌, ◌<◌, ◌^◌, min, max, ◌⊎◌, ◌↔◌, ◌≡◌, ◌≢◌, inl, inr,
  refl, sym, ap, ◌∙◌, Bool, true, false, not, ◌&&◌, ◌||◌, Option, none, some, List, [], ◌∷◌, ◌++◌,
  map, Bool-cases, Option-cases, leb, ltb, ◌==◌, if◌then◌else◌, add32, sub32, mul32, add64, sub64,
  mul64, arith, dec_le, dec_lt, ℕ_discrete, length, get_elem?, get_or, set, take, drop, replicate,
  Bytes, bit_and, bit_or, bit_xor,
}
use osldr.Allocator.{Allocator}
use osldr.Io.Errno.{enomem, eio}
use osldr.Io.Cache.{CacheItem, Cache, read_cache, write_cache}

-- What `ReadSector` calls of src/drive.c, for one drive with the state `W`: the sectors
-- that `ReadDrive` puts into the buffer, whose number it returns; `ResetDrive`.
pub record DriveOps (W : Type 0) : Type 0 where
  pub read : ℕ → ℕ → W → List Bytes × W
  pub reset : W → W

-- The fields of `DEVICE` that `ReadSector` uses.
pub record Volume : Type 0 where
  pub start_sector : ℕ
  pub n_sectors : ℕ

abbrev pub max_read_try : ℕ
max_read_try = 8

-- How many sectors from `count` on are read at once: up to the end, or to the next one that is cached.
-- `left` sectors follow `last`, the last one of the run.
pub uncached_run : ℕ → ℕ → ℕ → Cache → ℕ × Cache
uncached_run zero last count cache = (count, cache)
uncached_run (suc left) last count cache =
    let (found, cache') = read_cache cache (add64 last 1) in
    let on = uncached_run left (add64 last 1) (count + 1) cache' in
    elim found [ none ↦ on | some d ↦ (count, cache') ]

-- All that changes: the drive, the heap and the cache; and `errno`, if it is set.
pub record State (W H : Type 0) : Type 0 where
  pub world : W
  pub heap : H
  pub cache : Cache
  pub errno : Option ℕ

module _ {W H : Type 0} (drive : DriveOps W) (a : Allocator H) (bytes_per_sector : ℕ) where
  -- The halving loop: the count that could be allocated, and the block.
  pub allocate_run : ℕ → ℕ → H → Option (ℕ × ℕ) × H
  allocate_run zero count h = (none, h)
  allocate_run (suc fuel) count h =
      let (block, h') = a.malloc (mul64 count bytes_per_sector % 2 ^ 32) h in
      let less = allocate_run fuel (count / 2) h' in
      elim block [
        | some p ↦ (some (count, p), h')
        | none ↦ if ltb 1 (count / 2) then less else (none, h')
      ]

  -- The attempts to read: the sectors, or `none` after the last.
  pub try_read : ℕ → ℕ → ℕ → W → Option (List Bytes) × W
  try_read zero sector count w = (none, w)
  try_read (suc tries) sector count w =
      let (sectors, w') = drive.read sector count w in
      let again = try_read tries sector count (drive.reset w') in
      if length sectors == count then (some sectors, w') else again

  -- The loop that writes to the cache.
  pub cache_run : ℕ → List Bytes → Cache → H → Cache × H
  cache_run sector [] cache h = (cache, h)
  cache_run sector (s ∷ ss) cache h =
      let (block, h') = a.malloc bytes_per_sector h in
      let (cache', h'') : Cache × H = elim block [
        | none ↦ (cache, h')
        | some p ↦ write_cache a cache sector p s h'
      ] in
      cache_run (sector + 1) ss cache' h''

  -- One round of the loop for a sector that is not cached: the sectors read, or `none` for a `break`.
  pub fetch : ℕ → ℕ → ℕ → State W H → Option (List Bytes) × State W H
  fetch start sector n s =
      let (count, cache) = uncached_run (n - 1) sector 1 s.cache in
      let (block, h) = allocate_run count count s.heap in
      elim block [
        | none ↦ (none, record s { heap = h; cache = cache; errno = some enomem })
        | some (count', p) ↦
            let (got, w) = try_read max_read_try (add64 start sector) count' s.world in
            let failed : State W H = record {
              world = w;
              heap = a.free p h;
              cache = cache;
              errno = some eio;
            } in
            elim got [
              | none ↦ (none, failed)
              | some sectors ↦
                  let (cache', h') = cache_run sector sectors cache h in
                  (some sectors, record s { world = w; heap = a.free p h'; cache = cache' })
            ]
      ]

  -- The loop. The sectors that it puts into the buffer; `Read` is their number.
  pub read_loop : ℕ → ℕ → ℕ → ℕ → State W H → List Bytes × State W H
  read_loop zero start sector n s = ([], s)
  read_loop (suc fuel) start sector n s =
      let (found, cache) = read_cache s.cache sector in
      let (got, s') : Option (List Bytes) × State W H = elim found [
        | some d ↦ (some (d ∷ []), record s { cache = cache })
        | none ↦ fetch start sector n (record s { cache = cache })
      ] in
      let round : List Bytes × State W H = elim got [
        | none ↦ ([], s')
        | some sectors ↦
            let (more, s'') =
              read_loop fuel start (add64 sector (length sectors)) (n - length sectors) s' in
            (sectors ++ more, s'')
      ] in
      if n == 0 then ([], s) else round

  pub read_sector : Volume → ℕ → ℕ → State W H → List Bytes × State W H
  read_sector v sector n s =
      let run = read_loop n v.start_sector sector n s in
      if ltb v.n_sectors (add64 sector n) then ([], record s { errno = some eio }) else run

-- `ReadSector`, from the drive's parameters on: their bytes per sector, if there are any.
pub read_volume :
    {W H : Type 0}
    → DriveOps W
    → Allocator H
    → Option ℕ
    → Volume
    → ℕ
    → ℕ
    → State W H
    → List Bytes × State W H
read_volume drive a none v sector n s = ([], record s { errno = some eio })
read_volume drive a (some bytes_per_sector) v sector n s =
    read_sector drive a bytes_per_sector v sector n s
