-- ===== src/Io/Sector/Steps.antt =====
-- The steps of `ReadSector`: what each leaves of the cache and what it reads.
use osldr.Base.{
  ℕ, zero, suc, ◌+◌, ◌/◌, ◌%◌, ◌≤◌, ◌<◌, ◌^◌, ◌≡◌, inl, inr, sym, ◌∙◌, false, some, List,
  Bool-cases, Option-cases, ltb, ◌==◌, mul64, add64, arith, dec_lt, length, Bytes,
}
use osldr.Base.{lt→ltb, ==_iff}
use osldr.Allocator.{Allocator}
use osldr.Sectors.{slice}
use osldr.Io.Cache.{Cache, read_cache}
use osldr.Io.Cache.Coherent.{IsCoherent, read_cache-IsCoherent, write_cache-IsCoherent}
use osldr.Io.Sector.{DriveOps, uncached_run, allocate_run, try_read, cache_run}

pub uncached_run-IsCoherent :
    (disk : ℕ → Bytes) (left last count : ℕ) (cache : Cache)
    → IsCoherent disk cache
    → let (n, cache') = uncached_run left last count cache in
      IsCoherent disk cache' × (count ≤ n) × (n ≤ count + left)
unfolding uncached_run
uncached_run-IsCoherent disk zero last count cache v = (v, omega arith, omega arith)
uncached_run-IsCoherent disk (suc left) last count cache v =
    let cache' = (read_cache cache (add64 last 1)).1 in
    let (kept, found) = read_cache-IsCoherent disk cache (add64 last 1) v in
    let (kept', more, fits) =
      uncached_run-IsCoherent disk left (add64 last 1) (count + 1) cache' kept in
    elim found [
      | inl n ↦ rw (uncached_run, n) (kept', omega (arith, more), omega (arith, fits))
      | inr s ↦ rw (uncached_run, s) (kept, omega arith, omega arith)
    ]

module _ {W H : Type 0} (drive : DriveOps W) (a : Allocator H) (bytes_per_sector : ℕ) where
  -- The halving of the count stops at 1, so that a block that is got holds at least a sector.
  pub allocate_run-le :
      (fuel count p n : ℕ) (h : H)
      → 0 < count
      → (allocate_run drive a bytes_per_sector fuel count h).0 ≡ some (n, p)
      → (0 < n) × (n ≤ count)
  unfolding allocate_run
  allocate_run-le zero count p n h pos e = ground arith
  allocate_run-le (suc fuel) count p n h pos e =
      let (block, h') = a.malloc (mul64 count bytes_per_sector % 2 ^ 32) h in
      elim (Option-cases (a.malloc (mul64 count bytes_per_sector % 2 ^ 32) h).0) [
        | inr (q, k) ↦ ground (arith, rw (allocate_run, k) at e)
        | inl k ↦ elim (dec_lt 1 (count / 2)) [
          | yes more ↦
              let e' = rw (allocate_run, k, lt→ltb 1 (count / 2) more) at e in
              omega (arith, allocate_run-le fuel (count / 2) p n h' (omega arith) e')
          | no few ↦
              let stop : ltb 1 (count / 2) ≡ false = ground arith in
              ground (arith, rw (allocate_run, k, stop) at e)
        ]
      ]

  -- A read that gives the count asked for has read the sectors asked for.
  abbrev pub IsHonest : (ℕ → Bytes) → Type 0
  IsHonest disk =
      (sector n : ℕ) (w : W)
      → length (drive.read sector n w).0 ≡ n
      → (drive.read sector n w).0 ≡ slice disk sector n

  pub try_read-slice :
      (disk : ℕ → Bytes) (tries sector n : ℕ) (w : W) (got : List Bytes)
      → IsHonest disk
      → (try_read drive a bytes_per_sector tries sector n w).0 ≡ some got
      → got ≡ slice disk sector n
  unfolding try_read
  try_read-slice disk zero sector n w got honest e = ground arith
  try_read-slice disk (suc tries) sector n w got honest e =
      elim (Bool-cases (length (drive.read sector n w).0 == n)) [
        | inl k ↦
            let asked : length (drive.read sector n w).0 ≡ n = (==_iff _ _).0 k in
            let e' = rw (try_read, k) at e in
            let this : (drive.read sector n w).0 ≡ got = cc e' in sym this ∙ honest sector n w asked
        | inr k ↦
            try_read-slice disk tries sector n (drive.reset (drive.read sector n w).1) got honest
              (rw (try_read, k) at e)
      ]

  -- What is cached of a run of sectors is what the disk holds.
  pub cache_run-IsCoherent :
      (disk : ℕ → Bytes) (n sector : ℕ) (cache : Cache) (h : H)
      → IsCoherent disk cache
      → IsCoherent disk (cache_run drive a bytes_per_sector sector (slice disk sector n) cache h).0
  unfolding cache_run
  cache_run-IsCoherent disk zero sector cache h v = v
  cache_run-IsCoherent disk (suc n) sector cache h v =
      let h' = (a.malloc bytes_per_sector h).1 in
      elim (Option-cases (a.malloc bytes_per_sector h).0) [
        | inl k ↦ rw (cache_run, k) (cache_run-IsCoherent disk n (sector + 1) cache h' v)
        | inr (p, k) ↦
            rw (cache_run, k)
              (cache_run-IsCoherent disk n (sector + 1) _ _
                (write_cache-IsCoherent disk a cache sector p h' v))
      ]
