-- ===== src/Io/Sector/Slice.antt =====
-- What `ReadSector` reads.
use osldr.Base.{
  ℕ, zero, suc, ◌+◌, ◌-◌, ◌≤◌, ◌<◌, ◌^◌, ◌⊎◌, ◌≡◌, inl, inr, refl, ap, ◌∙◌, true, false, Option,
  none, some, List, [], ◌∷◌, ◌++◌, Option-cases, ltb, ◌==◌, add64, arith, dec_le, length, Bytes,
}
use osldr.Base.{length-append}
use osldr.Allocator.{Allocator}
use osldr.Sectors.{slice, slice_split, length-slice}
use osldr.Io.Errno.{enomem, eio}
use osldr.Io.Cache.{read_cache}
use osldr.Io.Cache.Coherent.{IsCoherent, read_cache-IsCoherent}
use osldr.Io.Sector.{
  DriveOps, Volume, max_read_try, uncached_run, allocate_run, try_read, State, fetch, read_loop,
  read_sector,
}
use osldr.Io.Sector.Steps.{
  uncached_run-IsCoherent, allocate_run-le, IsHonest, try_read-slice, cache_run-IsCoherent,
}

slice_shift :
    (disk : ℕ → Bytes) (start sector n : ℕ)
    → slice disk (start + sector) n ≡ slice (λ t. disk (start + t)) sector n
slice_shift disk start sector zero = refl
slice_shift disk start sector (suc n) =
    let next : start + sector + 1 ≡ start + (sector + 1) = omega arith in
    ap (λ (l : List Bytes). disk (start + sector) ∷ l)
      (rw next (slice_shift disk start (sector + 1) n))

-- A break has set `errno`.
abbrev pub Failed : Option ℕ → Type 0
Failed e = (e ≡ some enomem) ⊎ (e ≡ some eio)

-- The sectors `got` are the first of the `n` sectors from `sector` on, and all of them if no error is set.
pub record Reads {W H : Type 0} (disk : ℕ → Bytes) (sector n : ℕ) (got : List Bytes) (s : State W H)
    : Type 0 where
  pub coherent : IsCoherent disk s.cache
  pub le : length got ≤ n
  pub prefix : got ≡ slice disk sector (length got)
  pub whole : (length got ≡ n) ⊎ Failed s.errno

module _ {W H : Type 0} (drive : DriveOps W) (a : Allocator H) (bytes_per_sector : ℕ)
    (disk : ℕ → Bytes) (honest : IsHonest drive a bytes_per_sector disk) (start : ℕ) where
  abbrev volume : ℕ → Bytes
  volume t = disk (start + t)

  -- What a round leaves: at least one sector, or an error.
  record Fetched (sector n : ℕ) (r : Option (List Bytes) × State W H) : Type 0 where
    coherent : IsCoherent volume r.1.cache
    result :
        ((r.0 ≡ none) × Failed r.1.errno)
        ⊎ ((k : ℕ) × (0 < k) × (k ≤ n) × (r.0 ≡ some (slice volume sector k)))

  fetch-Fetched :
      (sector n : ℕ) (s : State W H)
      → 0 < n
      → start + sector < 2 ^ 64
      → IsCoherent volume s.cache
      → Fetched sector n (fetch drive a bytes_per_sector start sector n s)
  unfolding fetch
  fetch-Fetched sector n s pos fits v =
      let count = (uncached_run (n - 1) sector 1 s.cache).0 in
      let (kept, more, le) = uncached_run-IsCoherent volume (n - 1) sector 1 s.cache v in
      let h = (allocate_run drive a bytes_per_sector count count s.heap).1 in
      let word : add64 start sector ≡ start + sector = omega arith in
      elim (Option-cases (allocate_run drive a bytes_per_sector count count s.heap).0) [
        | inl k ↦ rw (fetch, k) (record { coherent = kept; result = inl (refl, inl refl) })
        | inr ((count', p), k) ↦
            let (some_sector, fewer) =
              allocate_run-le drive a bytes_per_sector count count p count' s.heap
                (omega (arith, more)) k in
            elim (Option-cases
              (try_read drive a bytes_per_sector max_read_try (add64 start sector) count'
                s.world).0) [
                  | inl t ↦
                      rw (fetch, k, t) (record { coherent = kept; result = inl (refl, inr refl) })
                  | inr (got, t) ↦
                      let read : got ≡ slice volume sector count' =
                        try_read-slice drive a bytes_per_sector disk max_read_try
                          (add64 start sector) count' s.world got honest t
                        ∙ rw word (slice_shift disk start sector count') in
                      rw (fetch, k, t, read)
                        (record {
                          coherent =
                              cache_run-IsCoherent drive a bytes_per_sector volume count' sector _ h
                                kept;
                          result = inr (count', some_sector, omega (arith, fewer, le), refl);
                        })
                ]
      ]

  -- What is read after `k` sectors continues them.
  Reads-join :
      (k sector n : ℕ) (more : List Bytes) (s : State W H)
      → k ≤ n
      → Reads volume (sector + k) (n - k) more s
      → Reads volume sector n (slice volume sector k ++ more) s
  Reads-join k sector n more s le r =
      let size : length (slice volume sector k ++ more) ≡ k + length more =
        length-append (slice volume sector k) more
        ∙ ap (λ (m : ℕ). m + length more) (length-slice volume sector k) in
      record {
        coherent = r.coherent;
        le = omega (arith, size, r.le);
        prefix = rw size (
            ap (λ (l : List Bytes). slice volume sector k ++ l) r.prefix
            ∙ slice_split volume sector k (length more));
        whole = elim r.whole [ inl w ↦ inl (omega (arith, size)) | inr e ↦ inr e ];
      }

  read_loop-Reads :
      (fuel sector n : ℕ) (s : State W H)
      → n ≤ fuel
      → start + (sector + n) ≤ 2 ^ 64
      → sector + n < 2 ^ 64
      → IsCoherent volume s.cache
      → let (got, s') = read_loop drive a bytes_per_sector fuel start sector n s in
        Reads volume sector n got s'
  unfolding read_loop
  read_loop-Reads zero sector n s enough fits small v = record {
    coherent = v;
    le = omega arith;
    prefix = refl;
    whole = inl (omega arith);
  }
  read_loop-Reads (suc fuel) sector zero s enough fits small v = record {
    coherent = v;
    le = omega arith;
    prefix = refl;
    whole = inl refl;
  }
  read_loop-Reads (suc fuel) sector (suc n) s enough fits small v =
      let go : (suc n == 0) ≡ false = ground arith in
      let cache = (read_cache s.cache sector).1 in
      let (kept, found) = read_cache-IsCoherent volume s.cache sector v in
      elim found [
        | inr hit ↦
            let next : add64 sector 1 ≡ sector + 1 = omega (arith, small) in
            rw (read_loop, go, hit, hit, next)
              (Reads-join 1 sector (suc n) _ _ (omega arith) (
                read_loop-Reads fuel (sector + 1) (suc n - 1) (record s { cache = cache })
                  (omega arith) (omega arith) (omega (arith, small)) kept))
        | inl miss ↦
            let s1 : State W H = record s { cache = cache } in
            let r = fetch-Fetched sector (suc n) s1 (omega arith) (omega arith) kept in
            elim r.result [
              | inl (n0, failed) ↦
                  rw (read_loop, go, miss, n0, miss)
                    (record {
                      coherent = r.coherent;
                      le = omega arith;
                      prefix = refl;
                      whole = inr failed;
                    })
              | inr (k, pos, le, got) ↦
                  let next : add64 sector k ≡ sector + k = omega (arith, small, le) in
                  rw (read_loop, go, miss, got, miss, length-slice volume sector k, next)
                    (Reads-join k sector (suc n) _ _ le (
                      read_loop-Reads fuel (sector + k) (suc n - k)
                        (fetch drive a bytes_per_sector start sector (suc n) s1).1 (omega arith)
                        (omega arith) (omega (arith, small, le)) r.coherent))
            ]
      ]

  -- What `ReadSector` reads of a device, over a drive whose complete reads are honest, with a cache that
  -- holds what the disk holds, and with no sum of sector numbers that exceeds 64 bits: a range that does
  -- not lie in the device gives EIO and nothing; else the sectors in the buffer are the first of the range,
  -- in order, and all of it unless ENOMEM or EIO is set. The cache goes on holding what the disk holds.
  pub read_sector-Reads :
      (size sector n : ℕ) (s : State W H)
      → start + size ≤ 2 ^ 64
      → sector + n < 2 ^ 64
      → IsCoherent volume s.cache
      → let device : Volume = record { start_sector = start; n_sectors = size } in
        let (got, s') = read_sector drive a bytes_per_sector device sector n s in
        (sector + n ≤ size) × Reads volume sector n got s'
        ⊎ (size < sector + n) × (got ≡ []) × (s' ≡ record s { errno = some eio })
  unfolding read_sector
  read_sector-Reads size sector n s room small v = elim (dec_le (sector + n) size) [
    | yes inside ↦
        let ok : ltb size (add64 sector n) ≡ false = ground arith in
        inl (
          inside,
          rw (read_sector, ok) (read_loop-Reads n sector n s (omega arith) (omega arith) small v),
        )
    | no outside ↦
        let bad : ltb size (add64 sector n) ≡ true = ground arith in
        inr (omega arith, rw (read_sector, bad) refl, rw (read_sector, bad) refl)
  ]
