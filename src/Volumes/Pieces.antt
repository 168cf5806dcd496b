-- ===== src/Volumes/Pieces.antt =====
-- What a part of a run holds.
use osldr.Base.{
  ℕ, zero, suc, ◌+◌, ◌-◌, ◌*◌, ◌/◌, ◌%◌, ◌≤◌, ◌<◌, ◌^◌, ◌⊎◌, ◌≡◌, inl, inr, refl, ap, ◌∙◌, none,
  some, List, Bool-cases, Option-cases, ltb, ◌==◌, if◌then◌else◌, sub64, mul64, arith, length, take,
  drop, Bytes,
}
use osldr.Sectors.{slice}
use osldr.Io.Errno.{enomem, eio}
use osldr.Base.{==_iff}
use native.Mathlib.Nat.{mul-le-mul_right, mul-le-mul_left, div-mul-le_self, le-div_iff_mul-le}
use osldr.Volumes.{VolumeOps, IsFaithful, Reports, concat, allocate_part, read_part}
use osldr.Volumes.Stream.{stream, device_byte, concat-slice, take-stream, drop-stream}

module _ {S : Type 0} (ops : VolumeOps S) (I : S → Type 0) (volume : ℕ → Bytes)
    (faithful : IsFaithful ops I volume) (E : S → Type 0) (reports : Reports ops E) where
  allocate_part-le :
      (fuel count unit : ℕ) (s : S)
      → I s
      → 0 < count
      → let (r, s') = allocate_part ops fuel count unit s in
        I s' × ((k p : ℕ) → r ≡ some (k, p) → (0 < k) × (k ≤ count))
  unfolding allocate_part
  allocate_part-le zero count unit s v pos = (v, λ k p e. absurd (cc e))
  allocate_part-le (suc fuel) count unit s v pos =
      let size = mul64 count unit % 2 ^ 32 in
      let kept = faithful.malloc_keeps size s v in
      elim (Option-cases (ops.malloc size s).0) [
        | inr (p, e) ↦
            rw (allocate_part, e)
              (
                kept,
                λ k q same. let at : count ≡ k = cc same in (omega (arith, at), omega (arith, at)),
              )
        | inl e ↦ elim (Bool-cases (ltb 1 (count / 2))) [
          | inr small ↦ rw (allocate_part, e, small) (kept, λ k q same. absurd (cc same))
          | inl more ↦
              let (kept', less) =
                allocate_part-le fuel (count / 2) unit (ops.malloc size s).1 kept
                  (ground (arith, more)) in
              rw (allocate_part, e, more)
                (kept', λ k q same. let (low, high) = less k q same in (low, omega (arith, high)))
        ]
      ]

  -- `read_part` reads whole units from the beginning of the run, at least one, or fails.
  pub read_part-slice :
      (unit per sector count : ℕ) (s : S)
      → I s
      → 0 < count
      → sector + count * per < 2 ^ 64
      → let (r, s') = read_part ops unit per sector count s in
        I s'
        × ((r ≡ none) × E s'
            ⊎ ((k : ℕ) × (0 < k)
                × (k ≤ count)
                × (r ≡ some (concat (slice volume sector (k * per)), k))))
  unfolding read_part
  read_part-slice unit per sector count s v pos fits =
      let (kept, less) = allocate_part-le count count unit s v pos in
      let s' = (allocate_part ops count count unit s).1 in
      elim (Option-cases (allocate_part ops count count unit s).0) [
        | inl e ↦
            rw (read_part, e)
              (faithful.errno_keeps enomem s' kept, inl (refl, reports.errno_sets enomem s'))
        | inr ((k, p), e) ↦
            let (low, high) = less k p e in
            let product : k * per ≤ count * per = mul-le-mul_right per high in
            let word : mul64 k per ≡ k * per = omega (arith, product) in
            let room : sector + k * per < 2 ^ 64 = omega (arith, product) in
            let kept' = faithful.read_keeps sector (k * per) s' kept room in
            elim (Bool-cases (length (ops.read_sector sector (k * per) s').0 == k * per)) [
              | inl whole ↦
                  let same =
                    faithful.read_slice sector (k * per) s' kept room ((==_iff _ _).0 whole) in
                  rw (read_part, e, word, whole)
                    (
                      faithful.free_keeps p _ kept',
                      inr (k, low, high, ap (λ (l : List Bytes). some (concat l, k)) same),
                    )
              | inr part ↦
                  rw (read_part, e, word, part)
                    (
                      faithful.free_keeps p _ (faithful.errno_keeps eio _ kept'),
                      inl (refl, reports.free_leaves p _ (reports.errno_sets eio _)),
                    )
            ]
      ]

-- Bytes that are cut out of whole sectors.
pub cut-stream :
    (volume : ℕ → Bytes) (size : ℕ)
    → 0 < size
    → ((i : ℕ) → length (volume i) ≡ size)
    → (sector count off len : ℕ) → off + len ≤ count * size
    → take len (drop off (concat (slice volume sector count)))
      ≡ stream (device_byte volume size) (sector * size + off) len
cut-stream volume size pos whole sector count off len fits =
    let byte = device_byte volume size in
    ap (λ (l : Bytes). take len (drop off l)) (concat-slice volume size pos whole sector count)
    ∙ (ap (take len) (drop-stream byte (sector * size) off (count * size))
        ∙ take-stream byte (sector * size + off) len (count * size - off) (omega arith))

-- How many units of a size `n` bytes from an offset on in the first one reach into.
module _ (size off n : ℕ) (pos : 0 < size) (below : off < size) (some_bytes : 0 < n) where
  abbrev units : ℕ
  units = (off + n + size - 1) / size

  pub units-pos : 0 < units
  units-pos = (le-div_iff_mul-le {k = size} {x = 1} {y = off + n + size - 1} pos).1 (omega arith)

  pub units-le : units * size ≤ off + n + size - 1
  units-le = div-mul-le_self (off + n + size - 1) size

  pub units-lt : units ≤ off + n + size - 1
  units-lt = omega (arith, units-le, mul-le-mul_left units pos)

-- What is taken of `k` units.
module _ (size off n k : ℕ) (below : off < size) (k_pos : 0 < k) (fits : k * size < 2 ^ 64) where
  abbrev rest_of : ℕ
  rest_of = sub64 (mul64 k size) off

  pub rest-whole : off + rest_of ≡ k * size
  rest-whole =
      let least : 1 * size ≤ k * size = mul-le-mul_right size k_pos in
      let word : mul64 k size ≡ k * size = omega (arith, fits) in
      rw word (omega (arith, least, fits, below))

  pub part-le :
      0 < n
      → let len = if ltb n rest_of then n else rest_of in
        (0 < len) × (len ≤ n) × (off + len ≤ k * size)
  part-le n_pos =
      let least : 1 * size ≤ k * size = mul-le-mul_right size k_pos in
      let whole = rest-whole in
      elim (Bool-cases (ltb n rest_of)) [
        | inl less ↦ rw less (n_pos, omega arith, ground (arith, less, whole))
        | inr more ↦
            rw more (omega (arith, whole, least, below), ground (arith, more), omega (arith, whole))
      ]
