-- ===== src/Raw/Read.antt =====
-- The bytes that `_ReadFile` of src/raw.c reads.
use osldr.Base.{
  ℕ, zero, suc, ◌+◌, ◌-◌, ◌*◌, ◌/◌, ◌%◌, ◌≤◌, ◌<◌, ◌^◌, ◌⊎◌, ◌≡◌, inl, inr, Bool-cases, ltb, ◌==◌,
  if◌then◌else◌, add64, sub64, mul64, arith, length, Bytes,
}
use native.Mathlib.Nat.{div-add-mod', mod-lt, mul-le-mul_left, mul-le-mul_right}
use osldr.Volumes.{VolumeOps, IsFaithful, Reports, read_part}
use osldr.Volumes.Stream.{device_byte, Got, Got-nothing, Got-more, length-more}
use osldr.Volumes.Pieces.{read_part-slice, cut-stream, units-pos, units-le, units-lt, part-le}
use osldr.Raw.{raw_loop, raw_read_file}

module _ {S : Type 0} (ops : VolumeOps S) (I : S → Type 0) (volume : ℕ → Bytes)
    (faithful : IsFaithful ops I volume) (E : S → Type 0) (reports : Reports ops E) (size : ℕ)
    (pos : 0 < size) (small : size < 2 ^ 32) (whole : (i : ℕ) → length (volume i) ≡ size) where
  abbrev byte : ℕ → ℕ
  byte = device_byte volume size

  raw_loop-Got :
      (fuel cursor n : ℕ) (s : S)
      → n ≤ fuel
      → cursor + n + size < 2 ^ 64
      → I s
      → let r = raw_loop ops size fuel cursor n s in
        Got I byte cursor n r × ((length r.0 ≡ n) ⊎ E r.1)
  unfolding raw_loop
  raw_loop-Got zero cursor n s enough fits v = (Got-nothing I byte cursor n s v, inl (omega arith))
  raw_loop-Got (suc fuel) cursor n s enough fits v = elim (Bool-cases (n == 0)) [
    | inl nothing ↦
        rw (raw_loop, nothing) (Got-nothing I byte cursor n s v, inl (ground (arith, nothing)))
    | inr something ↦
        let n_pos : 0 < n = ground (arith, something) in
        let off = cursor % size in
        let below : off < size = mod-lt cursor pos in
        let count = (off + n + size - 1) / size in
        let word : sub64 (add64 (add64 off n) size) 1 ≡ off + n + size - 1 =
          omega (arith, below, fits) in
        let sector : cursor / size * size + off ≡ cursor = div-add-mod' cursor size in
        let count_le = units-le size off n pos below n_pos in
        let sector_le = mul-le-mul_left (cursor / size) pos in
        let room : cursor / size + count * 1 < 2 ^ 64 =
          omega (arith, units-lt size off n pos below n_pos, sector, sector_le, fits, below) in
        let (kept, cases) =
          read_part-slice ops I volume faithful E reports size 1 (cursor / size) count s v
            (units-pos size off n pos below n_pos) room in
        elim cases [
          | inl (failed, e) ↦
              rw (raw_loop, something, word, failed, word)
                (Got-nothing I byte cursor n _ kept, inr e)
          | inr (k, k_pos, k_le, e) ↦
              let product : k * size ≤ count * size = mul-le-mul_right size k_le in
              let k_fits : k * size < 2 ^ 64 =
                omega (arith, product, count_le, fits, sector, below) in
              let rest = sub64 (mul64 k size) off in
              let len = if ltb n rest then n else rest in
              let (len_pos, len_le, len_fits) = part-le size off n k below k_pos k_fits n_pos in
              let next : add64 cursor len ≡ cursor + len = omega (arith, len_le, fits) in
              let one : k * 1 ≡ k = omega arith in
              let cut = cut-stream volume size pos whole (cursor / size) k off len len_fits in
              let s1 = (read_part ops size 1 (cursor / size) count s).1 in
              let (more, whole_or_error) =
                raw_loop-Got fuel (cursor + len) (n - len)
                  (read_part ops size 1 (cursor / size) count s).1 (omega (arith, len_pos, len_le))
                  (omega (arith, len_le, fits)) kept in
              rw (raw_loop, something, word, e, word, one, next, cut, sector)
                (
                  Got-more I byte cursor n len _ _ len_le more,
                  elim whole_or_error [
                    | inl all ↦ inl (
                        omega (
                          arith,
                          length-more I byte cursor n len
                              (raw_loop ops size fuel (cursor + len) (n - len) s1).0,
                          all,
                          len_le,
                        ))
                    | inr failed ↦ inr failed
                  ],
                )
        ]
  ]

  -- `_ReadFile` of src/raw.c for fewer than 2 ^ 32 bytes, while `ReadSector` is faithful to a device whose sectors have
  -- the size, above 0 and below 2 ^ 32, that the drive's parameters say, and while the cursor, the number of bytes and
  -- the size add up to less than 2 ^ 64: the bytes in the buffer are those of the device from the cursor on, no more
  -- than were asked for, and all of them unless `errno` is set; the cursor moves by their number, which is returned.
  pub raw_read_file-Got :
      (cursor n : ℕ) (s : S)
      → n < 2 ^ 32
      → cursor + n + size < 2 ^ 64
      → I s
      → let ((count, bytes, cursor'), s') = raw_read_file ops size cursor n s in
        Got I byte cursor n (bytes, s')
        × ((length bytes ≡ n) ⊎ E s')
        × (count ≡ length bytes)
        × (cursor' ≡ cursor + count)
  unfolding raw_read_file
  raw_read_file-Got cursor n s below fits v =
      let (g, whole_or_error) = raw_loop-Got n cursor n s (omega arith) fits v in
      (g, whole_or_error, omega (arith, g.le), omega (arith, g.le, fits))
