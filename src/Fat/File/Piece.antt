-- ===== src/Fat/File/Piece.antt =====
-- What `_ReadFile` reads of a run of clusters.
use osldr.Base.{
  ℕ, ◌+◌, ◌-◌, ◌*◌, ◌/◌, ◌%◌, ◌≤◌, ◌<◌, ◌^◌, ◌≡◌, ap, ◌∙◌, sub32, arith, dec_le, Bytes,
}
use native.Mathlib.Nat.{
  div-add-mod', mul-add-div_right, mul-add-mod_self_right, div-eq_of_lt, mod-eq_of_lt,
  mul-le-mul_right, mul-le-mul_left, div-lt_iff_lt-mul,
}
use osldr.Volumes.Stream.{stream, stream_ext, device_byte}
use osldr.Fat.File.{FatInfo, cluster_sector}
use osldr.Fat.File.Run.{chain, file_byte, IsSound}

module _ (volume : ℕ → Bytes) (fi : FatInfo) (sound : IsSound volume fi) (first : ℕ) where
  pub cluster_pos : 0 < fi.bytes_per_cluster
  cluster_pos =
      let product : 1 * fi.bytes_per_sector ≤ fi.sectors_per_cluster * fi.bytes_per_sector =
        mul-le-mul_right fi.bytes_per_sector sound.sectors_pos in
      rw sound.per_cluster (omega (arith, product, sound.sector_pos))

  -- The place of a byte in a run of consecutive clusters.
  place-run :
      (cluster j r : ℕ)
      → 2 ≤ cluster
      → (fi.data_start + (cluster + j - 2) * fi.sectors_per_cluster) * fi.bytes_per_sector + r
        ≡ (fi.data_start + (cluster - 2) * fi.sectors_per_cluster) * fi.bytes_per_sector
          + (j * fi.bytes_per_cluster + r)
  place-run cluster j r valid =
      let w = cluster - 2 in
      let at : cluster + j - 2 ≡ w + j = omega (arith, valid) in
      rw (at, sound.per_cluster) (omega arith)

  pub piece-stream :
      (q cluster count off len : ℕ)
      → 2 ≤ cluster
      → off + len ≤ count * fi.bytes_per_cluster
      → ((j : ℕ) → j < count → chain volume fi first (q + j) ≡ cluster + j)
      → stream
          (device_byte volume fi.bytes_per_sector)
          ((fi.data_start + (cluster - 2) * fi.sectors_per_cluster) * fi.bytes_per_sector + off)
          len
        ≡ stream (file_byte volume fi first) (q * fi.bytes_per_cluster + off) len
  piece-stream q cluster count off len valid fits run =
      let bpc = fi.bytes_per_cluster in
      let pos : 0 < bpc = cluster_pos in
      stream_ext (device_byte volume fi.bytes_per_sector) (file_byte volume fi first) _ _ len
        (λ i lt.
          let j = (off + i) / bpc in
          let r = (off + i) % bpc in
          let whole : j * bpc + r ≡ off + i = div-add-mod' (off + i) bpc in
          let inside : j < count = (div-lt_iff_lt-mul pos).1 (omega (arith, fits, lt)) in
          let sum : q * bpc + off + i ≡ q * bpc + (off + i) = omega arith in
          let quotient : (q * bpc + (off + i)) / bpc ≡ q + j = mul-add-div_right pos q (off + i) in
          let remainder : (q * bpc + (off + i)) % bpc ≡ r =
            mul-add-mod_self_right q bpc (off + i) in
          let at : (fi.data_start + (cluster - 2) * fi.sectors_per_cluster) * fi.bytes_per_sector
                + off
                + i
              ≡ (fi.data_start + (cluster + j - 2) * fi.sectors_per_cluster) * fi.bytes_per_sector
                + r =
            omega (arith, place-run cluster j r valid, whole) in
          rw (sum, quotient, remainder, run j inside)
            (ap (device_byte volume fi.bytes_per_sector) at))

  -- A place in a cluster.
  pub cluster_of :
      (place q r : ℕ)
      → place ≡ q * fi.bytes_per_cluster + r
      → r < fi.bytes_per_cluster
      → (place / fi.bytes_per_cluster ≡ q) × (place % fi.bytes_per_cluster ≡ r)
  cluster_of place q r e below =
      let quotient = mul-add-div_right (cluster_pos) q r in
      let none_more = div-eq_of_lt below in
      rw e (
        omega (arith, quotient, none_more),
        mul-add-mod_self_right q fi.bytes_per_cluster r ∙ mod-eq_of_lt below,
      )

  -- The sectors of a run have numbers of 32 bits.
  pub run_room :
      (cluster count : ℕ)
      → 2 ≤ cluster
      → fi.data_start + (cluster + count) * fi.sectors_per_cluster < 2 ^ 32
      → let base = fi.data_start + (cluster - 2) * fi.sectors_per_cluster in
        (cluster + count < 2 ^ 32)
        × (cluster_sector fi cluster ≡ base)
        × (base + count * fi.sectors_per_cluster < 2 ^ 64)
  run_room cluster count valid room =
      let least : (cluster + count) * 1 ≤ (cluster + count) * fi.sectors_per_cluster =
        mul-le-mul_left (cluster + count) sound.sectors_pos in
      let within : (cluster - 2 + count) * fi.sectors_per_cluster
          ≤ (cluster + count) * fi.sectors_per_cluster =
        mul-le-mul_right fi.sectors_per_cluster (omega arith) in
      let less : sub32 cluster 2 ≡ cluster - 2 = omega (arith, valid, least, room) in
      let sum : (cluster - 2 + count) * fi.sectors_per_cluster
          ≡ (cluster - 2) * fi.sectors_per_cluster + count * fi.sectors_per_cluster =
        omega arith in
      (
        omega (arith, least, room),
        rw less (omega (arith, within, sum, room)),
        omega (arith, within, sum, room),
      )

  -- A piece that is wanted only in part is the last one.
  pub last_piece :
      (count k wanted : ℕ)
      → count * fi.bytes_per_cluster < wanted + fi.bytes_per_cluster
      → wanted < k * fi.bytes_per_cluster
      → k ≤ count
      → count ≡ k
  last_piece count k wanted high low le = elim (dec_le count k) [
    | yes ge ↦ omega arith
    | no lt ↦
        let product : (k + 1) * fi.bytes_per_cluster ≤ count * fi.bytes_per_cluster =
          mul-le-mul_right fi.bytes_per_cluster (omega (arith, lt)) in
        absurd (omega (arith, product, high, low))
  ]

  -- Behind a piece, the rest of the run is wanted.
  pub behind_piece :
      (count k wanted : ℕ)
      → 0 < count - k
      → count * fi.bytes_per_cluster < wanted + fi.bytes_per_cluster
      → (k * fi.bytes_per_cluster < wanted)
        × ((count - k) * fi.bytes_per_cluster + k * fi.bytes_per_cluster
            < wanted + fi.bytes_per_cluster)
  behind_piece count k wanted left high =
      let bpc = fi.bytes_per_cluster in
      let product : (k + 1) * bpc ≤ count * bpc = mul-le-mul_right bpc (omega (arith, left)) in
      let split : count ≡ count - k + k = omega (arith, left) in
      let scaled : count * bpc ≡ (count - k + k) * bpc = ap (λ (c : ℕ). c * bpc) split in
      (omega (arith, product, high), omega (arith, scaled, high))

  pub shifted :
      (q cluster count k : ℕ)
      → ((j : ℕ) → j < count → chain volume fi first (q + j) ≡ cluster + j)
      → (j : ℕ) → j < count - k
      → chain volume fi first (q + k + j) ≡ cluster + k + j
  shifted q cluster count k run j lt =
      let at : q + (k + j) ≡ q + k + j = omega arith in
      let later = run (k + j) (omega (arith, lt)) in
      let later' = rw at at later in omega (arith, later')
