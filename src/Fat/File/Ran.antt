-- ===== src/Fat/File/Ran.antt =====
-- What the loop of `_ReadFile` over a run of clusters does.
use osldr.Base.{
  ℕ, zero, suc, ◌+◌, ◌-◌, ◌*◌, ◌/◌, ◌%◌, ◌≤◌, ◌<◌, ◌^◌, ◌⊎◌, ◌≡◌, ◌≢◌, inl, inr, refl, sym, ap,
  Bool, true, false, ◌++◌, Bool-cases, ltb, ◌==◌, if◌then◌else◌, add64, sub64, mul64, arith,
  ℕ_discrete, length, Bytes,
}
use native.Mathlib.Nat.{div-add-mod', mod-lt, mul-le-mul_right}
use osldr.Volumes.{VolumeOps, IsFaithful, Reports, read_part}
use osldr.Volumes.Stream.{stream, Got, Got-nothing, Got-more, length-more}
use osldr.Volumes.Pieces.{read_part-slice, cut-stream, part-le, rest-whole}
use osldr.Fat.File.{FatInfo, read_run}
use osldr.Fat.File.Run.{chain, file_byte, IsSound, AtCursor}
use osldr.Fat.File.Piece.{
  cluster_pos, cluster_of, run_room, last_piece, behind_piece, shifted, piece-stream,
}

module _ {S : Type 0} (ops : VolumeOps S) (I : S → Type 0) (volume : ℕ → Bytes)
    (faithful : IsFaithful ops I volume) (E : S → Type 0) (reports : Reports ops E) (fi : FatInfo)
    (sound : IsSound volume fi) (first : ℕ) where
  -- How the loop over a run that ends before the cluster `till` of the chain has ended: with an error, behind
  -- the run, or within one of its clusters when no more is wanted.
  abbrev pub Ended : ℕ → ((Bool × Bytes × ℕ × ℕ × ℕ) × S) → Type 0
  Ended till r =
      let ((ok, bytes, cursor, cluster, n), s) = r in
      ((ok ≡ false) × E s × AtCursor volume fi first cursor cluster)
      ⊎ ((ok ≡ true)
          × (((cursor % fi.bytes_per_cluster ≡ 0) × (cursor / fi.bytes_per_cluster ≡ till))
              ⊎ ((cursor % fi.bytes_per_cluster ≢ 0)
                  × (n ≡ 0)
                  × AtCursor volume fi first cursor cluster)))

  -- What the loop over a run has done.
  pub record Ran (till cursor n : ℕ) (r : (Bool × Bytes × ℕ × ℕ × ℕ) × S) : Type 0 where
    pub got : Got I (file_byte volume fi first) cursor n (r.0.1, r.1)
    pub moves : r.0.2 ≡ cursor + length r.0.1
    pub left : r.0.4 ≡ n - length r.0.1
    pub ended : Ended till r

  Ran-more :
      (till cursor n len : ℕ) (ok : Bool) (more : Bytes) (cursor' cluster' n' : ℕ) (s : S)
      → len ≤ n
      → Ran till (cursor + len) (n - len) ((ok, more, cursor', cluster', n'), s)
      → Ran till cursor n
          ((ok, stream (file_byte volume fi first) cursor len ++ more, cursor', cluster', n'), s)
  Ran-more till cursor n len ok more cursor' cluster' n' s le ran =
      let byte = file_byte volume fi first in
      let total = length-more I byte cursor n len more in
      record {
        got = Got-more I byte cursor n len more s le ran.got;
        moves = omega (arith, ran.moves, total);
        left = omega (arith, ran.left, total);
        ended = ran.ended;
      }

  -- Nothing is left of the run.
  Ran-done :
      (fuel cursor cluster n : ℕ) (till : ℕ) (s : S)
      → I s
      → ((cursor % fi.bytes_per_cluster ≡ 0) × (cursor / fi.bytes_per_cluster ≡ till))
        ⊎ ((cursor % fi.bytes_per_cluster ≢ 0) × (n ≡ 0) × AtCursor volume fi first cursor cluster)
      → Ran till cursor n (read_run ops fi fuel 0 cursor cluster n s)
  unfolding read_run
  Ran-done zero cursor cluster n till s v e = record {
    got = Got-nothing I (file_byte volume fi first) cursor n s v;
    moves = omega arith;
    left = omega arith;
    ended = inr (refl, e);
  }
  Ran-done (suc fuel) cursor cluster n till s v e = record {
    got = Got-nothing I (file_byte volume fi first) cursor n s v;
    moves = omega arith;
    left = omega arith;
    ended = inr (refl, e);
  }

  -- The wanted bytes end within the last cluster of the run.
  partial-Ran :
      (fuel q count k cursor cluster n off : ℕ) (s : S)
      → I s
      → cursor ≡ q * fi.bytes_per_cluster + off
      → 0 < n
      → 0 < count
      → count ≡ k
      → off + n < count * fi.bytes_per_cluster
      → count * fi.bytes_per_cluster < off + n + fi.bytes_per_cluster
      → ((j : ℕ) → j < count → chain volume fi first (q + j) ≡ cluster + j)
      → ((cursor + n) / fi.bytes_per_cluster ≡ q + (count - 1))
        × Ran
            (q + count)
            (cursor + n)
            (n - n)
            (read_run ops fi fuel (count - k) (cursor + n) (cluster + (count - 1)) (n - n) s)
  partial-Ran fuel q count k cursor cluster n off s v place n_pos count_pos all high low run =
      let bpc = fi.bytes_per_cluster in
      let m = count - 1 in
      let r = off + n - m * bpc in
      let one : count ≡ m + 1 = omega (arith, count_pos) in
      let scaled : count * bpc ≡ (m + 1) * bpc = ap (λ (c : ℕ). c * bpc) one in
      let product : count * bpc ≡ m * bpc + bpc = omega (arith, scaled) in
      let (quotient, remainder) =
        cluster_of volume fi sound first (cursor + n) (q + m) r (omega (arith, place, product, low))
          (omega (arith, product, low, high)) in
      let none_left : count - k ≡ 0 = omega (arith, all) in
      let nonzero : (cursor + n) % bpc ≢ 0 = λ e. omega (arith, e, remainder, product, low, high) in
      (
        quotient,
        rw none_left (
            Ran-done fuel (cursor + n) (cluster + m) (n - n) (q + count) s v
              (inr (nonzero, omega arith, rw quotient (sym (run m (omega (arith, count_pos))))))),
      )

  -- A piece is read to its end: the run is over, or goes on.
  full-Ran :
      (fuel q count k cursor cluster n : ℕ) (s : S)
      → I s
      → cursor / fi.bytes_per_cluster ≡ q + k
      → cursor % fi.bytes_per_cluster ≡ 0
      → k ≤ count
      → (0 < count - k
          → Ran
              (q + k + (count - k))
              cursor
              n
              (read_run ops fi fuel (count - k) cursor cluster n s))
      → Ran (q + count) cursor n (read_run ops fi fuel (count - k) cursor cluster n s)
  full-Ran fuel q count k cursor cluster n s v quotient remainder le again =
      elim (ℕ_discrete count k) [
        | yes all ↦
            let none_left : count - k ≡ 0 = omega (arith, all) in
            rw none_left
              (Ran-done fuel cursor cluster n (q + count) s v (inl (remainder, rw all quotient)))
        | no part ↦
            let total : q + k + (count - k) ≡ q + count = omega (arith, le) in
            let rest = again (omega (arith, part, le)) in rw total at rest
      ]

  pub read_run-Ran :
      (fuel q count cursor cluster n : ℕ) (s : S)
      → I s
      → count ≤ fuel
      → cursor + n + fi.bytes_per_cluster < 2 ^ 64
      → cursor / fi.bytes_per_cluster ≡ q
      → 0 < count
      → 2 ≤ cluster
      → 0 < n
      → count * fi.bytes_per_cluster < cursor % fi.bytes_per_cluster + n + fi.bytes_per_cluster
      → fi.data_start + (cluster + count) * fi.sectors_per_cluster < 2 ^ 32
      → ((j : ℕ) → j < count → chain volume fi first (q + j) ≡ cluster + j)
      → Ran (q + count) cursor n (read_run ops fi fuel count cursor cluster n s)
  unfolding read_run
  read_run-Ran zero q count cursor cluster n s v enough fits at count_pos valid n_pos wanted room
        run =
      absurd (omega arith)
  read_run-Ran (suc fuel) q count cursor cluster n s v enough fits at count_pos valid n_pos wanted
        room run =
      let bpc = fi.bytes_per_cluster in
      let pos : 0 < bpc = cluster_pos volume fi sound first in
      let off = cursor % bpc in
      let below : off < bpc = mod-lt cursor pos in
      let some_left : (count == 0) ≡ false = ground arith in
      let place : q * bpc + off ≡ cursor = rw (← at) (div-add-mod' cursor bpc) in
      let base = fi.data_start + (cluster - 2) * fi.sectors_per_cluster in
      let (clusters, sector, room') = run_room volume fi sound first cluster count valid room in
      let here : cluster ≡ chain volume fi first q =
        let q' : q + 0 ≡ q = omega arith in
        let first_one = run 0 count_pos in
        let first_one' = rw q' at first_one in omega (arith, first_one') in
      let (kept, cases) =
        read_part-slice ops I volume faithful E reports bpc fi.sectors_per_cluster base count s v
          count_pos room' in
      elim cases [
        | inl (failed, e) ↦
            rw (read_run, some_left, sector, failed, sector)
              (record {
                got = Got-nothing I (file_byte volume fi first) cursor n _ kept;
                moves = omega arith;
                left = omega arith;
                ended = inl (refl, e, rw at here);
              })
        | inr (k, k_pos, k_le, e) ↦
            let product : k * bpc ≤ count * bpc = mul-le-mul_right bpc k_le in
            let k_fits : k * bpc < 2 ^ 64 = omega (arith, product, wanted, fits) in
            let rest = sub64 (mul64 k bpc) off in
            let len = if ltb n rest then n else rest in
            let rest_whole : off + rest ≡ k * bpc = rest-whole bpc off n k below k_pos k_fits in
            let (len_pos, len_le, len_fits) = part-le bpc off n k below k_pos k_fits n_pos in
            let s1 = (read_part ops bpc fi.sectors_per_cluster base count s).1 in
            let continue : (m : ℕ) × ((cursor + len) / bpc ≡ q + m)
                × (m ≤ count)
                × Ran (q + count) (cursor + len) (n - len)
                    (read_run ops fi fuel (count - k) (cursor + len) (cluster + m) (n - len) s1) =
              elim (Bool-cases (ltb n rest)) [
                | inl less ↦
                    let short : off + n < k * bpc = ground (arith, less, rest_whole) in
                    let all : count ≡ k =
                      last_piece volume fi sound first count k (off + n) wanted short k_le in
                    let (quotient, ran) =
                      partial-Ran fuel q count k cursor cluster n off s1 kept (sym place) n_pos
                        count_pos all (rw all short) wanted run in
                    rw less (count - 1, quotient, omega arith, ran)
                | inr more ↦
                    let behind : cursor + rest ≡ (q + k) * bpc = omega (arith, place, rest_whole) in
                    let (quotient, remainder) =
                      cluster_of volume fi sound first (cursor + rest) (q + k) 0
                        (omega (arith, behind)) pos in
                    let enough_left : rest ≤ n = ground (arith, more) in
                    rw more (
                      k,
                      quotient,
                      k_le,
                      full-Ran fuel q count k (cursor + rest) (cluster + k) (n - rest) s1 kept
                          quotient remainder k_le
                          (λ left.
                            read_run-Ran fuel (q + k) (count - k) (cursor + rest) (cluster + k)
                              (n - rest) s1 kept (omega arith) (omega (arith, fits, enough_left))
                              quotient left (omega (arith, valid))
                              (omega (
                                arith,
                                behind_piece volume fi sound first count k (off + n) left wanted,
                                rest_whole,
                              ))
                              (omega (
                                arith,
                                (behind_piece volume fi sound first count k (off + n) left
                                    wanted).1,
                                rest_whole,
                                enough_left,
                                remainder,
                              ))
                              (let c : cluster + k + (count - k) ≡ cluster + count =
                                  omega (arith, k_le) in
                                rw c room)
                              (shifted volume fi sound first q cluster count k run)),
                    )
              ] in
            let (m, quotient, m_le, ran) = continue in
            let next : add64 cursor len ≡ cursor + len = omega (arith, len_le, fits) in
            let moved : sub64 (q + m) q ≡ m = omega (arith, m_le, clusters) in
            let word : add64 cluster m % 2 ^ 32 ≡ cluster + m = omega (arith, m_le, clusters) in
            let per : k * bpc ≡ k * fi.sectors_per_cluster * fi.bytes_per_sector =
              rw sound.per_cluster (omega arith) in
            let cut =
              cut-stream volume fi.bytes_per_sector sound.sector_pos sound.whole base
                (k * fi.sectors_per_cluster) off len (omega (arith, len_fits, per)) in
            let file =
              piece-stream volume fi sound first q cluster k off len valid len_fits
                (λ j lt. run j (omega (arith, lt, k_le))) in
            rw
              (
                read_run, some_left, sector, e, sector, next, quotient, at, moved, word, cut, file,
                place,
              )
              (Ran-more (q + count) cursor n len _ _ _ _ _ _ len_le ran)
      ]
