-- ===== src/Fat/File/Read.antt =====
-- The bytes that `_ReadFile` of src/fat.c reads along the chain of clusters.
use osldr.Base.{
  ℕ, zero, suc, ◌+◌, ◌-◌, ◌*◌, ◌/◌, ◌%◌, ◌≤◌, ◌<◌, ◌^◌, min, ◌⊎◌, ◌≡◌, inl, inr, refl, Bool, false,
  ◌&&◌, [], ◌++◌, Bool-cases, leb, ltb, ◌==◌, if◌then◌else◌, add64, sub64, arith, dec_le, dec_lt,
  length, Bytes,
}
use native.Mathlib.Nat.{mod-lt}
use osldr.Volumes.{VolumeOps, IsFaithful, Reports}
use osldr.Volumes.Stream.{stream, Got, Got-nothing, Got-more, length-more}
use osldr.Volumes.Pieces.{units-pos}
use osldr.Fat.File.{FatInfo, FatFile, run_length, read_run, read_chain, read_file}
use osldr.Fat.File.Run.{chain, file_byte, IsSound, InStep, run_length-Run}
use osldr.Fat.File.Piece.{cluster_pos}
use osldr.Fat.File.Ran.{Ran, read_run-Ran}
use osldr.Fat.File.Round.{single, run_wanted, round-InStep, failed_at}

module _ {S : Type 0} (ops : VolumeOps S) (I : S → Type 0) (volume : ℕ → Bytes)
    (faithful : IsFaithful ops I volume) (E : S → Type 0) (reports : Reports ops E) (fi : FatInfo)
    (sound : IsSound volume fi) (first : ℕ)
    (placed : (k : ℕ)
      → chain volume fi first k < fi.end_cluster
      → fi.data_start + (chain volume fi first k + 1) * fi.sectors_per_cluster < 2 ^ 32) where
  abbrev byte : ℕ → ℕ
  byte = file_byte volume fi first

  -- What the loop has done with `read` bytes before it and `n` still wanted.
  pub record Did (read cursor n : ℕ) (r : (Bytes × ℕ × ℕ) × S) : Type 0 where
    pub got : Got I byte cursor n (r.0.0, r.1)
    pub moves : r.0.1 ≡ cursor + length r.0.0
    pub in_step : InStep volume fi first r.0.1 r.0.2
    pub stops :
        E r.1
        ⊎ ((r.0.2 < 2) ⊎ ((fi.end_cluster ≤ r.0.2) ⊎ (n - length r.0.0 ≤ read + length r.0.0)))

  Did-nothing :
      (read cursor cluster n : ℕ) (s : S)
      → I s
      → InStep volume fi first cursor cluster
      → (cluster < 2) ⊎ ((fi.end_cluster ≤ cluster) ⊎ (n ≤ read))
      → Did read cursor n (([], cursor, cluster), s)
  Did-nothing read cursor cluster n s v step why = record {
    got = Got-nothing I byte cursor n s v;
    moves = omega arith;
    in_step = step;
    stops = inr (elim why [
      | inl low ↦ inl low
      | inr (inl high) ↦ inr (inl high)
      | inr (inr enough) ↦ inr (inr (omega (arith, enough)))
    ]);
  }

  Did-more :
      (read cursor n len : ℕ) (bytes more : Bytes) (cursor' cluster' : ℕ) (s : S)
      → bytes ≡ stream byte cursor len
      → len ≤ n
      → Did (read + len) (cursor + len) (n - len) ((more, cursor', cluster'), s)
      → Did read cursor n ((bytes ++ more, cursor', cluster'), s)
  Did-more read cursor n len bytes more cursor' cluster' s e le d =
      let total = length-more I byte cursor n len more in
      rw e (record {
        got = Got-more I byte cursor n len more s le d.got;
        moves = omega (arith, d.moves, total);
        in_step = d.in_step;
        stops = elim d.stops [
          | inl failed ↦ inl failed
          | inr (inl low) ↦ inr (inl low)
          | inr (inr (inl high)) ↦ inr (inr (inl high))
          | inr (inr (inr enough)) ↦ inr (inr (inr (omega (arith, enough, total))))
        ];
      })

  -- The loop goes on.
  abbrev goes_on : ℕ → ℕ → ℕ → Bool
  goes_on read cluster n = (leb 2 cluster && ltb cluster fi.end_cluster) && ltb read n

  goes_on-false :
      (read cluster n : ℕ)
      → goes_on read cluster n ≡ false
      → (cluster < 2) ⊎ ((fi.end_cluster ≤ cluster) ⊎ (n ≤ read))
  goes_on-false read cluster n stops = elim (dec_lt cluster 2) [
    | yes low ↦ inl low
    | no not_low ↦ elim (dec_le fi.end_cluster cluster) [
      | yes high ↦ inr (inl high)
      | no not_high ↦ inr (inr (ground (arith, stops, not_low, not_high)))
    ]
  ]

  run_placed :
      (q cluster count : ℕ)
      → 1 ≤ count
      → cluster + count ≤ fi.end_cluster
      → ((j : ℕ) → j < count → chain volume fi first (q + j) ≡ cluster + j)
      → fi.data_start + (cluster + count) * fi.sectors_per_cluster < 2 ^ 32
  run_placed q cluster count pos le run =
      let last = run (count - 1) (omega arith) in
      let after : chain volume fi first (q + (count - 1)) + 1 ≡ cluster + count =
        omega (arith, last, pos) in
      let at = placed (q + (count - 1)) (omega (arith, after, le)) in rw after at at

  -- A round, with what the rest of the loop does.
  round-Did :
      (fuel read cursor n count next : ℕ) (r : Bool × Bytes × ℕ × ℕ × ℕ) (s : S)
      → ((read cursor cluster n : ℕ) (s : S)
          → I s
          → n ≤ fuel
          → cursor + n + fi.bytes_per_cluster < 2 ^ 64
          → InStep volume fi first cursor cluster
          → Did read cursor n (read_chain ops fi fuel read cursor cluster n s))
      → n ≤ suc fuel
      → cursor + n + fi.bytes_per_cluster < 2 ^ 64
      → 0 < n
      → 0 < count
      → Ran ops I volume faithful E reports fi sound first
          (cursor / fi.bytes_per_cluster + count)
          cursor
          n
          (r, s)
      → (next ≡ chain volume fi first (cursor / fi.bytes_per_cluster + count))
        ⊎ (fi.end_cluster ≤ next)
      → let ((more, cursor', cluster'), s') =
          read_chain ops fi fuel
            (read + length r.1)
            r.2
            (if r.2 % fi.bytes_per_cluster == 0 then next else r.3)
            r.4
            s in
        Did read cursor n
          (if r.0 then ((r.1 ++ more, cursor', cluster'), s') else ((r.1, r.2, r.3), s))
  round-Did fuel read cursor n count next r s again enough fits n_pos count_pos ran follows =
      let q = cursor / fi.bytes_per_cluster in
      elim (Bool-cases r.0) [
        | inr failed ↦
            let (e, at) =
              failed_at ops I volume faithful E reports fi sound first cursor n (q + count) r s ran
                failed in
            rw failed (record { got = ran.got; moves = ran.moves; in_step = inl at; stops = inl e })
        | inl ok ↦
            let (some_bytes, step) =
              round-InStep ops I volume faithful E reports fi sound first cursor n q count next r s
                ran refl count_pos n_pos follows ok in
            let rest =
              again (read + length r.1) r.2 (if r.2 % fi.bytes_per_cluster == 0 then next else r.3)
                r.4 s ran.got.keeps (omega (arith, ran.left, some_bytes, enough))
                (omega (arith, ran.left, ran.moves, ran.got.le, fits)) step in
            rw ok (
              Did-more read cursor n (length r.1) r.1 _ _ _ _ ran.got.bytes ran.got.le
                (rw (← ran.moves, ← ran.left) rest))
      ]

  read_chain-Did :
      (fuel read cursor cluster n : ℕ) (s : S)
      → I s
      → n ≤ fuel
      → cursor + n + fi.bytes_per_cluster < 2 ^ 64
      → InStep volume fi first cursor cluster
      → Did read cursor n (read_chain ops fi fuel read cursor cluster n s)
  unfolding read_chain
  read_chain-Did zero read cursor cluster n s v enough fits step =
      Did-nothing read cursor cluster n s v step (inr (inr (omega (arith, enough))))
  read_chain-Did (suc fuel) read cursor cluster n s v enough fits step =
      elim (Bool-cases (goes_on read cluster n)) [
        | inr stops ↦
            rw (read_chain, stops)
              (Did-nothing read cursor cluster n s v step (goes_on-false read cluster n stops))
        | inl on ↦
            let bpc = fi.bytes_per_cluster in
            let pos : 0 < bpc = cluster_pos volume fi sound first in
            let q = cursor / bpc in
            let off = cursor % bpc in
            let below : off < bpc = mod-lt cursor pos in
            let valid : 2 ≤ cluster = ground (arith, on) in
            let inside : cluster < fi.end_cluster = ground (arith, on) in
            let n_pos : 0 < n = ground (arith, on) in
            let at : cluster ≡ chain volume fi first q = elim step [
              | inl e ↦ e
              | inr out ↦ absurd (omega (arith, out, inside))
            ] in
            let len = (off + n + bpc - 1) / bpc in
            let word : sub64 (add64 (add64 off n) bpc) 1 ≡ off + n + bpc - 1 =
              omega (arith, below, fits, sound.small) in
            let found =
              run_length-Run ops I volume faithful fi sound first q cluster len len 1 len 0 s v
                (omega (arith, units-pos bpc off n pos below n_pos)) (omega arith) (omega arith)
                (omega (arith, inside)) (single volume fi sound first q cluster at) in
            let count = (run_length ops fi len cluster len 0 s).0.0 in
            let next = (run_length ops fi len cluster len 0 s).0.1 in
            let s1 = (run_length ops fi len cluster len 0 s).1 in
            let run = read_run ops fi count count cursor cluster n s1 in
            let ran =
              read_run-Ran ops I volume faithful E reports fi sound first count q count cursor
                cluster n s1 found.keeps (omega arith) fits refl found.at_least valid n_pos
                (run_wanted volume fi sound first count off n n_pos found.at_most below)
                (run_placed q cluster count found.at_least found.below found.run) found.run in
            rw (read_chain, on, word)
              (round-Did fuel read cursor n count next run.0 run.1 (read_chain-Did fuel) enough fits
                n_pos found.at_least ran found.follows)
      ]

  -- `_ReadFile` of src/fat.c, for fewer than 2 ^ 63 bytes of a file below 4 GB, while `ReadSector` is faithful to a
  -- mounted volume on which the clusters of the file's chain have sector numbers of 32 bits, with the cursor in
  -- the file and the file's cluster that of the cursor in the chain, or none: the bytes in the buffer are those of
  -- the clusters of the chain in their order from the cursor on, no more than were asked for and none behind the
  -- end of the file; the cursor moves by their number, and the cluster stays in step with it. At least half of
  -- the bytes is read, unless `errno` is set, or the file comes to a number that is no cluster.
  pub read_file-Got :
      (file : FatFile) (n : ℕ) (s : S)
      → I s
      → file.cursor ≤ file.size
      → file.size < 2 ^ 32
      → n < 2 ^ 63
      → InStep volume fi first file.cursor file.cluster
      → let ((bytes, file'), s') = read_file ops fi file n s in
        let wanted = min n (file.size - file.cursor) in
        Got I byte file.cursor wanted (bytes, s')
        × (file'.cursor ≡ file.cursor + length bytes)
        × InStep volume fi first file'.cursor file'.cluster
        × (E s'
            ⊎ ((file'.cluster < 2)
                ⊎ ((fi.end_cluster ≤ file'.cluster) ⊎ (wanted ≤ 2 * length bytes))))
  unfolding read_file
  read_file-Got file n s v inside size below step =
      let word : (if ltb file.size (add64 file.cursor n) then sub64 file.size file.cursor else n)
          ≡ min n (file.size - file.cursor) =
        ground (arith, inside, size, below) in
      let did =
        read_chain-Did (min n (file.size - file.cursor)) 0 file.cursor file.cluster
          (min n (file.size - file.cursor)) s v (omega arith)
          (omega (arith, sound.small, inside, size)) step in
      rw (read_file, word)
        (
          did.got,
          did.moves,
          did.in_step,
          elim did.stops [
            | inl failed ↦ inl failed
            | inr (inl low) ↦ inr (inl low)
            | inr (inr (inl high)) ↦ inr (inr (inl high))
            | inr (inr (inr half)) ↦ inr (inr (inr (omega (arith, half))))
          ],
        )
