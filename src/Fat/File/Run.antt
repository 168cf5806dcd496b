-- ===== src/Fat/File/Run.antt =====
-- The chain of clusters of a file, and the runs of consecutive clusters in it that `_ReadFile` finds.
use osldr.Base.{
  ℕ, zero, suc, ◌+◌, ◌-◌, ◌*◌, ◌/◌, ◌%◌, ◌≤◌, ◌<◌, ◌^◌, ◌⊎◌, ◌≡◌, inl, inr, sym, ◌∙◌, Bool, ◌&&◌,
  Bool-cases, leb, ltb, ◌==◌, add64, arith, ℕ_discrete, length, Bytes,
}
use osldr.Volumes.{VolumeOps, IsFaithful}
use osldr.Volumes.Stream.{device_byte}
use osldr.Fat.{entry_offset}
use osldr.Fat.File.{FatInfo, next_cluster, run_length}
use osldr.Fat.File.Entry.{limit, limit-le, successor, next_cluster-successor}

-- The clusters of a file from its first one on.
abbrev pub chain : (ℕ → Bytes) → FatInfo → ℕ → ℕ → ℕ
chain volume fi first zero = first
chain volume fi first (suc k) = successor volume fi (chain volume fi first k)

-- A byte of the file by its place: it is in the cluster of the chain that the place is in.
abbrev pub file_byte : (ℕ → Bytes) → FatInfo → ℕ → ℕ → ℕ
file_byte volume fi first i =
    let cluster = chain volume fi first (i / fi.bytes_per_cluster) in
    let sector = fi.data_start + (cluster - 2) * fi.sectors_per_cluster in
    device_byte volume fi.bytes_per_sector (sector * fi.bytes_per_sector + i % fi.bytes_per_cluster)

-- The cluster that the file keeps is the one of its cursor.
abbrev pub AtCursor : (ℕ → Bytes) → FatInfo → ℕ → ℕ → ℕ → Type 0
AtCursor volume fi first cursor cluster =
    cluster ≡ chain volume fi first (cursor / fi.bytes_per_cluster)

-- The same, or no cluster: the chain has ended, or its entry could not be read.
abbrev pub InStep : (ℕ → Bytes) → FatInfo → ℕ → ℕ → ℕ → Type 0
InStep volume fi first cursor cluster =
    AtCursor volume fi first cursor cluster ⊎ (fi.end_cluster ≤ cluster)

-- What the files rely on of a mounted volume.
pub record IsSound (volume : ℕ → Bytes) (fi : FatInfo) : Type 0 where
  pub sector_pos : 0 < fi.bytes_per_sector
  pub sectors_pos : 0 < fi.sectors_per_cluster
  pub per_cluster : fi.bytes_per_cluster ≡ fi.sectors_per_cluster * fi.bytes_per_sector
  pub small : fi.bytes_per_cluster < 2 ^ 32
  pub end_le : fi.end_cluster ≤ limit fi.kind
  pub table :
      (c : ℕ)
      → c < fi.end_cluster
      → fi.fat_start + (entry_offset fi.kind c / fi.bytes_per_sector + 1) < 2 ^ 32
  pub whole : (i : ℕ) → length (volume i) ≡ fi.bytes_per_sector

module _ {S : Type 0} (ops : VolumeOps S) (I : S → Type 0) (volume : ℕ → Bytes)
    (faithful : IsFaithful ops I volume) (fi : FatInfo) (sound : IsSound volume fi)
    (first q cluster : ℕ) where
  -- The clusters from the one at a place of the chain on are consecutive.
  abbrev pub Consecutive : ℕ → Type 0
  Consecutive count = (j : ℕ) → j < count → chain volume fi first (q + j) ≡ cluster + j

  Consecutive-suc :
      (count : ℕ)
      → Consecutive count
      → chain volume fi first (q + count) ≡ cluster + count
      → Consecutive (count + 1)
  Consecutive-suc count before here j lt = elim (ℕ_discrete j count) [
    | yes e ↦ rw e here
    | no ne ↦ before j (omega (arith, lt, ne))
  ]

  -- The run that is found: how many clusters, and what follows them.
  pub record Run (low high : ℕ) (r : (ℕ × ℕ) × S) : Type 0 where
    pub keeps : I r.1
    pub at_least : low ≤ r.0.0
    pub at_most : r.0.0 ≤ high
    pub below : cluster + r.0.0 ≤ fi.end_cluster
    pub run : Consecutive r.0.0
    pub follows : (r.0.1 ≡ chain volume fi first (q + r.0.0)) ⊎ (fi.end_cluster ≤ r.0.1)

  -- Whether the run goes on with the cluster that follows.
  abbrev goes_on : ℕ → ℕ → ℕ → Bool
  goes_on len count next =
      (leb 2 next && ltb next fi.end_cluster)
      && ((next == add64 cluster (count + 1)) && ltb next (add64 cluster len))

  pub run_length-Run :
      (fuel len low high count : ℕ) (s : S)
      → I s
      → low ≤ count + fuel
      → low ≤ count + 1
      → count + fuel ≤ high
      → cluster + count < fi.end_cluster
      → Consecutive (count + 1)
      → Run low high (run_length ops fi fuel cluster len count s)
  unfolding run_length
  run_length-Run zero len low high count s v least least' most below run = record {
    keeps = v;
    at_least = omega (arith, least);
    at_most = omega (arith, most);
    below = omega (arith, below);
    run = λ j lt. run j (omega (arith, lt));
    follows = inr (omega (arith, limit-le fi.kind, sound.end_le));
  }
  run_length-Run (suc fuel) len low high count s v least least' most below run =
      let end : fi.end_cluster ≤ 0xFFFFFFFF = omega (arith, limit-le fi.kind, sound.end_le) in
      let word : add64 cluster count % 2 ^ 32 ≡ cluster + count = omega (arith, below, end) in
      let s' = (next_cluster ops fi (cluster + count) s).1 in
      let next = (next_cluster ops fi (cluster + count) s).0 in
      let here : chain volume fi first (q + count) ≡ cluster + count = run count (omega arith) in
      let shift : q + (count + 1) ≡ suc (q + count) = omega arith in
      let (kept, entry) =
        next_cluster-successor ops I volume faithful fi (cluster + count) s v sound.end_le
          (sound.table (cluster + count) below) in
      let follows : (next ≡ chain volume fi first (q + (count + 1))) ⊎ (fi.end_cluster ≤ next) =
        rw (shift, here) entry in
      elim (Bool-cases (goes_on len count next)) [
        | inr stops ↦
            rw (run_length, word, stops)
              (record {
                keeps = kept;
                at_least = least';
                at_most = omega (arith, most);
                below = omega (arith, below);
                run = run;
                follows = follows;
              })
        | inl on ↦
            let same : next ≡ add64 cluster (count + 1) = ground (arith, on) in
            let inside : next < fi.end_cluster = ground (arith, on) in
            let at : next ≡ cluster + (count + 1) = omega (arith, same, below, end) in
            let more : chain volume fi first (q + (count + 1)) ≡ cluster + (count + 1) =
              elim follows [ inl e ↦ sym e ∙ at | inr out ↦ absurd (omega (arith, out, inside)) ] in
            rw (run_length, word, on)
              (run_length-Run fuel len low high (count + 1) s' kept (omega (arith, least))
                (omega (arith, least')) (omega (arith, most)) (omega (arith, at, inside))
                (Consecutive-suc (count + 1) run more))
      ]
