-- ===== src/Fat/File/Entry.antt =====
-- The entry of the table that `GetNextCluster` reads through `ReadSector`.
use osldr.Base.{
  ℕ, ◌+◌, ◌/◌, ◌%◌, ◌≤◌, ◌<◌, ◌^◌, ◌⊎◌, ◌≡◌, inl, inr, refl, true, false, Option, none, some, List,
  [], ◌∷◌, Bool-cases, Option-cases, add32, arith, ℕ_discrete, length, Bytes,
}
use osldr.Volumes.{VolumeOps, IsFaithful}
use osldr.Fat.{FatType, fat12, fat16, fat32, entry_offset, entry_in, entry12, get_next_cluster}
use osldr.Fat.File.{FatInfo, spans, only_one, read_one, next_cluster}

-- The largest entry that is read of a table.
abbrev pub limit : FatType → ℕ
limit fat12 = 0xFFF
limit fat16 = 0xFFFFFFFF
limit fat32 = 0xFFFFFFFF

-- The entry of a cluster, over a device that can be read.
abbrev pub successor : (ℕ → Bytes) → FatInfo → ℕ → ℕ
successor volume fi cluster =
    get_next_cluster (λ k. some (volume (fi.fat_start + k))) fi.kind fi.bytes_per_sector cluster

-- An entry that is all within a sector does not need the next one.
pub entry_in-inside :
    (kind : FatType) (size c ofs : ℕ) (buffer : Bytes) (next : Option Bytes)
    → spans kind size ofs ≡ false
    → entry_in kind size c ofs buffer none ≡ entry_in kind size c ofs buffer next
unfolding entry_in entry12
entry_in-inside fat12 size c ofs buffer next e = rw (entry12, e) refl
entry_in-inside fat16 size c ofs buffer next e = refl
entry_in-inside fat32 size c ofs buffer next e = refl

-- Without the next sector, an entry that goes on there is above the limit.
entry_in-spanning :
    (kind : FatType) (size c ofs : ℕ) (buffer : Bytes)
    → spans kind size ofs ≡ true
    → entry_in kind size c ofs buffer none ≡ limit kind
unfolding entry_in entry12
entry_in-spanning fat12 size c ofs buffer e = rw (entry12, e) (ground arith)
entry_in-spanning fat16 size c ofs buffer e = absurd (cc e)
entry_in-spanning fat32 size c ofs buffer e = absurd (cc e)

pub limit-le : (kind : FatType) → limit kind ≤ 0xFFFFFFFF
limit-le fat12 = omega arith
limit-le fat16 = omega arith
limit-le fat32 = omega arith

pub only_one-none : (got : List Bytes) → ¬ (length got ≡ 1) → only_one got ≡ none
only_one-none [] ne = refl
only_one-none (b ∷ []) ne = absurd (ne refl)
only_one-none (b ∷ c ∷ bs) ne = refl

module _ {S : Type 0} (ops : VolumeOps S) (I : S → Type 0) (volume : ℕ → Bytes)
    (faithful : IsFaithful ops I volume) (fi : FatInfo) where
  read_one-volume :
      (sector : ℕ) (s : S)
      → I s
      → sector + 1 < 2 ^ 64
      → let (r, s') = read_one ops fi sector s in I s' × ((r ≡ none) ⊎ (r ≡ some (volume sector)))
  unfolding read_one
  read_one-volume sector s v small =
      let got = (ops.read_sector sector 1 s).0 in
      let kept = faithful.read_keeps sector 1 s v small in
      elim (ℕ_discrete (length got) 1) [
        | yes whole ↦
            let same : got ≡ volume sector ∷ [] = faithful.read_slice sector 1 s v small whole in
            (kept, inr (rw (read_one, same) refl))
        | no part ↦ (kept, inl (rw (read_one, only_one-none got part) refl))
      ]

  -- `GetNextCluster` gives the entry of the table, or a value that is no cluster.
  pub next_cluster-successor :
      (c : ℕ) (s : S)
      → I s
      → fi.end_cluster ≤ limit fi.kind
      → fi.fat_start + (entry_offset fi.kind c / fi.bytes_per_sector + 1) < 2 ^ 32
      → let (next, s') = next_cluster ops fi c s in
        I s' × ((next ≡ successor volume fi c) ⊎ (fi.end_cluster ≤ next))
  unfolding next_cluster get_next_cluster
  next_cluster-successor c s v end room =
      let size = fi.bytes_per_sector in
      let place = entry_offset fi.kind c in
      let ofs = place % size in
      let sector = fi.fat_start + place / size in
      let word : add32 fi.fat_start (place / size) ≡ sector = omega arith in
      let word' : add32 sector 1 ≡ fi.fat_start + (place / size + 1) = omega arith in
      let s1 = (ops.malloc size s).1 in
      let v1 = faithful.malloc_keeps size s v in
      let bad : fi.end_cluster ≤ 0xFFFFFFFF = omega (arith, limit-le fi.kind) in
      elim (Option-cases (ops.malloc size s).0) [
        | inl e ↦ rw (next_cluster, e) (v1, inr bad)
        | inr (p, e) ↦
            let (v2, first) = read_one-volume sector s1 v1 (omega arith) in
            let s2 = (read_one ops fi sector s1).1 in
            elim first [
              | inl e1 ↦ rw (next_cluster, e, word, e1, word) (faithful.free_keeps p s2 v2, inr bad)
              | inr e1 ↦ elim (Bool-cases (spans fi.kind size ofs)) [
                | inr inside ↦
                    rw (next_cluster, e, word, e1, word, inside)
                      (
                        faithful.free_keeps p s2 v2,
                        inl (
                            entry_in-inside fi.kind size c ofs (volume sector)
                              (some (volume (fi.fat_start + (place / size + 1)))) inside),
                      )
                | inl spanning ↦
                    let (v3, second) =
                      read_one-volume (fi.fat_start + (place / size + 1)) s2 v2 (omega arith) in
                    let s3 = (read_one ops fi (fi.fat_start + (place / size + 1)) s2).1 in
                    elim second [
                      | inl e2 ↦
                          rw
                            (
                              next_cluster,
                              e,
                              word,
                              e1,
                              word,
                              spanning,
                              word',
                              e2,
                              entry_in-spanning fi.kind size c ofs (volume sector) spanning,
                            )
                            (faithful.free_keeps p s3 v3, inr end)
                      | inr e2 ↦
                          rw (next_cluster, e, word, e1, word, spanning, word', e2)
                            (faithful.free_keeps p s3 v3, inl refl)
                    ]
              ]
            ]
      ]
