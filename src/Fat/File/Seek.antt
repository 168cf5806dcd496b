-- ===== src/Fat/File/Seek.antt =====
-- The cluster that `_SetFilePointer` of src/fat.c finds.
use osldr.Base.{
  ℕ, zero, suc, ◌+◌, ◌-◌, ◌*◌, ◌/◌, ◌%◌, ◌≤◌, ◌<◌, ◌^◌, ◌⊎◌, ◌≡◌, inl, inr, refl, ap, true, false,
  ◌&&◌, ◌||◌, some, [], ◌∷◌, Bool-cases, leb, ltb, ◌==◌, if◌then◌else◌, add32, sub32, arith, length,
  Bytes, bit_and,
}
use native.Mathlib.Nat.{mul-add-div_right, div-eq_of_lt}
use osldr.Base.{all_below, all_below-elim, bit_and-aligned}
use osldr.Volumes.{VolumeOps, IsFaithful}
use osldr.Raw.{From}
use osldr.Fat.{entry_offset, get_next_cluster}
use osldr.Fat.File.{
  FatInfo, FatFile, spans, read_one, next_cluster, seek_chain, new_cursor, set_file_pointer,
}
use osldr.Fat.File.Entry.{successor, entry_in-inside}
use osldr.Fat.File.Piece.{cluster_pos}
use osldr.Fat.File.Run.{chain, IsSound, AtCursor}

-- What one call of `GetNextCluster` asks for is there: memory for one sector, the sector of the entry, and the next
-- one if the entry goes on in it.
pub record IsReadable {S : Type 0} (ops : VolumeOps S) (fi : FatInfo) (cluster : ℕ) (s : S)
    : Type 0 where
  pub block : ℕ
  pub memory : (ops.malloc fi.bytes_per_sector s).0 ≡ some block
  pub first :
      let sector = fi.fat_start + entry_offset fi.kind cluster / fi.bytes_per_sector in
      length (ops.read_sector sector 1 (ops.malloc fi.bytes_per_sector s).1).0 ≡ 1
  pub second :
      let sector = fi.fat_start + entry_offset fi.kind cluster / fi.bytes_per_sector in
      spans fi.kind fi.bytes_per_sector (entry_offset fi.kind cluster % fi.bytes_per_sector) ≡ true
      → length
          (ops.read_sector
            (sector + 1)
            1
            (ops.read_sector sector 1 (ops.malloc fi.bytes_per_sector s).1).1).0
        ≡ 1

-- The state after `GetNextCluster` has been called for `j` clusters of the chain, from the cluster `q` on.
abbrev pub walk : {S : Type 0} → VolumeOps S → (ℕ → Bytes) → FatInfo → ℕ → ℕ → ℕ → S → S
walk ops volume fi first q zero s = s
walk ops volume fi first q (suc j) s =
    walk ops volume fi first (suc q) j (next_cluster ops fi (chain volume fi first q) s).1

-- The cluster of the chain from which a place is looked for: the one of the cursor, or the first one to go back.
abbrev pub start_of : FatInfo → ℕ → ℕ → ℕ
start_of fi cursor target =
    if ltb target (cursor / fi.bytes_per_cluster * fi.bytes_per_cluster)
    then 0
    else cursor / fi.bytes_per_cluster

-- The masks of the sizes of clusters.
mask_table :
    all_below 32
      (λ k. (sub32 0 (2 ^ k) == (2 ^ (32 - k) - 1) * 2 ^ k) && (2 ^ (32 - k) * 2 ^ k == 2 ^ 32))
    ≡ true
unfolding all_below
mask_table = refl

aligned_cursor :
    (k cursor : ℕ)
    → k < 32
    → cursor < 2 ^ 32
    → bit_and cursor (sub32 0 (2 ^ k)) ≡ cursor / 2 ^ k * 2 ^ k
aligned_cursor k cursor k_lt below =
    let row = all_below-elim 32 _ k mask_table k_lt in
    let mask : sub32 0 (2 ^ k) ≡ (2 ^ (32 - k) - 1) * 2 ^ k = ground (arith, row) in
    let word : 2 ^ (32 - k) * 2 ^ k ≡ 2 ^ 32 = ground (arith, row) in
    rw mask (bit_and-aligned (32 - k) k cursor (rw word below))

module _ {S : Type 0} (ops : VolumeOps S) (I : S → Type 0) (volume : ℕ → Bytes)
    (faithful : IsFaithful ops I volume) (fi : FatInfo) (sound : IsSound volume fi) where
  read_one-some :
      (sector : ℕ) (s : S)
      → I s
      → sector + 1 < 2 ^ 64
      → length (ops.read_sector sector 1 s).0 ≡ 1
      → let (r, s') = read_one ops fi sector s in I s' × (r ≡ some (volume sector))
  unfolding read_one
  read_one-some sector s v small whole =
      let got = (ops.read_sector sector 1 s).0 in
      let same : got ≡ volume sector ∷ [] = faithful.read_slice sector 1 s v small whole in
      (faithful.read_keeps sector 1 s v small, rw (read_one, same) refl)

  -- `GetNextCluster` gives the entry if its sectors can be read.
  next_cluster-readable :
      (c : ℕ) (s : S)
      → I s
      → c < fi.end_cluster
      → IsReadable ops fi c s
      → let (next, s') = next_cluster ops fi c s in I s' × (next ≡ successor volume fi c)
  unfolding next_cluster get_next_cluster read_one
  next_cluster-readable c s v valid readable =
      let size = fi.bytes_per_sector in
      let place = entry_offset fi.kind c in
      let ofs = place % size in
      let sector = fi.fat_start + place / size in
      let sector' = fi.fat_start + (place / size + 1) in
      let room = sound.table c valid in
      let word : add32 fi.fat_start (place / size) ≡ sector = omega (arith, room) in
      let next : sector + 1 ≡ sector' = omega arith in
      let word' : add32 sector 1 ≡ sector' = omega (arith, room) in
      let p = readable.block in
      let e = readable.memory in
      let s1 = (ops.malloc size s).1 in
      let v1 = faithful.malloc_keeps size s v in
      let (v2, e1) = read_one-some sector s1 v1 (omega (arith, room)) readable.first in
      let s2 = (ops.read_sector sector 1 s1).1 in
      elim (Bool-cases (spans fi.kind size ofs)) [
        | inr inside ↦
            rw (next_cluster, e, word, e1, word, inside)
              (
                faithful.free_keeps p s2 v2,
                entry_in-inside fi.kind size c ofs (volume (fi.fat_start + place / size))
                    (some (volume sector')) inside,
              )
        | inl spanning ↦
            let second = readable.second spanning in
            let (v3, e2) = read_one-some sector' s2 v2 (omega (arith, room)) (rw next at second) in
            let s3 = (ops.read_sector sector' 1 s2).1 in
            rw (next_cluster, e, word, e1, word, spanning, word', e2)
              (faithful.free_keeps p s3 v3, refl)
      ]

  module _ (first k : ℕ) (k_lt : k < 32) (power : fi.bytes_per_cluster ≡ 2 ^ k) where
    in_cluster :
        (q target : ℕ)
        → q * fi.bytes_per_cluster ≤ target
        → target < q * fi.bytes_per_cluster + fi.bytes_per_cluster
        → AtCursor volume fi first target (chain volume fi first q)
    in_cluster q target from to =
        let bpc = fi.bytes_per_cluster in
        let whole : q * bpc + (target - q * bpc) ≡ target = omega (arith, from) in
        let quotient = mul-add-div_right (cluster_pos volume fi sound first) q (target - q * bpc) in
        let quotient' = rw whole at quotient in
        let none_more : (target - q * bpc) / bpc ≡ 0 = div-eq_of_lt (omega (arith, from, to)) in
        ap (chain volume fi first) (omega (arith, quotient', none_more))

    -- From the beginning of the cluster `q` of the chain on, the loop goes to the one of the target.
    seek_chain-chain :
        (fuel q target : ℕ) (s : S)
        → I s
        → target ≤ fuel + q * fi.bytes_per_cluster
        → q * fi.bytes_per_cluster ≤ target
        → ((j : ℕ) → j * fi.bytes_per_cluster ≤ target → chain volume fi first j < fi.end_cluster)
        → ((j : ℕ)
            → (q + j) * fi.bytes_per_cluster + fi.bytes_per_cluster ≤ target
            → IsReadable ops fi (chain volume fi first (q + j)) (walk ops volume fi first q j s))
        → let (cluster, s') =
            seek_chain ops fi fuel (q * fi.bytes_per_cluster) (chain volume fi first q) target s in
          I s' × AtCursor volume fi first target cluster
    unfolding seek_chain
    seek_chain-chain zero q target s v enough from covered readable =
        (v, in_cluster q target from (omega (arith, enough, cluster_pos volume fi sound first)))
    seek_chain-chain (suc fuel) q target s v enough from covered readable =
        let bpc = fi.bytes_per_cluster in
        let pos : 0 < bpc = cluster_pos volume fi sound first in
        let at : q * bpc + bpc ≡ suc q * bpc = omega arith in
        elim (Bool-cases (leb (q * bpc + bpc) target)) [
          | inr here ↦ rw (seek_chain, here) (v, in_cluster q target from (ground (arith, here)))
          | inl on ↦
              let valid = covered q from in
              let zeroth : q + 0 ≡ q = omega arith in
              let here = readable 0 (ground (arith, on)) in
              let (v', e) =
                next_cluster-readable (chain volume fi first q) s v valid (rw zeroth at here) in
              let s' = (next_cluster ops fi (chain volume fi first q) s).1 in
              let later : (j : ℕ)
                  → (suc q + j) * bpc + bpc ≤ target
                  → IsReadable ops fi (chain volume fi first (suc q + j))
                      (walk ops volume fi first (suc q) j s') =
                λ j le.
                  let shift : q + suc j ≡ suc q + j = omega arith in
                  let le' : (q + suc j) * bpc + bpc ≤ target = rw shift le in
                  let there = readable (suc j) le' in rw shift at there in
              rw (seek_chain, on, e, at)
                (seek_chain-chain fuel (suc q) target s' v' (omega (arith, enough, pos, at))
                  (ground (arith, on, at)) covered later)
        ]

    -- `_SetFilePointer` of src/fat.c for a file below 4 GB with the cursor in it and with the cluster of the cursor, on a
    -- mounted volume to which `ReadSector` is faithful and whose clusters have a power of two below 2 ^ 32 as their size,
    -- with the low half of the first cluster being all of it, with a chain that is as long as the file, and if each call
    -- of `GetNextCluster` that is made on the way finds memory for a sector and can read its entry: a place behind the
    -- end, or before the beginning, is refused and the file is left; any other becomes the cursor, and the cluster is
    -- that of the cursor in the chain.
    pub set_file_pointer-AtCursor :
        (file : FatFile) (offset : ℕ) (from : From) (s : S)
        → I s
        → file.first_low ≡ first
        → file.cursor ≤ file.size
        → file.size < 2 ^ 32
        → AtCursor volume fi first file.cursor file.cluster
        → ((j : ℕ)
            → j * fi.bytes_per_cluster < file.size
            → chain volume fi first j < fi.end_cluster)
        → ((j : ℕ)
            → (start_of fi file.cursor (new_cursor file offset from) + j) * fi.bytes_per_cluster
                + fi.bytes_per_cluster
              ≤ new_cursor file offset from
            → IsReadable ops fi
                (chain volume fi first (start_of fi file.cursor (new_cursor file offset from) + j))
                (walk ops volume fi first
                  (start_of fi file.cursor (new_cursor file offset from))
                  j
                  s))
        → let ((moved, file'), s') = set_file_pointer ops fi file offset from s in
          let new = new_cursor file offset from in
          I s'
          × AtCursor volume fi first file'.cursor file'.cluster
          × (((file.size ≤ new) × (moved ≡ false) × (file' ≡ file))
              ⊎ ((new < file.size) × (moved ≡ true) × (file'.cursor ≡ new)))
    unfolding set_file_pointer
    set_file_pointer-AtCursor file offset from s v low inside small at covered readable =
        let bpc = fi.bytes_per_cluster in
        let new = new_cursor file offset from in
        let aligned : bit_and file.cursor (sub32 0 bpc) ≡ file.cursor / bpc * bpc =
          rw power (aligned_cursor k file.cursor k_lt (omega (arith, inside, small))) in
        elim (Bool-cases (leb (2 ^ 63) new || leb file.size new)) [
          | inl refused ↦
              rw (set_file_pointer, refused)
                (v, at, inl (ground (arith, refused, small), refl, refl))
          | inr taken ↦
              let below : new < file.size = ground (arith, taken) in
              let valid : (j : ℕ) → j * bpc ≤ new → chain volume fi first j < fi.end_cluster =
                λ j le. covered j (omega (arith, le, below)) in
              elim (Bool-cases (ltb new (file.cursor / bpc * bpc))) [
                | inl back ↦
                    let start : 0 * bpc ≡ 0 = omega arith in
                    let found =
                      seek_chain-chain new 0 new s v (omega arith) (omega (arith, start)) valid
                        (rw back at readable) in
                    let (v', at') = rw start at found in
                    rw (set_file_pointer, aligned, taken, back, low)
                      (v', at', inr (below, refl, refl))
                | inr on ↦
                    let (v', at') =
                      seek_chain-chain new (file.cursor / bpc) new s v (omega arith)
                        (ground (arith, on)) valid (rw on at readable) in
                    rw (set_file_pointer, aligned, taken, on, at) (v', at', inr (below, refl, refl))
              ]
        ]
