-- ===== src/Volumes.antt =====
-- What the file systems of src/raw.c and src/fat.c ask of the rest: `ReadSector` of src/io.c for one device,
-- and the heap.
pub mod Stream
pub mod Pieces
use osldr.Base.{
  ℕ, zero, suc, ◌+◌, ◌-◌, ◌*◌, ◌/◌, ◌%◌, ◌≤◌, ◌<◌, ◌^◌, min, max, ◌⊎◌, ◌↔◌, ◌≡◌, ◌≢◌, inl, inr,
  refl, sym, ap, ◌∙◌, Bool, true, false, not, ◌&&◌, ◌||◌, Option, none, some, List, [], ◌∷◌, ◌++◌,
  map, Bool-cases, Option-cases, leb, ltb, ◌==◌, if◌then◌else◌, add32, sub32, mul32, add64, sub64,
  mul64, arith, dec_le, dec_lt, ℕ_discrete, length, get_elem?, get_or, set, take, drop, replicate,
  Bytes, bit_and, bit_or, bit_xor,
}
use osldr.Sectors.{slice}
use osldr.Io.Errno.{enomem, eio}

-- `ReadSector`, which gives the sectors that it has put into the buffer, `malloc`, `free` and the setting of
-- `errno`, over a state `S` of all that changes.
pub record VolumeOps (S : Type 0) : Type 0 where
  pub read_sector : ℕ → ℕ → S → List Bytes × S
  pub malloc : ℕ → S → Option ℕ × S
  pub free : ℕ → S → S
  pub set_errno : ℕ → S → S

-- While `I` holds of the state, what is read in full is what the device holds, and `I` goes on holding.
pub record IsFaithful {S : Type 0} (ops : VolumeOps S) (I : S → Type 0) (volume : ℕ → Bytes)
    : Type 0 where
  pub read_keeps :
      (sector n : ℕ) (s : S) → I s → sector + n < 2 ^ 64 → I (ops.read_sector sector n s).1
  pub read_slice :
      (sector n : ℕ) (s : S)
      → I s
      → sector + n < 2 ^ 64
      → length (ops.read_sector sector n s).0 ≡ n
      → (ops.read_sector sector n s).0 ≡ slice volume sector n
  pub malloc_keeps : (n : ℕ) (s : S) → I s → I (ops.malloc n s).1
  pub free_keeps : (p : ℕ) (s : S) → I s → I (ops.free p s)
  pub errno_keeps : (e : ℕ) (s : S) → I s → I (ops.set_errno e s)

-- `E` says that an error has been set; `free` leaves it.
pub record Reports {S : Type 0} (ops : VolumeOps S) (E : S → Type 0) : Type 0 where
  pub errno_sets : (e : ℕ) (s : S) → E (ops.set_errno e s)
  pub free_leaves : (p : ℕ) (s : S) → E s → E (ops.free p s)

-- The bytes of sectors, one behind the other.
abbrev pub concat : List Bytes → Bytes
concat [] = []
concat (s ∷ ss) = s ++ concat ss

module _ {S : Type 0} (ops : VolumeOps S) where
  -- The halving loop of the two file systems: a buffer for as many units of a size, sectors or clusters, as
  -- there is memory for, with their number.
  unfoldable pub allocate_part : ℕ → ℕ → ℕ → S → Option (ℕ × ℕ) × S
  allocate_part zero count unit s = (none, s)
  allocate_part (suc fuel) count unit s =
      let (block, s') = ops.malloc (mul64 count unit % 2 ^ 32) s in
      let less = allocate_part fuel (count / 2) unit s' in
      elim block [
        | some p ↦ (some (count, p), s')
        | none ↦ if ltb 1 (count / 2) then less else (none, s')
      ]

  -- The reading of a part of a run: a buffer for at most `count` units of `unit` bytes and `per` sectors is
  -- allocated, and the sectors are read into it; the bytes, and the number of units.
  unfoldable pub read_part : ℕ → ℕ → ℕ → ℕ → S → Option (Bytes × ℕ) × S
  read_part unit per sector count s =
      let (buffer, s') = allocate_part count count unit s in
      elim buffer [
        | none ↦ (none, ops.set_errno enomem s')
        | some (k, p) ↦
            let (sectors, s'') = ops.read_sector sector (mul64 k per) s' in
            let read = length sectors == mul64 k per in
            if read
            then (some (concat sectors, k), ops.free p s'')
            else (none, ops.free p (ops.set_errno eio s''))
      ]
