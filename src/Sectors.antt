-- ===== src/Sectors.antt =====
-- The sectors of a disk, in order.
use osldr.Base.{ℕ, zero, suc, ◌+◌, ◌≡◌, refl, ap, List, [], ◌∷◌, ◌++◌, arith, length, Bytes}
use native.Mathlib.Nat.{add-zero}
use Prim.Native.Nat.add

-- The sectors `sector` to `sector + n - 1` of a disk.
abbrev pub slice : (ℕ → Bytes) → ℕ → ℕ → List Bytes
slice disk sector zero = []
slice disk sector (suc n) = disk sector ∷ slice disk (sector + 1) n

pub slice_split :
    (disk : ℕ → Bytes) (sector m n : ℕ)
    → slice disk sector m ++ slice disk (sector + m) n ≡ slice disk sector (m + n)
slice_split disk sector zero n = rw (add-zero, add.zero)
slice_split disk sector (suc m) n =
    let shift : sector + suc m ≡ sector + 1 + m = omega arith in
    let total : suc m + n ≡ suc (m + n) = omega arith in
    rw (shift, total, slice_split disk (sector + 1) m n)

pub length-slice : (disk : ℕ → Bytes) (sector n : ℕ) → length (slice disk sector n) ≡ n
length-slice disk sector zero = refl
length-slice disk sector (suc n) = ap suc (length-slice disk (sector + 1) n)
