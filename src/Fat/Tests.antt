-- ===== src/Fat/Tests.antt =====
-- An instance of the theorem about the table.
use osldr.Base.{
  ℕ, zero, suc, ◌+◌, ◌*◌, ◌%◌, ◌<◌, ◌≡◌, refl, ap, ◌∙◌, Option, some, [], ◌∷◌, arith, get_or, Bytes,
}
use native.Mathlib.Nat.{mod-lt}
use osldr.Fat.{fat12, get_next_cluster}
use osldr.Fat.Chain.{get_next_cluster-table}

-- A table of mixed bytes, in sectors of 512 bytes.
abbrev mixed : ℕ → ℕ
mixed i = (i * 7 + 3) % 256

abbrev mixed_from : ℕ → ℕ → Bytes
mixed_from i zero = []
mixed_from i (suc n) = mixed i ∷ mixed_from (i + 1) n

abbrev mixed_sector : ℕ → Option Bytes
mixed_sector n = some (mixed_from (n * 512) 512)

get_or-mixed_from : (i n k : ℕ) → k < n → get_or (mixed_from i n) k 0 ≡ mixed (i + k)
get_or-mixed_from i zero k h = absurd (omega (arith, h))
get_or-mixed_from i (suc n) zero h = ap mixed (omega arith)
get_or-mixed_from i (suc n) (suc k) h =
    let at : i + 1 + k ≡ i + suc k = omega arith in
    get_or-mixed_from (i + 1) n k (omega (arith, h)) ∙ ap mixed at

-- An odd cluster, whose entry of 12 bits starts in the last byte of a sector.
get_next_cluster-table_example : get_next_cluster mixed_sector fat12 512 341 ≡ 63
get_next_cluster-table_example =
    get_next_cluster-table mixed_sector 512 mixed
      (λ n. (mixed_from (n * 512) 512, refl, λ i. get_or-mixed_from (n * 512) 512 i)) (omega arith)
      fat12 341 (λ i. mod-lt (i * 7 + 3) (omega arith)) refl (omega arith)
