-- ===== src/Fat/File/Round.antt =====
-- A round of the outer loop of `_ReadFile`: the run that it finds is wanted, and moves the cursor.
use osldr.Base.{
  ℕ, ◌+◌, ◌-◌, ◌*◌, ◌/◌, ◌%◌, ◌≤◌, ◌<◌, ◌⊎◌, ◌≡◌, inl, inr, ap, Bool, true, false, ◌==◌,
  if◌then◌else◌, arith, dec_lt, length, Bytes,
}
use native.Mathlib.Nat.{mul-le-mul_right}
use osldr.Base.{==_iff}
use osldr.Volumes.{VolumeOps, IsFaithful, Reports}
use osldr.Volumes.Pieces.{units-le}
use osldr.Fat.File.{FatInfo}
use osldr.Fat.File.Run.{chain, IsSound, AtCursor, InStep}
use osldr.Fat.File.Ran.{Ran}

module _ (volume : ℕ → Bytes) (fi : FatInfo) (sound : IsSound volume fi) (first : ℕ) where
  -- A run has its first cluster.
  pub single :
      (q cluster : ℕ)
      → cluster ≡ chain volume fi first q
      → (j : ℕ) → j < 0 + 1
      → chain volume fi first (q + j) ≡ cluster + j
  single q cluster at j lt =
      let zeroth : j ≡ 0 = omega (arith, lt) in
      let q' : q + 0 ≡ q = omega arith in rw (zeroth, q') (omega (arith, at))

  -- Bytes of each cluster of a run are wanted.
  pub run_wanted :
      (count off n : ℕ)
      → 0 < n
      → count ≤ (off + n + fi.bytes_per_cluster - 1) / fi.bytes_per_cluster
      → off < fi.bytes_per_cluster
      → count * fi.bytes_per_cluster < off + n + fi.bytes_per_cluster
  run_wanted count off n n_pos le below =
      let product = mul-le-mul_right fi.bytes_per_cluster le in
      omega (
        arith,
        product,
        units-le fi.bytes_per_cluster off n (omega (arith, below)) below n_pos,
        n_pos,
      )

module _ {S : Type 0} (ops : VolumeOps S) (I : S → Type 0) (volume : ℕ → Bytes)
    (faithful : IsFaithful ops I volume) (E : S → Type 0) (reports : Reports ops E) (fi : FatInfo)
    (sound : IsSound volume fi) (first : ℕ) where
  -- A run that has been read to its end, with something wanted, moves the cursor, and keeps the cluster in step.
  pub round-InStep :
      (cursor n q count next : ℕ) (r : Bool × Bytes × ℕ × ℕ × ℕ) (s : S)
      → Ran ops I volume faithful E reports fi sound first (q + count) cursor n (r, s)
      → cursor / fi.bytes_per_cluster ≡ q
      → 0 < count
      → 0 < n
      → (next ≡ chain volume fi first (q + count)) ⊎ (fi.end_cluster ≤ next)
      → r.0 ≡ true
      → (0 < length r.1)
        × InStep volume fi first r.2 (if r.2 % fi.bytes_per_cluster == 0 then next else r.3)
  round-InStep cursor n q count next r s ran from count_pos n_pos follows ok = elim ran.ended [
    | inl (failed, e, at) ↦ absurd (cc (failed, ok))
    | inr (yes_ok, inl (aligned, till)) ↦
        let test : (r.2 % fi.bytes_per_cluster == 0) ≡ true = (==_iff _ _).1 aligned in
        let moved : 0 < length r.1 = elim (dec_lt 0 (length r.1)) [
          | yes some_bytes ↦ some_bytes
          | no nothing ↦
              let same : r.2 ≡ cursor = omega (arith, nothing, ran.moves) in
              let still = ap (λ (c : ℕ). c / fi.bytes_per_cluster) same in
              absurd (omega (arith, still, till, from, count_pos))
        ] in
        rw test (moved, elim follows [ inl e ↦ inl (rw till e) | inr out ↦ inr out ])
    | inr (yes_ok, inr (ne, all, at)) ↦
        let test : (r.2 % fi.bytes_per_cluster == 0) ≡ false = ground (arith, ne) in
        rw test (omega (arith, all, ran.left, n_pos), inl at)
  ]

  pub failed_at :
      (cursor n till : ℕ) (r : Bool × Bytes × ℕ × ℕ × ℕ) (s : S)
      → Ran ops I volume faithful E reports fi sound first till cursor n (r, s)
      → r.0 ≡ false
      → E s × AtCursor volume fi first r.2 r.3
  failed_at cursor n till r s ran failed = elim ran.ended [
    | inl (no_ok, e, at) ↦ (e, at)
    | inr (ok, rest) ↦ absurd (cc (failed, ok))
  ]
