-- ===== src/Fat/Chain.antt =====
-- `GetNextCluster` reads the entry of the cluster.
use osldr.Base.{
  ℕ, ◌+◌, ◌-◌, ◌*◌, ◌/◌, ◌%◌, ◌<◌, ◌^◌, ◌≡◌, inl, inr, refl, ap, ◌∙◌, Option, some, Bool-cases,
  ◌==◌, if◌then◌else◌, arith, dec_le, get_or, Bytes,
}
use native.Mathlib.Nat.{div-add-mod', mod-lt, mod-mod_of_dvd, dvd_of_mod-eq-zero}
use osldr.Base.{==_iff}
use osldr.Fat.{
  FatType, fat12, fat16, fat32, entry_offset, half, entry12, entry_in, get_next_cluster,
}

-- The sectors of the table, in order, hold the bytes of the table.
abbrev pub IsTable : (ℕ → Option Bytes) → ℕ → (ℕ → ℕ) → Type 0
IsTable fat bytes_per_sector table =
    (n : ℕ)
    → (s : Bytes) × (fat n ≡ some s)
      × ((i : ℕ) → i < bytes_per_sector → get_or s i 0 ≡ table (n * bytes_per_sector + i))

-- The entries of a table of bytes, by its format: three bytes for two entries of 12 bits.
abbrev pub entry_of : FatType → (ℕ → ℕ) → ℕ → ℕ
entry_of fat12 table c =
    if c % 2 == 0
    then table (c / 2 * 3) + table (c / 2 * 3 + 1) % 16 * 256
    else table (c / 2 * 3 + 1) / 16 + table (c / 2 * 3 + 2) * 16
entry_of fat16 table c = table (c * 2) + table (c * 2 + 1) * 256
entry_of fat32 table c =
    table (c * 4)
    + table (c * 4 + 1) * 2 ^ 8
    + table (c * 4 + 2) * 2 ^ 16
    + table (c * 4 + 3) * 2 ^ 24

offset12 : (c : ℕ) → c < 2 ^ 30 → entry_offset fat12 c ≡ c + c / 2
unfolding entry_offset
offset12 c small = omega arith

offset16 : (c : ℕ) → c < 2 ^ 30 → entry_offset fat16 c ≡ c * 2
unfolding entry_offset
offset16 c small = omega arith

offset32 : (c : ℕ) → c < 2 ^ 30 → entry_offset fat32 c ≡ c * 4
unfolding entry_offset
offset32 c small = omega arith

half-table :
    (table : ℕ → ℕ) (c : ℕ)
    → ((i : ℕ) → table i < 256)
    → half c (table (c + c / 2) + table (c + c / 2 + 1) * 2 ^ 8) ≡ entry_of fat12 table c
half-table table c bytes = elim (dec_le (c % 2) 0) [
  | yes even ↦
      let at : c + c / 2 ≡ c / 2 * 3 = omega arith in
      let low = bytes (c / 2 * 3) in
      let e : c % 2 ≡ 0 = omega arith in rw (at, e) (omega (arith, low))
  | no odd ↦
      let at : c + c / 2 ≡ c / 2 * 3 + 1 = omega arith in
      let low = bytes (c / 2 * 3 + 1) in
      let e : c % 2 ≡ 1 = omega arith in
      let next : c / 2 * 3 + 1 + 1 ≡ c / 2 * 3 + 2 = omega arith in
      rw (at, e, next) (omega (arith, low))
]

module _ (fat : ℕ → Option Bytes) (b : ℕ) (table : ℕ → ℕ) (is_table : IsTable fat b table)
    (pos : 0 < b) where
  -- The bytes of the sector that an offset lies in, and of the next.
  buffer : ℕ → Bytes
  buffer o = (is_table (o / b)).0

  buffer-here : (o k : ℕ) → o % b + k < b → get_or (buffer o) (o % b + k) 0 ≡ table (o + k)
  unfolding buffer
  buffer-here o k inside =
      let place : o / b * b + (o % b + k) ≡ o + k = omega (arith, div-add-mod' o b) in
      (is_table (o / b)).2 (o % b + k) inside ∙ ap table place

  buffer-first : (o : ℕ) → get_or (buffer o) (o % b) 0 ≡ table o
  buffer-first o =
      let zero_more : o % b + 0 ≡ o % b = omega arith in
      let same : o + 0 ≡ o = omega arith in
      let this = buffer-here o 0 (omega (arith, mod-lt o pos)) in rw (zero_more, same) at this

  buffer-next : (o : ℕ) → o % b ≡ b - 1 → get_or (is_table (o / b + 1)).0 0 0 ≡ table (o + 1)
  buffer-next o last =
      let product : (o / b + 1) * b ≡ o / b * b + b = grind arith in
      let place : (o / b + 1) * b + 0 ≡ o + 1 =
        omega (arith, div-add-mod' o b, product, last, pos) in
      (is_table (o / b + 1)).2 0 pos ∙ ap table place

  entry12-table :
      (c : ℕ)
      → ((i : ℕ) → table i < 256)
      → c < 2 ^ 30
      → entry12 b c ((c + c / 2) % b) (buffer (c + c / 2)) (fat ((c + c / 2) / b + 1))
        ≡ entry_of fat12 table c
  unfolding entry12
  entry12-table c bytes small =
      let o = c + c / 2 in
      let inside = mod-lt o pos in
      let low = buffer-first o in
      elim (Bool-cases (o % b == b - 1)) [
        | inl last ↦
            let here : o % b ≡ b - 1 = (==_iff _ _).0 last in
            rw (last, (is_table (o / b + 1)).1, low, buffer-next o here) (half-table table c bytes)
        | inr k ↦
            let high = buffer-here o 1 (ground (arith, inside)) in
            rw (k, low, high) (half-table table c bytes)
      ]

  -- Of a table that can be read, whose bytes are below 256, in sectors of a size that is a multiple of 4
  -- and not 0, `GetNextCluster` returns the entry of the cluster, for clusters below 2 ^ 30: of 12 bits, also
  -- where the entry goes on in the next sector, of 16 bits, or of 32 bits.
  pub get_next_cluster-table :
      (kind : FatType) (c : ℕ)
      → ((i : ℕ) → table i < 256)
      → b % 4 ≡ 0
      → c < 2 ^ 30
      → get_next_cluster fat kind b c ≡ entry_of kind table c
  unfolding get_next_cluster entry_in buffer
  get_next_cluster-table fat12 c bytes whole small =
      let word : entry_offset fat12 c ≡ c + c / 2 = offset12 c small in
      rw (get_next_cluster, word, (is_table ((c + c / 2) / b)).1, word)
        (entry12-table c bytes small)
  get_next_cluster-table fat16 c bytes whole small =
      let word : entry_offset fat16 c ≡ c * 2 = offset16 c small in
      let whole2 : b % 2 ≡ 0 = omega arith in
      let even : c * 2 % b % 2 ≡ 0 =
        mod-mod_of_dvd 2 (c * 2) (dvd_of_mod-eq-zero 2 whole2) ∙ omega arith in
      let low = buffer-first (c * 2) in
      let high = buffer-here (c * 2) 1 (omega (arith, even, whole, mod-lt (c * 2) pos)) in
      rw (get_next_cluster, word, (is_table (c * 2 / b)).1, word, low, high) refl
  get_next_cluster-table fat32 c bytes whole small =
      let word : entry_offset fat32 c ≡ c * 4 = offset32 c small in
      let aligned : c * 4 % b % 4 ≡ 0 =
        mod-mod_of_dvd 4 (c * 4) (dvd_of_mod-eq-zero 4 whole) ∙ omega arith in
      let inside = mod-lt (c * 4) pos in
      let b0 = buffer-first (c * 4) in
      let b1 = buffer-here (c * 4) 1 (omega (arith, aligned, whole, inside)) in
      let b2 = buffer-here (c * 4) 2 (omega (arith, aligned, whole, inside)) in
      let b3 = buffer-here (c * 4) 3 (omega (arith, aligned, whole, inside)) in
      let plus : c * 4 % b + 2 + 1 ≡ c * 4 % b + 3 = omega arith in
      rw (get_next_cluster, word, (is_table (c * 4 / b)).1, word, plus, b0, b1, b2, b3)
        (omega arith)
