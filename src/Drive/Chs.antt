-- ===== src/Drive/Chs.antt =====
-- The addressing of sectors by cylinder, head and sector in src/drive.c.
use osldr.Base.{ℕ, ◌+◌, ◌-◌, ◌*◌, ◌/◌, ◌%◌, ◌≤◌, ◌<◌, ◌^◌, ◌≡◌, mul32, arith}
use native.Mathlib.Nat.{
  div-div-eq-div-mul, div-add-mod', div-lt_iff_lt-mul, mod-lt, mul_comm, mul-pos,
}
use osldr.Drive.{DriveInfo, to_chs, reg_cl, reg_ch, reg_dh}

-- What the BIOS addresses by the registers of INT 13h/02h: ten bits of cylinder, a head, and a
-- sector that counts from 1; as a sector number of a drive with `heads` heads and `sectors` sectors
-- to the track.
abbrev pub addressed : ℕ → ℕ → ℕ → ℕ → ℕ → ℕ
addressed heads sectors ch cl dh = ((cl / 64 * 256 + ch) * heads + dh) * sectors + (cl % 64 - 1)

-- A geometry that INT 13h/08h can report.
pub record IsGeometry (d : DriveInfo) : Type 0 where
  pub some_head : 0 < d.heads
  pub heads_fit : d.heads ≤ 256
  pub some_sector : 0 < d.sectors
  pub sectors_fit : d.sectors ≤ 63

mul_le : (a b m n : ℕ) → a ≤ m → b ≤ n → a * b ≤ m * n
mul_le a b m n h k = grind arith

-- The fields of `cl` and `ch` give back a cylinder of ten bits and a sector of six.
packed_fields :
    (cylinder sector : ℕ)
    → cylinder < 1024
    → sector < 63
    → let cl = (sector + 1) % 64 + cylinder / 256 % 4 * 64 in
      (cl / 64 * 256 + cylinder % 256 ≡ cylinder) × (cl % 64 - 1 ≡ sector)
packed_fields cylinder sector h k = omega arith

-- A sector number from its three coordinates.
from_coordinates :
    (sector heads sectors : ℕ)
    → (sector / (sectors * heads) * heads + sector / sectors % heads) * sectors + sector % sectors
      ≡ sector
from_coordinates sector heads sectors = rw (
  ← div-div-eq-div-mul sector sectors heads,
  div-add-mod' (sector / sectors) heads,
  div-add-mod' sector sectors,
)

-- The registers that `ReadDrive` loads for a sector below cylinder 1024 address that sector.
pub addressed-to_chs :
    (d : DriveInfo) (sector : ℕ)
    → IsGeometry d
    → sector < 1024 * (d.heads * d.sectors)
    → let c = to_chs d sector in
      addressed d.heads d.sectors (reg_ch c) (reg_cl c) (reg_dh c) ≡ sector
unfolding to_chs reg_cl reg_ch reg_dh
addressed-to_chs d sector g h =
    let area : d.heads * d.sectors ≤ 256 * 63 = mul_le _ _ 256 63 g.heads_fit g.sectors_fit in
    let area_pos : 0 < d.heads * d.sectors = mul-pos g.some_head g.some_sector in
    let word : mul32 d.heads d.sectors ≡ d.heads * d.sectors = omega arith in
    let in_range : sector / (d.heads * d.sectors) < 1024 = (div-lt_iff_lt-mul area_pos).1 h in
    let small : sector / (d.heads * d.sectors) % 2 ^ 32 ≡ sector / (d.heads * d.sectors) =
      omega arith in
    let head : sector / d.sectors % d.heads % 256 ≡ sector / d.sectors % d.heads =
      omega (arith, mod-lt (sector / d.sectors) g.some_head) in
    let within : sector % d.sectors < 63 = omega (arith, mod-lt sector g.some_sector) in
    let fields =
      packed_fields (sector / (d.heads * d.sectors)) (sector % d.sectors) in_range within in
    rw (word, small, head, fields.0, fields.1, mul_comm d.heads d.sectors)
      (from_coordinates sector d.heads d.sectors)

-- The head and the sector in the registers are of the geometry.
pub registers_fit :
    (d : DriveInfo) (sector : ℕ)
    → IsGeometry d
    → let c = to_chs d sector in
      (reg_dh c < d.heads) × (reg_cl c % 64 - 1 ≡ c.sector) × (c.sector < d.sectors)
unfolding to_chs reg_cl reg_dh
registers_fit d sector g =
    let within : sector % d.sectors < d.sectors = mod-lt sector g.some_sector in
    let head : sector / d.sectors % d.heads < d.heads = mod-lt (sector / d.sectors) g.some_head in
    (omega arith, omega arith, within)
