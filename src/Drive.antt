-- ===== src/Drive.antt =====
-- The drives of src/drive.c: the table of drive parameters, and reading sectors by the BIOS.
-- `int86( 0x13, … )` is no code of the program: its answers are the record `Bios`. They depend on
-- the registers that are passed, not on what was asked before.
pub mod Params
pub mod Chs
pub mod Read
mod Tests
use mathlib.Core.Option
use osldr.Base.{
  ℕ, zero, suc, ◌+◌, ◌-◌, ◌*◌, ◌/◌, ◌%◌, ◌≤◌, ◌<◌, ◌^◌, min, max, ◌⊎◌, ◌↔◌, ◌≡◌, ◌≢◌, inl, inr,
  refl, sym, ap, ◌∙◌, Bool, true, false, not, ◌&&◌, ◌||◌, Option, none, some, List, [], ◌∷◌, ◌++◌,
  map, Bool-cases, Option-cases, leb, ltb, ◌==◌, if◌then◌else◌, add32, sub32, mul32, add64, sub64,
  mul64, arith, dec_le, dec_lt, ℕ_discrete, length, get_elem?, get_or, set, take, drop, replicate,
  Bytes, bit_and, bit_or, bit_xor,
}

-- `DRIVE_INFO`
pub record DriveInfo : Type 0 where
  pub drive : ℕ
  pub edd_version : ℕ
  pub controller_flags : ℕ
  pub drive_flags : ℕ
  pub cylinders : ℕ
  pub heads : ℕ
  pub sectors : ℕ
  pub total_sectors : ℕ
  pub bytes_per_sector : ℕ

-- What INT 13h/48h writes into the buffer, for the fields that follow `ControllerFlags`.
pub record EddInfo : Type 0 where
  pub drive_flags : ℕ
  pub cylinders : ℕ
  pub heads : ℕ
  pub sectors : ℕ
  pub total_sectors : ℕ
  pub bytes_per_sector : ℕ

-- The registers that INT 13h/08h returns, and the byte of the disk base table at `es:di`.
pub record ChsInfo : Type 0 where
  pub dh : ℕ
  pub cl : ℕ
  pub ch : ℕ
  pub table_bytes : ℕ

-- INT 13h; `none` is a set carry flag (or, for the reads, a status in `ah` other than 0). 41h gives
-- `ah`, `bx` and `cx`. 42h gives the sectors read and the block count it leaves in the packet; 02h
-- is asked for cylinder, head, sector (as in `cl`, `ch`, `dh`) and a count, and gives sectors.
pub record Bios : Type 0 where
  pub extensions : ℕ → Option (ℕ × ℕ × ℕ)
  pub edd_params : ℕ → Option EddInfo
  pub chs_params : ℕ → Option ChsInfo
  pub edd_read : ℕ → ℕ → ℕ → Option (ℕ × List Bytes)
  pub chs_read : ℕ → ℕ → ℕ → ℕ → ℕ → Option (List Bytes)

-- `DriveParameters` with `DriveParametersCount`: the array has `max_drives` slots, of which the
-- first `count` are in use.
pub record DriveTable : Type 0 where
  pub count : ℕ
  pub slots : List DriveInfo

abbrev pub max_drives : ℕ
max_drives = 16

abbrev pub blank : DriveInfo
blank = record {
  drive = 0;
  edd_version = 0;
  controller_flags = 0;
  drive_flags = 0;
  cylinders = 0;
  heads = 0;
  sectors = 0;
  total_sectors = 0;
  bytes_per_sector = 0;
}

-- The slot that holds the drive, among the first `n`.
pub find_slot : ℕ → ℕ → List DriveInfo → Option ℕ
find_slot zero drive slots = none
find_slot (suc n) drive [] = none
find_slot (suc n) drive (d ∷ slots) =
    if drive == d.drive then some 0 else Option.map (λ i. suc i) (find_slot n drive slots)

-- `memmove( &DriveParameters[1], &DriveParameters[0], n * sizeof(DRIVE_INFO) )` and a write of the
-- first slot.
pub shift_in : ℕ → DriveInfo → List DriveInfo → List DriveInfo
shift_in n d slots = d ∷ (take n slots ++ drop (suc n) slots)

-- Fields by INT 13h/08h.
pub chs_fields : DriveInfo → ChsInfo → DriveInfo
chs_fields d r =
    let heads = r.dh + 1 in
    let sectors = r.cl % 64 in
    let cylinders = r.cl / 64 % 4 * 256 + r.ch + 1 in
    record d {
      heads = heads;
      sectors = sectors;
      cylinders = cylinders;
      total_sectors = mul32 (mul32 heads sectors) cylinders;
      bytes_per_sector =
          if ltb r.table_bytes 4 then 128 * 2 ^ r.table_bytes else d.bytes_per_sector;
    }

-- Fields by INT 13h/48h.
pub edd_fields : DriveInfo → Option EddInfo → Bool × DriveInfo
edd_fields d none = (false, d)
edd_fields d (some e) = (
  true,
  record d {
    drive_flags = e.drive_flags;
    cylinders = e.cylinders;
    heads = e.heads;
    sectors = e.sectors;
    total_sectors = e.total_sectors;
    bytes_per_sector = e.bytes_per_sector;
  },
)

module _ (bios : Bios) where
  -- The part of `GetDriveParameters` that fills the slot, whose contents are stale: the slot, and
  -- whether the BIOS has answered.
  pub fill_edd : DriveInfo → Bool × DriveInfo
  fill_edd d = elim (bios.extensions d.drive) [
    | none ↦ (false, d)
    | some (ah, bx, cx) ↦
        let d' = record d { edd_version = ah; controller_flags = cx } in
        if not (bx == 0xaa55)
        then (false, d)
        else if cx % 2 == 1
        then edd_fields d' (bios.edd_params d.drive)
        else (false, d')
  ]

  pub fill_chs : DriveInfo → Bool × DriveInfo
  fill_chs d =
      let d' = record d {
        edd_version = 0;
        controller_flags = 0;
        drive_flags = 0;
        bytes_per_sector = 512;
      } in
      elim (bios.chs_params d.drive) [ none ↦ (false, d') | some r ↦ (true, chs_fields d' r) ]

  pub fill : DriveInfo → Bool × DriveInfo
  fill d = let (done, d') = fill_edd d in if done then (true, d') else fill_chs d'

  -- `GetDriveParameters`: the entry that is now in the first slot, or NULL.
  pub get_drive_parameters : ℕ → DriveTable → Option DriveInfo × DriveTable
  get_drive_parameters drive t = elim (find_slot t.count drive t.slots) [
    | some i ↦ let d = get_or t.slots i blank in (some d, record t { slots = shift_in i d t.slots })
    | none ↦
        let count = if t.count == max_drives then t.count - 1 else t.count in
        let stale = record (get_or t.slots 0 blank) { drive = drive } in
        let (done, d) = fill stale in
        let slots = shift_in count d t.slots in
        if done
        then (some d, record { count = count + 1; slots = slots })
        else (none, record { count = count; slots = slots })
  ]

-- The registers of INT 13h/02h for a sector: cylinder (truncated to UINT), head, sector from 0.
pub record Place : Type 0 where
  pub cylinder : ℕ
  pub head : ℕ
  pub sector : ℕ

pub to_chs : DriveInfo → ℕ → Place
to_chs d sector = record {
  cylinder = sector / mul32 d.heads d.sectors % 2 ^ 32;
  head = sector / d.sectors % d.heads;
  sector = sector % d.sectors;
}

-- `regs.h.cl`: the two parts of the `|` have no bit in common.
pub reg_cl : Place → ℕ
reg_cl c = (c.sector + 1) % 64 + c.cylinder / 256 % 4 * 64

pub reg_ch : Place → ℕ
reg_ch c = c.cylinder % 256

pub reg_dh : Place → ℕ
reg_dh c = c.head % 256

module _ (bios : Bios) (d : DriveInfo) where
  -- The loop of `ReadDrive` without EDD, one track at most at a time, on fuel for its rounds: the count
  -- of sectors that it adds up, and what has been put into the buffer.
  pub read_tracks : ℕ → ℕ → ℕ → ℕ × List Bytes
  read_tracks zero sector left = (0, [])
  read_tracks (suc fuel) sector zero = (0, [])
  read_tracks (suc fuel) sector (suc more) =
      let left : ℕ = suc more in
      let c = to_chs d sector in
      let count = min (d.sectors - c.sector) left in
      let (read, rest) = read_tracks fuel (sector + count) (left - count) in
      elim (bios.chs_read d.drive (reg_ch c) (reg_cl c) (reg_dh c) count) [
        | none ↦ (0, [])
        | some got ↦ (count + read, got ++ rest)
      ]

  -- `ReadDrive` once the parameters are known: the count that it returns, and the sectors that the
  -- buffer then holds.
  pub read_drive_with : ℕ → ℕ → ℕ × List Bytes
  read_drive_with sector left =
      if d.controller_flags % 2 == 1
      then elim (bios.edd_read d.drive sector (left % 2 ^ 16)) [ none ↦ (0, []) | some r ↦ r ]
      else read_tracks left sector left

-- `ReadDrive`
pub read_drive : Bios → ℕ → ℕ → ℕ → DriveTable → ℕ × List Bytes × DriveTable
read_drive bios drive sector left t =
    let (info, t') = get_drive_parameters bios drive t in
    elim info [
      | none ↦ (0, [], t')
      | some d ↦ let (n, got) = read_drive_with bios d sector left in (n, got, t')
    ]
