-- ===== src/Drive/Params.antt =====
-- The table of drive parameters in src/drive.c.
use osldr.Base.{
  ℕ, zero, suc, ◌+◌, ◌-◌, ◌*◌, ◌/◌, ◌%◌, ◌^◌, true, false, mul32, ◌≤◌, ◌<◌, ◌⊎◌, ◌≡◌, inl, inr,
  refl, sym, ap, none, some, List, [], ◌∷◌, Bool-cases, Option-cases, ◌==◌, if◌then◌else◌, arith,
  get_or,
}
use osldr.Drive.{
  DriveInfo, Bios, EddInfo, ChsInfo, DriveTable, max_drives, blank, find_slot, shift_in, chs_fields,
  edd_fields, fill_edd, fill_chs, fill, get_drive_parameters,
}

fill_edd-drive : (bios : Bios) (d : DriveInfo) → (fill_edd bios d).1.drive ≡ d.drive
unfolding fill_edd edd_fields
fill_edd-drive bios d = elim (Option-cases (bios.extensions d.drive)) [
  | inl e ↦ ground arith
  | inr (r, e) ↦ elim (Option-cases (bios.edd_params d.drive)) [
    | inl k ↦ ground arith
    | inr (i, k) ↦ ground arith
  ]
]

fill_chs-drive : (bios : Bios) (d : DriveInfo) → (fill_chs bios d).1.drive ≡ d.drive
unfolding fill_chs chs_fields
fill_chs-drive bios d = elim (Option-cases (bios.chs_params d.drive)) [
  | inl e ↦ ground arith
  | inr (r, e) ↦ ground arith
]

fill-drive : (bios : Bios) (d : DriveInfo) → (fill bios d).1.drive ≡ d.drive
unfolding fill
fill-drive bios d = ground (arith, fill_edd-drive bios d, fill_chs-drive bios (fill_edd bios d).1)

find_slot-drive :
    (n drive i : ℕ) (slots : List DriveInfo)
    → find_slot n drive slots ≡ some i
    → (i < n) × ((get_or slots i blank).drive ≡ drive)
unfolding find_slot
find_slot-drive zero drive i slots e = ground arith
find_slot-drive (suc n) drive i [] e = ground arith
find_slot-drive (suc n) drive i (d ∷ slots) e = elim (Option-cases (find_slot n drive slots)) [
  | inl k ↦ ground arith
  | inr (j, k) ↦ ground (arith, find_slot-drive n drive j slots k)
]

-- The first slot is in use and holds `d`.
abbrev pub Front : DriveInfo → DriveTable → Type 0
Front d t = (rest : List DriveInfo) × (t.slots ≡ d ∷ rest) × (0 < t.count)

find_slot-head :
    (n : ℕ) (d : DriveInfo) (rest : List DriveInfo)
    → 0 < n
    → find_slot n d.drive (d ∷ rest) ≡ some 0
unfolding find_slot
find_slot-head zero d rest h = elim h [ ]
find_slot-head (suc n) d rest h = ground arith

-- A drive in the first slot is found there, and nothing changes.
again-Front :
    (bios : Bios) (d : DriveInfo) (t : DriveTable)
    → Front d t
    → get_drive_parameters bios d.drive t ≡ (some d, t)
unfolding get_drive_parameters shift_in
again-Front bios d t (rest, e, pos) =
    ground (arith, rw (← e) at (find_slot-head t.count d rest pos))

-- What the BIOS answers to INT 13h/48h: the extensions are there, with access by packets.
abbrev pub EddAnswers : Bios → DriveInfo → Type 0
EddAnswers bios d =
    (ah bx cx : ℕ) × (e : EddInfo) × (bios.extensions d.drive ≡ some (ah, bx, cx))
    × (bx ≡ 0xaa55)
    × (cx % 2 ≡ 1)
    × (bios.edd_params d.drive ≡ some e)
    × (d.heads ≡ e.heads)
    × (d.sectors ≡ e.sectors)
    × (d.cylinders ≡ e.cylinders)
    × (d.total_sectors ≡ e.total_sectors)
    × (d.bytes_per_sector ≡ e.bytes_per_sector)

-- And to INT 13h/08h: the largest numbers of a head, of a sector and of a cylinder, of which the first and the
-- last count from 0.
abbrev pub ChsAnswers : Bios → DriveInfo → Type 0
ChsAnswers bios d =
    (r : ChsInfo) × (bios.chs_params d.drive ≡ some r)
    × (d.heads ≡ r.dh + 1)
    × (d.sectors ≡ r.cl % 2 ^ 6)
    × (d.cylinders ≡ r.cl / 2 ^ 6 % 2 ^ 2 * 2 ^ 8 + r.ch + 1)
    × (d.total_sectors ≡ mul32 (mul32 d.heads d.sectors) d.cylinders)
    × (r.table_bytes < 4 → d.bytes_per_sector ≡ 128 * 2 ^ r.table_bytes)
    × (4 ≤ r.table_bytes → d.bytes_per_sector ≡ 512)

fill_edd-EddAnswers :
    (bios : Bios) (d : DriveInfo) → (fill_edd bios d).0 ≡ true → EddAnswers bios (fill_edd bios d).1
unfolding fill_edd edd_fields
fill_edd-EddAnswers bios d e = elim (Option-cases (bios.extensions d.drive)) [
  | inl none_there ↦ absurd (ground (arith, e, none_there))
  | inr ((ah, bx, cx), there) ↦ elim (Bool-cases (bx == 0xaa55)) [
    | inr other ↦ let e' = rw (fill_edd, there, other) at e in absurd (cc e')
    | inl magic ↦ elim (Bool-cases (cx % 2 == 1)) [
      | inr no_packets ↦ let e' = rw (fill_edd, there, magic, no_packets) at e in absurd (cc e')
      | inl packets ↦ elim (Option-cases (bios.edd_params d.drive)) [
        | inl nothing ↦
            let e' = rw (fill_edd, there, magic, packets, nothing, edd_fields) at e in
            absurd (cc e')
        | inr (i, found) ↦
            rw (fill_edd, there, magic, packets, found, edd_fields)
              (
                ah,
                bx,
                cx,
                i,
                there,
                ground (arith, magic),
                ground (arith, packets),
                found,
                refl,
                refl,
                refl,
                refl,
                refl,
              )
      ]
    ]
  ]
]

fill_chs-ChsAnswers :
    (bios : Bios) (d : DriveInfo) → (fill_chs bios d).0 ≡ true → ChsAnswers bios (fill_chs bios d).1
unfolding fill_chs chs_fields
fill_chs-ChsAnswers bios d e = elim (Option-cases (bios.chs_params d.drive)) [
  | inl none_there ↦ absurd (ground (arith, e, none_there))
  | inr (r, there) ↦
      rw (fill_chs, there)
        (r, there, refl, refl, refl, refl, λ lt. ground (arith, lt), λ ge. ground (arith, ge))
]

fill-Answers :
    (bios : Bios) (d : DriveInfo)
    → (fill bios d).0 ≡ true
    → EddAnswers bios (fill bios d).1 ⊎ ChsAnswers bios (fill bios d).1
unfolding fill
fill-Answers bios d e = elim (Bool-cases (fill_edd bios d).0) [
  | inl edd ↦ rw (fill, edd) (inl (fill_edd-EddAnswers bios d edd))
  | inr no_edd ↦
      let e' = rw (fill, no_edd) at e in
      rw (fill, no_edd) (inr (fill_chs-ChsAnswers bios (fill_edd bios d).1 e'))
]

-- The geometry that another drive has left in a slot.
pub record Stale (old d : DriveInfo) : Type 0 where
  pub heads_same : d.heads ≡ old.heads
  pub sectors_same : d.sectors ≡ old.sectors
  pub cylinders_same : d.cylinders ≡ old.cylinders
  pub total_same : d.total_sectors ≡ old.total_sectors

fill_edd-Stale :
    (bios : Bios) (d : DriveInfo) → (fill_edd bios d).0 ≡ false → Stale d (fill_edd bios d).1
unfolding fill_edd edd_fields
fill_edd-Stale bios d e = elim (Option-cases (bios.extensions d.drive)) [
  | inl none_there ↦
      rw (fill_edd, none_there)
        (record {
          heads_same = refl;
          sectors_same = refl;
          cylinders_same = refl;
          total_same = refl;
        })
  | inr ((ah, bx, cx), there) ↦ elim (Bool-cases (bx == 0xaa55)) [
    | inr other ↦
        rw (fill_edd, there, other)
          (record {
            heads_same = refl;
            sectors_same = refl;
            cylinders_same = refl;
            total_same = refl;
          })
    | inl magic ↦ elim (Bool-cases (cx % 2 == 1)) [
      | inr no_packets ↦
          rw (fill_edd, there, magic, no_packets)
            (record {
              heads_same = refl;
              sectors_same = refl;
              cylinders_same = refl;
              total_same = refl;
            })
      | inl packets ↦ elim (Option-cases (bios.edd_params d.drive)) [
        | inl nothing ↦
            rw (fill_edd, there, magic, packets, nothing, edd_fields)
              (record {
                heads_same = refl;
                sectors_same = refl;
                cylinders_same = refl;
                total_same = refl;
              })
        | inr (i, found) ↦
            let e' = rw (fill_edd, there, magic, packets, found, edd_fields) at e in absurd (cc e')
      ]
    ]
  ]
]

fill-Stale : (bios : Bios) (d : DriveInfo) → (fill bios d).0 ≡ false → Stale d (fill bios d).1
unfolding fill fill_chs chs_fields
fill-Stale bios d e = elim (Bool-cases (fill_edd bios d).0) [
  | inl edd ↦ let e' = rw (fill, edd) at e in absurd (cc e')
  | inr no_edd ↦
      let left = fill_edd-Stale bios d no_edd in
      let e' = rw (fill, no_edd) at e in
      elim (Option-cases (bios.chs_params (fill_edd bios d).1.drive)) [
        | inl nothing ↦
            rw (fill, no_edd, fill_chs, nothing)
              (record {
                heads_same = left.heads_same;
                sectors_same = left.sectors_same;
                cylinders_same = left.cylinders_same;
                total_same = left.total_same;
              })
        | inr (r, there) ↦ let e'' = rw (fill_chs, there) at e' in absurd (cc e'')
      ]
]

-- The ways through `GetDriveParameters`: the drive is in the table, or it is asked of the BIOS.
module _ (bios : Bios) (drive : ℕ) (t : DriveTable) where
  record Hit : Type 0 where
    slot : ℕ
    in_use : slot < t.count
    same : (get_or t.slots slot blank).drive ≡ drive
    result : get_drive_parameters bios drive t ≡ (
      some (get_or t.slots slot blank),
      record t { slots = shift_in slot (get_or t.slots slot blank) t.slots },
    )

  record Miss : Type 0 where
    info : DriveInfo
    count : ℕ
    same : info.drive ≡ drive
    cut : count ≡ (if t.count == max_drives then t.count - 1 else t.count)
    result :
        (get_drive_parameters bios drive t
            ≡ (some info, record { count = count + 1; slots = shift_in count info t.slots }))
          × (EddAnswers bios info ⊎ ChsAnswers bios info)
        ⊎ (get_drive_parameters bios drive t
            ≡ (none, record { count = count; slots = shift_in count info t.slots }))
          × Stale (get_or t.slots 0 blank) info

  get_drive_parameters-cases : Hit ⊎ Miss
  unfolding get_drive_parameters
  get_drive_parameters-cases = elim (Option-cases (find_slot t.count drive t.slots)) [
    | inr (i, found) ↦
        let (lt, same') = find_slot-drive t.count drive i t.slots found in
        inl (record {
          slot = i;
          in_use = lt;
          same = same';
          result = rw (found, get_drive_parameters);
        })
    | inl missing ↦
        let as_stale : Stale (record (get_or t.slots 0 blank) { drive = drive })
              (fill bios (record (get_or t.slots 0 blank) { drive = drive })).1
            → Stale (get_or t.slots 0 blank)
                (fill bios (record (get_or t.slots 0 blank) { drive = drive })).1 =
          λ s. record {
            heads_same = s.heads_same;
            sectors_same = s.sectors_same;
            cylinders_same = s.cylinders_same;
            total_same = s.total_same;
          } in
        let stale : DriveInfo = record (get_or t.slots 0 blank) { drive = drive } in
        inr (record {
          info = (fill bios stale).1;
          count = if t.count == max_drives then t.count - 1 else t.count;
          same = fill-drive bios stale;
          cut = refl;
          result = elim (Bool-cases (fill bios stale).0) [
            | inl done ↦
                inl
                  (rw (missing, get_drive_parameters) (rw done refl), fill-Answers bios stale done)
            | inr failed ↦ inr (
              rw (missing, get_drive_parameters) (rw failed refl),
              as_stale (fill-Stale bios stale failed),
            )
          ];
        })
  ]

-- What `GetDriveParameters` returns, with a count of at most 16, is an entry for the drive that was asked for: one
-- that was in the table already, or one with the geometry that the BIOS answers, by INT 13h/48h or 13h/08h. It
-- now stands in the first slot, the count stays in the array, and asking again returns the same and changes nothing.
pub get_drive_parameters_again :
    (bios : Bios) (drive : ℕ) (t t' : DriveTable) (d : DriveInfo)
    → t.count ≤ max_drives
    → get_drive_parameters bios drive t ≡ (some d, t')
    → (d.drive ≡ drive)
      × (((i : ℕ) × (i < t.count) × (get_or t.slots i blank ≡ d))
          ⊎ (EddAnswers bios d ⊎ ChsAnswers bios d))
      × (get_or t'.slots 0 blank ≡ d)
      × (t'.count ≤ max_drives)
      × (get_drive_parameters bios drive t' ≡ (some d, t'))
unfolding shift_in
get_drive_parameters_again bios drive t t' d fits e =
    elim (get_drive_parameters-cases bios drive t) [
      | inl hit ↦
          let same : d ≡ get_or t.slots hit.slot blank = cc (e, hit.result) in
          let table : t' ≡ record t { slots = shift_in hit.slot d t.slots } = cc (e, hit.result) in
          let name : d.drive ≡ drive = cc (same, hit.same) in
          (
            name,
            inl (hit.slot, hit.in_use, sym same),
            rw table refl,
            omega (arith, ap (λ (u : DriveTable). u.count) table),
            rw (← name) (
                again-Front bios d t' (
                  _,
                  ap (λ (u : DriveTable). u.slots) table,
                  omega (arith, hit.in_use, ap (λ (u : DriveTable). u.count) table),
                )),
          )
      | inr miss ↦ elim miss.result [
        | inr (failed, left) ↦ absurd (cc (e, failed))
        | inl (filled, answers) ↦
            let same : d ≡ miss.info = cc (e, filled) in
            let table : t'
                ≡ record { count = miss.count + 1; slots = shift_in miss.count d t.slots } =
              cc (e, filled) in
            let name : d.drive ≡ drive = cc (same, miss.same) in
            (
              name,
              inr (rw same answers),
              rw table refl,
              ground (arith, miss.cut, ap (λ (u : DriveTable). u.count) table),
              rw (← name) (
                  again-Front bios d t' (
                    _,
                    ap (λ (u : DriveTable). u.slots) table,
                    omega (arith, ap (λ (u : DriveTable). u.count) table),
                  )),
            )
      ]
    ]
