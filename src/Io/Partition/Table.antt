-- ===== src/Io/Partition/Table.antt =====
-- Which partitions `OpenDevice` finds.
use osldr.Base.{
  ℕ, zero, suc, ◌+◌, ◌<◌, ◌≡◌, ◌≢◌, inl, inr, refl, ap, ◌∙◌, true, false, ◌||◌, Option, none, some,
  List, [], ◌∷◌, Bool-cases, leb, ◌==◌, if◌then◌else◌, arith, get_elem?, Bytes,
}
use osldr.Io.Errno.{enopart}
use osldr.Io.Partition.{
  Partition, is_extended, is_unused, scan_table, Choice, placed, refused, table, after_scan,
  after_mbr, choose_partition,
}

-- The table's answer for the primary partition `part1`.
abbrev pub primary : Option Partition → Choice
primary none = refused enopart
primary (some p) = if is_unused p || is_extended p then refused enopart else placed p

abbrev verdict : Option (Option Partition) → Choice
verdict none = refused enopart
verdict (some none) = refused enopart
verdict (some (some p)) = placed p

-- Past the wanted entry, the scan keeps what it has.
scan_past :
    (part1 i : ℕ) (ps : List Partition) (part : Option Partition)
    → part1 < 4
    → part1 < i
    → scan_table part1 i ps part ≡ some part
unfolding scan_table
scan_past part1 i [] part small past = refl
scan_past part1 i (p ∷ ps) part small past =
    let other : (part1 == i) ≡ false = ground arith in
    let few : leb 4 part1 ≡ false = ground arith in
    ground (arith, scan_past part1 (i + 1) ps part small (omega arith))

-- What the scan does with one entry that is not, or is, the wanted one.
one_past :
    (part1 i : ℕ) (p : Partition) (ps : List Partition)
    → part1 < 4
    → part1 ≢ i
    → scan_table part1 i (p ∷ ps) none ≡ scan_table part1 (i + 1) ps none
unfolding scan_table
one_past part1 i p ps small ne =
    let other : (part1 == i) ≡ false = ground arith in
    let few : leb 4 part1 ≡ false = ground arith in ground arith

one_here :
    (i : ℕ) (p : Partition) (ps : List Partition)
    → i < 4
    → verdict (scan_table i i (p ∷ ps) none) ≡ primary (some p)
unfolding scan_table
one_here i p ps small =
    let this : (i == i) ≡ true = ground arith in
    let few : leb 4 i ≡ false = ground arith in
    let on = scan_past i (i + 1) ps none small (omega arith) in
    let found = scan_past i (i + 1) ps (some p) small (omega arith) in
    elim (Bool-cases (is_unused p)) [
      | inl u ↦ rw (u, on) refl
      | inr u ↦ elim (Bool-cases (is_extended p)) [
        | inl x ↦ rw (u, x, this) refl
        | inr x ↦ rw (u, x, this, found) refl
      ]
    ]

scan_primary :
    (k i : ℕ) (ps : List Partition)
    → i + k < 4
    → verdict (scan_table (i + k) i ps none) ≡ primary (get_elem? ps k)
scan_primary k i [] small = unfold scan_table in refl
scan_primary zero i (p ∷ ps) small =
    let at : i + 0 ≡ i = omega arith in rw at (one_here i p ps (omega arith))
scan_primary (suc k) i (p ∷ ps) small =
    let at : i + suc k ≡ i + 1 + k = omega arith in
    let next_one : verdict (scan_table (i + suc k) (i + 1) ps none) ≡ primary (get_elem? ps k) =
      rw at (scan_primary k (i + 1) ps (omega arith)) in
    ap verdict (one_past (i + suc k) i p ps small (omega arith)) ∙ next_one

after_scan-verdict :
    (disk : ℕ → Option Bytes) (part1 : ℕ) (o : Option (Option Partition))
    → part1 < 4
    → after_scan disk part1 o ≡ verdict o
unfolding after_scan
after_scan-verdict disk part1 none small = refl
after_scan-verdict disk part1 (some none) small = refl
after_scan-verdict disk part1 (some (some p)) small =
    let few : leb 4 part1 ≡ false = ground arith in rw few refl

-- Of a disk whose MBR can be read, the primary partition (0 to 3) that is chosen is the table's entry of
-- that number, unless that is unused or extended, which is refused with ENOPART, whatever the other
-- entries are.
pub choose_partition-primary :
    (disk : ℕ → Option Bytes) (part1 : ℕ) (mbr : Bytes)
    → part1 < 4
    → disk 0 ≡ some mbr
    → choose_partition disk part1 ≡ primary (get_elem? (table mbr) part1)
unfolding choose_partition after_mbr
choose_partition-primary disk part1 mbr small e =
    let at : 0 + part1 ≡ part1 = omega arith in
    let base = scan_primary part1 0 (table mbr) (omega arith) in
    rw e (after_scan-verdict disk part1 (scan_table part1 0 (table mbr) none) small ∙ rw at at base)
