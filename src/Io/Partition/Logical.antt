-- ===== src/Io/Partition/Logical.antt =====
-- No logical partition is opened by `OpenDevice`.
use osldr.Base.{
  ℕ, zero, suc, ◌+◌, ◌-◌, ◌≤◌, ◌<◌, ◌⊎◌, ◌≡◌, inl, inr, refl, sym, ap, ◌∙◌, true, false, Option,
  none, some, List, [], ◌∷◌, Bool-cases, Option-cases, leb, ◌==◌, if◌then◌else◌, arith, length,
  Bytes,
}
use osldr.Io.Errno.{enopart, eio}
use osldr.Io.Partition.{
  Partition, entry, is_extended, is_unused, scan_table, Choice, refused, hangs, traverse, table,
  after_scan, after_mbr, choose_partition,
}

-- The entries that are extended.
abbrev pub extended : List Partition → List Partition
extended [] = []
extended (p ∷ ps) = if is_extended p then p ∷ extended ps else extended ps

-- What the scan leaves for a number from 4 on: the extended partition if it is the only one.
abbrev only : Option Partition → List Partition → Option (Option Partition)
only part [] = some part
only none (p ∷ []) = some (some p)
only none (p ∷ q ∷ ps) = none
only (some q) (p ∷ ps) = none

one_extended :
    (l : List Partition)
    → ((p : Partition) × (l ≡ p ∷ []))
      ⊎ ((¬ ((p : Partition) × (l ≡ p ∷ []))) × ((only none l ≡ none) ⊎ (only none l ≡ some none)))
one_extended [] = inr (λ (p, e). cc e, inr refl)
one_extended (p ∷ []) = inl (p, refl)
one_extended (p ∷ q ∷ l) = inr (λ (p', e). cc e, inl refl)

unused_plain : (p : Partition) → is_unused p ≡ true → is_extended p ≡ false
unused_plain p u = ground arith

only_grow : (p : Partition) (ps : List Partition) → only none (p ∷ ps) ≡ only (some p) ps
only_grow p [] = refl
only_grow p (q ∷ ps) = refl

-- One step of the scan for a number from 4 on.
scan_step :
    (part1 i : ℕ) (p : Partition) (ps : List Partition) (part : Option Partition)
    → 4 ≤ part1
    → i < 4
    → scan_table part1 i (p ∷ ps) part ≡ (
        if is_extended p
        then (elim part [ some _ ↦ none | none ↦ scan_table part1 (i + 1) ps (some p) ])
        else scan_table part1 (i + 1) ps part)
unfolding scan_table
scan_step part1 i p ps part big small =
    let other : (part1 == i) ≡ false = ground arith in
    let many : leb 4 part1 ≡ true = ground arith in
    elim (Bool-cases (is_unused p)) [
      | inl u ↦ rw (u, unused_plain p u) refl
      | inr u ↦ elim (Bool-cases (is_extended p)) [
        | inl x ↦ rw (u, x, other, many) refl
        | inr x ↦ rw (u, x, other) refl
      ]
    ]

scan_extended :
    (part1 i : ℕ) (ps : List Partition) (part : Option Partition)
    → 4 ≤ part1
    → i + length ps ≤ 4
    → scan_table part1 i ps part ≡ only part (extended ps)
scan_extended part1 i [] part big room = unfold scan_table in refl
scan_extended part1 i (p ∷ ps) none big room =
    let skip = scan_extended part1 (i + 1) ps none big (omega arith) in
    let chain = scan_extended part1 (i + 1) ps (some p) big (omega arith) in
    elim (Bool-cases (is_extended p)) [
      | inl x ↦
          scan_step part1 i p ps none big (omega arith)
          ∙ rw x (chain ∙ sym (only_grow p (extended ps)))
      | inr x ↦ scan_step part1 i p ps none big (omega arith) ∙ rw x skip
    ]
scan_extended part1 i (p ∷ ps) (some q) big room =
    let skip = scan_extended part1 (i + 1) ps (some q) big (omega arith) in
    elim (Bool-cases (is_extended p)) [
      | inl x ↦ scan_step part1 i p ps (some q) big (omega arith) ∙ rw x refl
      | inr x ↦ scan_step part1 i p ps (some q) big (omega arith) ∙ rw x skip
    ]

-- The number `left` of the chain of extended partitions that starts at `part`: each link is a table
-- whose first entry is not extended and whose second is the next link.
pub data Chain (disk : ℕ → Option Bytes) : ℕ → Partition → Type 0 where
  here :
      {part : Partition} (mbr : Bytes)
      → disk part.start ≡ some mbr
      → is_extended (entry mbr 0) ≡ false
      → Chain disk 0 part
  link :
      {left : ℕ} {part : Partition} (mbr : Bytes)
      → disk part.start ≡ some mbr
      → is_extended (entry mbr 0) ≡ false
      → is_extended (entry mbr 1) ≡ true
      → Chain disk left (entry mbr 1)
      → Chain disk (suc left) part

extended_used : (p : Partition) → is_extended p ≡ true → is_unused p ≡ false
extended_used p x = ground arith

-- The code hangs if `P` holds, and else returns an error.
pub record Refuses (P : Type 0) (c : Choice) : Type 0 where
  pub why : ℕ
  pub is_refused : c ≡ refused why
  pub not_there : ¬ P

Chain-head :
    (disk : ℕ → Option Bytes) (left : ℕ) (part : Partition)
    → Chain disk left part
    → (mbr : Bytes) × (disk part.start ≡ some mbr) × (is_extended (entry mbr 0) ≡ false)
Chain-head disk zero part (here mbr e x) = (mbr, e, x)
Chain-head disk (suc left) part (link mbr e x y k) = (mbr, e, x)

-- What a chain cannot start with.
dead :
    (disk : ℕ → Option Bytes) (left : ℕ) (part : Partition) (mbr : Bytes)
    → (disk part.start ≡ none) ⊎ ((disk part.start ≡ some mbr) × (is_extended (entry mbr 0) ≡ true))
    → ¬ Chain disk left part
dead disk left part mbr (inl e) k = let (mbr', e', x') = Chain-head disk left part k in cc (e, e')
dead disk left part mbr (inr (e, x)) k =
    let (mbr', e', x') = Chain-head disk left part k in
    let same : some mbr ≡ some mbr' = cc (e, e') in
    let same' : mbr ≡ mbr' = cc same in cc (x, x', same')

unlinked :
    (disk : ℕ → Option Bytes) (left : ℕ) (part : Partition) (mbr : Bytes)
    → disk part.start ≡ some mbr
    → Chain disk (suc left) part
    → (is_extended (entry mbr 1) ≡ true) × Chain disk left (entry mbr 1)
unlinked disk left part mbr e (link mbr' e' x y k) =
    let same : mbr' ≡ mbr = cc (e, e') in (rw same at y, rw same at k)

no_link :
    (disk : ℕ → Option Bytes) (left : ℕ) (part : Partition) (mbr : Bytes)
    → disk part.start ≡ some mbr
    → is_extended (entry mbr 0) ≡ false
    → is_extended (entry mbr 1) ≡ false
    → traverse disk (suc left) part ≡ refused enopart
unfolding traverse
no_link disk left part mbr e x y = elim (Bool-cases (is_unused (entry mbr 1))) [
  | inl u ↦ rw (traverse, e, x, u) refl
  | inr u ↦ rw (traverse, e, x, u, y) refl
]

traverse-Chain :
    (disk : ℕ → Option Bytes) (left : ℕ) (part : Partition)
    → (Chain disk left part × (traverse disk left part ≡ hangs))
      ⊎ Refuses (Chain disk left part) (traverse disk left part)
unfolding traverse
traverse-Chain disk zero part = elim (Option-cases (disk part.start)) [
  | inl e ↦ inr (record {
    why = eio;
    is_refused = rw (traverse, e) refl;
    not_there = dead disk 0 part [] (inl e);
  })
  | inr (mbr, e) ↦ elim (Bool-cases (is_extended (entry mbr 0))) [
    | inl x ↦ inr (record {
      why = enopart;
      is_refused = rw (traverse, e, x) refl;
      not_there = dead disk 0 part mbr (inr (e, x));
    })
    | inr x ↦ inl (here mbr e x, rw (traverse, e, x) refl)
  ]
]
traverse-Chain disk (suc left) part = elim (Option-cases (disk part.start)) [
  | inl e ↦ inr (record {
    why = eio;
    is_refused = rw (traverse, e) refl;
    not_there = dead disk (suc left) part [] (inl e);
  })
  | inr (mbr, e) ↦ elim (Bool-cases (is_extended (entry mbr 0))) [
    | inl x ↦ inr (record {
      why = enopart;
      is_refused = rw (traverse, e, x) refl;
      not_there = dead disk (suc left) part mbr (inr (e, x));
    })
    | inr x ↦ elim (Bool-cases (is_extended (entry mbr 1))) [
      | inl y ↦
          let used = extended_used (entry mbr 1) y in
          elim (traverse-Chain disk left (entry mbr 1)) [
            | inl (k, h) ↦ inl (link mbr e x y k, rw (traverse, e, x, used, y) h)
            | inr r ↦ inr (record {
              why = r.why;
              is_refused = rw (traverse, e, x, used, y) r.is_refused;
              not_there = λ k. r.not_there (unlinked disk left part mbr e k).1;
            })
          ]
      | inr y ↦ inr (record {
        why = enopart;
        is_refused = no_link disk left part mbr e x y;
        not_there = λ k. cc (y, (unlinked disk left part mbr e k).0);
      })
    ]
  ]
]

refused_scan :
    (disk : ℕ → Option Bytes) (part1 : ℕ) (mbr : Bytes)
    → scan_table part1 0 (table mbr) none ≡ only none (extended (table mbr))
    → (only none (extended (table mbr)) ≡ none) ⊎ (only none (extended (table mbr)) ≡ some none)
    → disk 0 ≡ some mbr
    → choose_partition disk part1 ≡ refused enopart
unfolding choose_partition after_mbr after_scan
refused_scan disk part1 mbr scan (inl n) e = rw (e, scan ∙ n) refl
refused_scan disk part1 mbr scan (inr n) e = rw (e, scan ∙ n) refl

-- The MBR can be read, one of its entries is extended, and the logical partition stands in the chain.
pub record IsLogical (disk : ℕ → Option Bytes) (part1 : ℕ) : Type 0 where
  pub mbr : Bytes
  pub part : Partition
  pub read : disk 0 ≡ some mbr
  pub one : extended (table mbr) ≡ part ∷ []
  pub chain : Chain disk (part1 - 4) part

the_part :
    (disk : ℕ → Option Bytes) (part1 : ℕ) (mbr : Bytes)
    → disk 0 ≡ some mbr
    → (l : IsLogical disk part1) → extended (table mbr) ≡ l.part ∷ []
the_part disk part1 mbr e l = let same : mbr ≡ l.mbr = cc (e, l.read) in rw same l.one

-- A logical partition (a number from 4 on) that the disk has is never opened: if the MBR has exactly one
-- extended entry and the chain of tables from it reaches the partition, the code stays in
-- `while (part != NULL);` for ever; and if there is no such partition, the code returns an error.
pub choose_partition-IsLogical :
    (disk : ℕ → Option Bytes) (part1 : ℕ)
    → 4 ≤ part1
    → IsLogical disk part1 × (choose_partition disk part1 ≡ hangs)
      ⊎ Refuses (IsLogical disk part1) (choose_partition disk part1)
unfolding choose_partition after_mbr after_scan
choose_partition-IsLogical disk part1 big =
    let many : leb 4 part1 ≡ true = ground arith in
    elim (Option-cases (disk 0)) [
      | inl e ↦ inr (record { why = eio; is_refused = rw e refl; not_there = λ l. cc (e, l.read) })
      | inr (mbr, e) ↦
          let scan = scan_extended part1 0 (table mbr) none big (omega arith) in
          elim (one_extended (extended (table mbr))) [
            | inl (part, one) ↦
                let found = scan ∙ ap (only none) one in
                elim (traverse-Chain disk (part1 - 4) part) [
                  | inl (k, h) ↦ inl (
                    record { mbr = mbr; part = part; read = e; one = one; chain = k },
                    rw (e, found, many) h,
                  )
                  | inr r ↦ inr (record {
                    why = r.why;
                    is_refused = rw (e, found, many) r.is_refused;
                    not_there = λ l.
                        let this : part ≡ l.part = cc (one, the_part disk part1 mbr e l) in
                        r.not_there (rw this l.chain);
                  })
                ]
            | inr not_one ↦ inr (record {
              why = enopart;
              is_refused = refused_scan disk part1 mbr scan not_one.1 e;
              not_there = λ l. not_one.0 (l.part, the_part disk part1 mbr e l);
            })
          ]
    ]
