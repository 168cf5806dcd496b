-- ===== src/Clock.antt =====
-- `time` of src/time.c: seconds since 1 January 1970 from two readings of the real-time clock. The
-- readings by INT 1Ah are no code of the program, and are arguments.
pub mod Civil
mod Tests
use osldr.Base.{
  ℕ, zero, suc, ◌+◌, ◌-◌, ◌*◌, ◌/◌, ◌%◌, ◌≤◌, ◌<◌, ◌^◌, min, max, ◌⊎◌, ◌↔◌, ◌≡◌, ◌≢◌, inl, inr,
  refl, sym, ap, ◌∙◌, Bool, true, false, not, ◌&&◌, ◌||◌, Option, none, some, List, [], ◌∷◌, ◌++◌,
  map, Bool-cases, Option-cases, leb, ltb, ◌==◌, if◌then◌else◌, add32, sub32, mul32, add64, sub64,
  mul64, arith, dec_le, dec_lt, ℕ_discrete, length, get_elem?, get_or, set, take, drop, replicate,
  Bytes, bit_and, bit_or, bit_xor,
}
use osldr.Base.Int.{ℤ, pos, negsuc, ◌+ℤ◌, ◌-ℤ◌, ◌*ℤ◌}

-- The registers of INT 1Ah/04h and of INT 1Ah/02h, in BCD.
pub record Reading : Type 0 where
  pub century : ℕ
  pub year : ℕ
  pub month : ℕ
  pub day : ℕ
  pub hour : ℕ
  pub minute : ℕ
  pub second : ℕ

-- The fields of `struct tm` that are used; `tm_mon` and `tm_mday` are -1 for a BCD of 0.
pub record Tm : Type 0 where
  pub tm_year : ℕ
  pub tm_mon : ℤ
  pub tm_mday : ℤ
  pub tm_hour : ℕ
  pub tm_min : ℕ
  pub tm_sec : ℕ

pub bcd : ℕ → ℕ
bcd b = b / 16 * 10 + b % 16

pub to_tm : Reading → Tm
to_tm r = record {
  tm_year = bcd r.year + bcd r.century * 100;
  tm_mon = pos (bcd r.month) -ℤ pos 1;
  tm_mday = pos (bcd r.day) -ℤ pos 1;
  tm_hour = bcd r.hour;
  tm_min = bcd r.minute;
  tm_sec = bcd r.second;
}

abbrev pub same_int : ℤ → ℤ → Bool
same_int (pos a) (pos b) = a == b
same_int (negsuc a) (negsuc b) = a == b
same_int _ _ = false

-- The second reading is taken if the date differs.
pub settle : Tm → Tm → Tm
settle t1 t2 =
    if not (t1.tm_year == t2.tm_year)
      || not (same_int t1.tm_mon t2.tm_mon)
      || not (same_int t1.tm_mday t2.tm_mday)
    then t2
    else t1

abbrev pub days : List ℕ
days = 0 ∷ 31 ∷ 59 ∷ 90 ∷ 120 ∷ 151 ∷ 181 ∷ 212 ∷ 243 ∷ 273 ∷ 304 ∷ 334 ∷ []

pub is_leap : ℕ → Bool
is_leap year = year % 4 == 0 && (not (year % 100 == 0) || year % 400 == 0)

-- Days since 1 January 1970, of the years since 1600 and the month from 0.
pub day_number : ℕ → ℕ → ℕ → ℤ → ℤ
day_number year mon offset mday =
    let t = pos (year * 365) in
    let t = t +ℤ pos ((year - 1) / 4 - (year - 1) / 100 + (year - 1) / 400 + 1) in
    let t = t -ℤ pos 135140 in
    let t = t +ℤ pos offset in
    let t = if ltb 1 mon && is_leap year then t +ℤ pos 1 else t in t +ℤ mday

-- The rest of `time` once the reading is settled. `none` is a read of `days` out of range.
pub time_of : Tm → Option ℤ
time_of t1 = if ltb t1.tm_year 1601 then some (negsuc 0) else elim t1.tm_mon [
  | negsuc _ ↦ none
  | pos mon ↦ elim (get_elem? days mon) [
    | none ↦ none
    | some offset ↦
        let t = day_number (t1.tm_year - 1600) mon offset t1.tm_mday in
        let t = t *ℤ pos 24 +ℤ pos t1.tm_hour in
        let t = t *ℤ pos 60 +ℤ pos t1.tm_min in some (t *ℤ pos 60 +ℤ pos t1.tm_sec)
  ]
]

-- `time`, without the store through `timer`.
pub time : Reading → Reading → Option ℤ
time r1 r2 = time_of (settle (to_tm r1) (to_tm r2))

-- `difftime`
pub difftime : ℤ → ℤ → ℤ
difftime time1 time0 = time1 -ℤ time0
