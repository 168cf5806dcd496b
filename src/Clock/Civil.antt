-- ===== src/Clock/Civil.antt =====
-- `time` counts the days of the Gregorian calendar.
use osldr.Base.{
  ℕ, zero, suc, ◌+◌, ◌-◌, ◌*◌, ◌/◌, ◌%◌, ◌≤◌, ◌<◌, ◌≡◌, ◌≢◌, inl, inr, refl, ap, Bool, true, false,
  ◌&&◌, some, List, [], ◌∷◌, Bool-cases, ltb, ◌==◌, if◌then◌else◌, arith, ℕ_discrete, length,
  get_elem?, get_or, take,
}
use mathlib.Core.Path.{ap₂}
use osldr.Base.{all_below, all_below-elim, ==_iff}
use osldr.Base.Int.{pos, ◌+ℤ◌, ◌-ℤ◌, ◌*ℤ◌, sub_ℕ}
use osldr.Clock.{days, is_leap, day_number, time_of}

-- Days from 1 January 1600 to 1 January of the year `1600 + y`, one year after the other.
pub year_days : ℕ → ℕ
year_days zero = 0
year_days (suc y) = year_days y + (if is_leap y then 366 else 365)

-- The lengths of the months.
abbrev month_lengths : Bool → List ℕ
month_lengths leap =
    31 ∷ (if leap then 29 else 28) ∷ 31 ∷ 30 ∷ 31 ∷ 30 ∷ 31 ∷ 31 ∷ 30 ∷ 31 ∷ 30 ∷ 31 ∷ []

abbrev total : List ℕ → ℕ
total [] = 0
total (x ∷ xs) = x + total xs

-- Days from the first of January to the first of a month (counted from 0).
abbrev pub month_days : Bool → ℕ → ℕ
month_days leap mon = total (take mon (month_lengths leap))

eq_false : (a b : ℕ) → a ≢ b → (a == b) ≡ false
eq_false a b h = ground arith

-- The number of multiples of `k` grows at a multiple of `k`.
div_step4 : (y : ℕ) → suc y / 4 ≡ y / 4 + (if suc y % 4 == 0 then 1 else 0)
div_step4 y = ground arith

div_step100 : (y : ℕ) → suc y / 100 ≡ y / 100 + (if suc y % 100 == 0 then 1 else 0)
div_step100 y = ground arith

div_step400 : (y : ℕ) → suc y / 400 ≡ y / 400 + (if suc y % 400 == 0 then 1 else 0)
div_step400 y = ground arith

-- The leap years up to the year `y`, and one more.
leap_count : ℕ → ℕ
leap_count y = y / 4 - y / 100 + y / 400

leap_count-suc : (y : ℕ) → leap_count (suc y) ≡ leap_count y + (if is_leap (suc y) then 1 else 0)
unfolding leap_count is_leap
leap_count-suc y =
    let le : y / 100 ≤ y / 4 = omega arith in
    let multiple100 : suc y % 400 ≡ 0 → suc y % 100 ≡ 0 = omega arith in
    let multiple4 : suc y % 100 ≡ 0 → suc y % 4 ≡ 0 = omega arith in
    rw (div_step4 y, div_step100 y, div_step400 y)
      (elim (ℕ_discrete (suc y % 4) 0) [
        | yes p ↦ elim (ℕ_discrete (suc y % 100) 0) [
          | yes q ↦ elim (ℕ_discrete (suc y % 400) 0) [
            | yes r ↦ rw (p, q, r) (omega arith)
            | no r ↦ rw (p, q, eq_false _ _ r) (omega arith)
          ]
          | no q ↦ rw (p, eq_false _ _ q, eq_false _ _ (λ r. q (multiple100 r))) (omega arith)
        ]
        | no p ↦
            rw
              (
                eq_false _ _ p,
                eq_false _ _ (λ q. p (multiple4 q)),
                eq_false _ _ (λ r. p (multiple4 (multiple100 r))),
              )
              (omega arith)
      ])

year_days-closed : (y : ℕ) → year_days (suc y) ≡ suc y * 365 + (leap_count y + 1)
unfolding year_days
year_days-closed zero = unfold is_leap leap_count in refl
year_days-closed (suc y) = ground (arith, year_days-closed y, leap_count-suc y)

-- The days between 1600 and 1970.
year_days_1970 : year_days 370 ≡ 135140
unfolding year_days is_leap
year_days_1970 = refl

month_offset : Bool → ℕ → ℕ
month_offset leap mon = get_or days mon 0 + (if ltb 1 mon && leap then 1 else 0)

month_tables :
    (all_below 12 (λ mon. month_days true mon == month_offset true mon) ≡ true)
    × (all_below 12 (λ mon. month_days false mon == month_offset false mon) ≡ true)
unfolding all_below month_offset
month_tables = (refl, refl)

month_days-offset : (leap : Bool) (mon : ℕ) → mon < 12 → month_days leap mon ≡ month_offset leap mon
month_days-offset true mon h = (==_iff _ _).0 (all_below-elim 12 _ mon month_tables.0 h)
month_days-offset false mon h = (==_iff _ _).0 (all_below-elim 12 _ mon month_tables.1 h)

get_elem?-get_or : (xs : List ℕ) (i : ℕ) → i < length xs → get_elem? xs i ≡ some (get_or xs i 0)
get_elem?-get_or [] i h = absurd (omega arith)
get_elem?-get_or (x ∷ xs) zero h = refl
get_elem?-get_or (x ∷ xs) (suc i) h = get_elem?-get_or xs i (omega arith)

-- The three operations of `time` on a difference of numbers.
sub_ℕ-add : (a b h : ℕ) → sub_ℕ a b +ℤ pos h ≡ sub_ℕ (a + h) b
unfolding ◌+ℤ◌
sub_ℕ-add a b h = ground arith

pos-sub : (a c : ℕ) → pos a -ℤ pos c ≡ sub_ℕ a c
unfolding ◌-ℤ◌
pos-sub a c = ground arith

pos-add : (a c : ℕ) → pos a +ℤ pos c ≡ pos (a + c)
unfolding ◌+ℤ◌
pos-add a c = ground arith

scale24 : (a b : ℕ) → sub_ℕ a b *ℤ pos 24 ≡ sub_ℕ (a * 24) (b * 24)
unfolding ◌*ℤ◌
scale24 a b = ground arith

scale60 : (a b : ℕ) → sub_ℕ a b *ℤ pos 60 ≡ sub_ℕ (a * 60) (b * 60)
unfolding ◌*ℤ◌
scale60 a b = ground arith

-- The day number as a difference of two numbers of days since 1600.
day_number-civil :
    (y mon mday : ℕ)
    → mon < 12
    → day_number (suc y) mon (get_or days mon 0) (pos mday)
      ≡ sub_ℕ (year_days (suc y) + month_days (is_leap (suc y)) mon + mday) (year_days 370)
unfolding day_number leap_count month_offset
day_number-civil y mon mday h =
    let offset : month_days (is_leap (suc y)) mon ≡ month_offset (is_leap (suc y)) mon =
      month_days-offset (is_leap (suc y)) mon h in
    let years : suc y - 1 ≡ y = omega arith in
    rw (day_number, years, pos-add, pos-sub, sub_ℕ-add, year_days_1970, year_days-closed y, offset)
      (elim (Bool-cases (ltb 1 mon && is_leap (suc y))) [
        | inl past ↦ rw (past, sub_ℕ-add, sub_ℕ-add) (ap (λ n. sub_ℕ n 135140) (omega arith))
        | inr no_day ↦ rw (no_day, sub_ℕ-add) (ap (λ n. sub_ℕ n 135140) (omega arith))
      ])

-- Seconds from days, as differences.
seconds_of :
    (a b h m s : ℕ)
    → ((sub_ℕ a b *ℤ pos 24 +ℤ pos h) *ℤ pos 60 +ℤ pos m) *ℤ pos 60 +ℤ pos s
      ≡ sub_ℕ (a * 86400 + h * 3600 + m * 60 + s) (b * 86400)
seconds_of a b h m s =
    rw (scale24, sub_ℕ-add, scale60, sub_ℕ-add, scale60, sub_ℕ-add)
      (ap₂ sub_ℕ (omega arith) (omega arith))

-- For a date from 1601 on with a month that exists, `time` returns the seconds between the beginning of
-- 1970 and that moment in the Gregorian calendar: the days of all years since 1600 and of the
-- months before this one, less those from 1600 to 1970.
pub time_of-civil :
    (y mon mday hour minute second : ℕ)
    → mon < 12
    → time_of (record {
      tm_year = 1601 + y;
      tm_mon = pos mon;
      tm_mday = pos mday;
      tm_hour = hour;
      tm_min = minute;
      tm_sec = second;
    })
      ≡ some (
          sub_ℕ
            ((year_days (suc y) + month_days (is_leap (suc y)) mon + mday) * 86400
              + hour * 3600
              + minute * 60
              + second)
            (year_days 370 * 86400))
unfolding time_of
time_of-civil y mon mday hour minute second h =
    let found = get_elem?-get_or days mon h in
    let year : 1601 + y - 1600 ≡ suc y = omega arith in
    let late : ltb (1601 + y) 1601 ≡ false = ground arith in
    rw (late, found, year, day_number-civil y mon mday h, seconds_of)
