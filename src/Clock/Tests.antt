-- ===== src/Clock/Tests.antt =====
-- Runs of `time` and an instance of its theorem.
use osldr.Base.{◌+◌, ◌*◌, ◌≡◌, refl, some, arith}
use osldr.Base.Int.{pos, ◌+ℤ◌, ◌-ℤ◌, ◌*ℤ◌, sub_ℕ}
use osldr.Clock.{Tm, is_leap, day_number, time_of}
use osldr.Clock.Civil.{year_days, month_days, time_of-civil}

-- 29 February 2004, 23:59:58.
abbrev leap_day : Tm
leap_day = record {
  tm_year = 2004;
  tm_mon = pos 1;
  tm_mday = pos 28;
  tm_hour = 23;
  tm_min = 59;
  tm_sec = 58;
}

leap_day_run : time_of leap_day ≡ some (pos 1078099198)
unfolding time_of day_number is_leap ◌+ℤ◌ ◌*ℤ◌ ◌-ℤ◌
leap_day_run = refl

time_of-civil_example :
    time_of leap_day
    ≡ some (
        sub_ℕ
          ((year_days 404 + month_days (is_leap 404) 1 + 28) * 86400 + 23 * 3600 + 59 * 60 + 58)
          (year_days 370 * 86400))
time_of-civil_example = time_of-civil 403 1 28 23 59 58 (omega arith)
