-- ===== src/Calendar.antt =====
-- What the program uses of Python's `datetime`, in UTC: an instant is the number of microseconds since
-- 1970-01-01T00:00Z, and an aware value is its instant. The calendar is the proleptic Gregorian one,
-- counted in eras of 400 years from 0000-03-01.
pub mod Bounds
use async_job_processing_pip.Prelude.{ℕ, ◌+◌, ◌-◌, ◌*◌, ◌/◌, ◌%◌, ◌≡◌, refl, ltb, if◌then◌else◌}

abbrev pub Instant : Type 0
Instant = ℕ

-- A naive value is the wall clock's microseconds since 1970-01-01T00:00, an aware one its instant.
pub data Datetime : Type 0 where
  naive : ℕ → Datetime
  aware : Instant → Datetime

abbrev pub micros_per_second : ℕ
micros_per_second = 1_000_000

abbrev pub micros_per_minute : ℕ
micros_per_minute = 60_000_000

unfoldable pub minute_of : Instant → ℕ
minute_of t = t / 60_000_000 % 60

unfoldable pub hour_of : Instant → ℕ
hour_of t = t / 3_600_000_000 % 24

unfoldable pub days_of : Instant → ℕ
days_of t = t / 86_400_000_000

-- 1970-01-01 is a Thursday, and Monday is 0.
unfoldable pub weekday_of : Instant → ℕ
unfolding days_of
weekday_of t = (days_of t + 3) % 7

-- The day of the year that begins on March 1, from the day of the era.
unfoldable pub year_of_era : ℕ → ℕ
year_of_era e = (e - e / 1460 + e / 36524 - e / 146096) / 365

unfoldable pub day_of_year : ℕ → ℕ
unfolding year_of_era
day_of_year e = let y = year_of_era e in e - (365 * y + y / 4 - y / 100)

unfoldable pub day_of_era : ℕ → ℕ
day_of_era days = (days + 719468) % 146097

-- Months counted from March.
unfoldable pub month_index : ℕ → ℕ
month_index d = (5 * d + 2) / 153

-- January is 1.
unfoldable pub month_number : ℕ → ℕ
unfolding month_index
month_number d = let m = month_index d in if ltb m 10 then m + 3 else m - 9

unfoldable pub day_number : ℕ → ℕ
unfolding month_index
day_number d = d - (153 * month_index d + 2) / 5 + 1

unfoldable pub year_day : Instant → ℕ
unfolding day_of_era days_of day_of_year
year_day t = day_of_year (day_of_era (days_of t))

unfoldable pub month_of : Instant → ℕ
month_of t = month_number (year_day t)

unfoldable pub day_of : Instant → ℕ
day_of t = day_number (year_day t)

on : Instant → ℕ × ℕ × ℕ × ℕ × ℕ
on t = (month_of t, day_of t, weekday_of t, hour_of t, minute_of t)

-- 29 February and 1 March 2024, 29 February 2000, the last second of 2024.
leap_day : on 1_709_164_800_000_000 ≡ (2, 29, 3, 0, 0)
unfolding on month_of day_of month_number day_number year_day weekday_of hour_of minute_of
leap_day = refl

after_leap_day : on 1_709_251_200_000_000 ≡ (3, 1, 4, 0, 0)
unfolding on month_of day_of month_number day_number year_day weekday_of hour_of minute_of
after_leap_day = refl

leap_day_2000 : on 951_782_400_000_000 ≡ (2, 29, 1, 0, 0)
unfolding on month_of day_of month_number day_number year_day weekday_of hour_of minute_of
leap_day_2000 = refl

new_years_eve : on 1_735_689_599_000_000 ≡ (12, 31, 1, 23, 59)
unfolding on month_of day_of month_number day_number year_day weekday_of hour_of minute_of
new_years_eve = refl
