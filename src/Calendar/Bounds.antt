-- ===== src/Calendar/Bounds.antt =====
-- The ranges of the calendar's fields.
use async_job_processing_pip.Prelude.{ℕ, ◌≤◌, ◌<◌, ◌≡◌, arith}
use async_job_processing_pip.Calendar.{
  Instant, minute_of, hour_of, days_of, weekday_of, day_of_year, day_of_era, month_number,
  day_number, year_day, month_of, day_of,
}

day_of_year_le : (e : ℕ) → e < 146097 → day_of_year e ≤ 365
unfolding day_of_year
day_of_year_le e h = omega arith

year_day_le : (t : Instant) → year_day t ≤ 365
unfolding year_day
year_day_le t = day_of_year_le (day_of_era (days_of t)) (omega arith)

numbers_in_range :
    (d : ℕ)
    → d ≤ 365
    → (1 ≤ day_number d) × (day_number d ≤ 31) × (1 ≤ month_number d) × (month_number d ≤ 12)
unfolding day_number month_number
numbers_in_range d h = (omega arith, omega arith, ground arith, ground arith)

-- The fields of every instant lie in the ranges that cron expressions range over.
pub fields_in_range :
    (t : Instant)
    → (minute_of t ≤ 59)
      × (hour_of t ≤ 23)
      × (1 ≤ day_of t)
      × (day_of t ≤ 31)
      × (1 ≤ month_of t)
      × (month_of t ≤ 12)
      × (weekday_of t ≤ 6)
unfolding minute_of hour_of day_of month_of weekday_of
fields_in_range t =
    let (a, b, c, d) = numbers_in_range (year_day t) (year_day_le t) in
    (omega arith, omega arith, a, b, c, d, omega arith)

february_numbers : (d : ℕ) → d ≤ 365 → month_number d ≡ 2 → day_number d ≤ 29
unfolding day_number month_number
february_numbers d h m = ground arith

-- February has at most 29 days.
pub february_days : (t : Instant) → month_of t ≡ 2 → day_of t ≤ 29
unfolding day_of month_of
february_days t m = february_numbers (year_day t) (year_day_le t) m
