-- ===== src/Time/Calendar.antt =====
-- The calendar day of a time, and its clock.
use api_free_demo.Base.{ℕ, zero, suc, ◌+◌, ◌-◌, ◌*◌, ◌/◌, ◌%◌, leb, if◌then◌else◌}
use api_free_demo.Time.{second, days_before_month, days_before_year}

abbrev pub day : ℕ
day = 86400 * second

-- The year of a day within a cycle of 400 years: one of two neighbours
unfoldable pub year_in_cycle : ℕ → ℕ
unfolding days_before_year
year_in_cycle r = if leb (days_before_year (r / 366 + 1)) r then r / 366 + 1 else r / 366

-- `Year`, of the day with the given number
unfoldable pub year_of : ℕ → ℕ
unfolding year_in_cycle
year_of d = d / 146097 * 400 + year_in_cycle (d % 146097)

-- The latest month, up to the given one, that begins on or before a day of the year
unfoldable pub month_from : ℕ → ℕ → ℕ → ℕ
unfolding days_before_month
month_from zero y n = 1
month_from (suc m) y n =
    let earlier = month_from m y n in if leb (days_before_month (suc m) y) n then suc m else earlier

-- `Date`: year, month and day of the day with the given number
unfoldable pub civil : ℕ → ℕ × ℕ × ℕ
unfolding year_of month_from days_before_month days_before_year
civil d =
    let y = year_of d in
    let n = d - days_before_year y in
    let m = month_from 12 y n in (y, m, n - days_before_month m y + 1)
