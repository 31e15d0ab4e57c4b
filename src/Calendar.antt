-- ===== src/Calendar.antt =====
-- Go's `time` package as the program uses it. Every date of the program is a midnight in UTC
-- (`time.Parse` of a bare date, a DATE column, or `UTC().Truncate(24 * time.Hour)`), so a
-- `time.Time` is the number of days since January 1 of year 1, the zero value of the type.
-- `Before`, `After` and `Equal` compare those numbers, and `Add(24 * time.Hour)` is the next one.
-- The fields of a date are functions of the package, hence parameters of the development.
pub mod Gregorian
use lineleader.Base.{ℕ, String, Option}
use lineleader.Base.Int.{ℤ}

abbrev pub Time : Type 0
Time = ℕ

pub record Calendar : Type 0 where
  pub year : Time → ℤ
  pub month : Time → ℕ
  -- Sunday is 0 and Saturday is 6.
  pub weekday : Time → ℕ
  -- `time.Parse("2006-01-02", s)`; `none` is its error.
  pub parse_day : String → Option Time
