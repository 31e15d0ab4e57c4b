-- ===== src/Dvc/Parser/Seasons.antt =====
-- internal/dvc/parser.go: `parseSeasons` and `pendingSeason`. The season that is read is a state of
-- its own beside the seasons that are done.
pub mod Blocks
pub mod RoundTrip
use lineleader.Base.{Bool, true, false, ◌&&◌, not, List, [], ◌∷◌, ◌++◌, String, map, if◌then◌else◌}
use lineleader.Base.Int.{ℤ}
use lineleader.Dvc.Parser.{holds, parse_ints_after_keyword}
use lineleader.Dvc.Types.{DateRange, Season}

-- `pendingSeason`
pub record PendingSeason : Type 0 where
  pub dates : List DateRange
  pub sun_thu : List ℤ
  pub fri_sat : List ℤ

abbrev pub is_some_of {ℓ} : {A : Type ℓ} → List A → Bool
is_some_of [] = false
is_some_of (x ∷ xs) = true

-- `complete`
unfoldable pub complete : PendingSeason → Bool
complete p = is_some_of p.sun_thu && is_some_of p.fri_sat && is_some_of p.dates

-- `toSeason`
unfoldable pub to_season : PendingSeason → Season
to_season p = record { periods = p.dates; sun_thu = p.sun_thu; fri_sat = p.fri_sat }

-- `reset`
abbrev pub reset : PendingSeason
reset = record { dates = []; sun_thu = []; fri_sat = [] }

-- What a line of the data section is to the loop, with the dates it holds.
pub data DataLine : Type 0 where
  sun_thu_line sun_sat_line fri_sat_line : List ℤ → List DateRange → DataLine
  weekly_line dates_line : List DateRange → DataLine

-- The tests of the loop, in their order. A line with nothing of use adds no dates.
unfoldable pub data_line : (String → List DateRange) → String → DataLine
data_line dates_of line =
    let dates = dates_of line in
    if holds line "SUN" && holds line "THU"
    then sun_thu_line (parse_ints_after_keyword line "THU") dates
    else if holds line "SUN" && holds line "SAT" && not (holds line "THU") && not (holds line "FRI")
    then sun_sat_line (parse_ints_after_keyword line "SAT") dates
    else if holds line "FRI" && holds line "SAT"
    then fri_sat_line (parse_ints_after_keyword line "SAT") dates
    else if holds line "WEEKLY"
    then weekly_line dates
    else dates_line dates

-- The variables of `parseSeasons`.
pub record Reading : Type 0 where
  pub seasons : List Season
  pub pending : PendingSeason

-- `flush`
unfoldable pub flush : Reading → Reading
flush r =
    let done = r.seasons ++ (to_season r.pending ∷ []) in
    record { seasons = if complete r.pending then done else r.seasons; pending = reset }

abbrev pub add_dates : List DateRange → Reading → Reading
add_dates dates r = record r { pending = record r.pending { dates = r.pending.dates ++ dates } }

-- The body of the loop.
unfoldable pub read_line : DataLine → Reading → Reading
read_line (sun_thu_line vals dates) r =
    let r' = flush r in
    add_dates dates (record r' { pending = record r'.pending { sun_thu = vals } })
read_line (sun_sat_line vals dates) r =
    let r' = flush r in
    add_dates dates (record r' { pending = record r'.pending { sun_thu = vals; fri_sat = vals } })
read_line (fri_sat_line vals dates) r =
    add_dates dates (record r { pending = record r.pending { fri_sat = vals } })
read_line (weekly_line dates) r = flush (add_dates dates r)
read_line (dates_line dates) r = add_dates dates r

unfoldable pub read_lines : List DataLine → Reading → Reading
read_lines [] r = r
read_lines (l ∷ ls) r = read_lines ls (read_line l r)

-- The lines of the data section in order, and what is pending at its end.
unfoldable pub seasons_of : List DataLine → List Season
seasons_of lines = (flush (read_lines lines (record { seasons = []; pending = reset }))).seasons

-- `parseSeasons`
unfoldable pub parse_seasons : (String → List DateRange) → List String → List Season
parse_seasons dates_of lines = seasons_of (map (data_line dates_of) lines)
