-- ===== src/Dvc/Search.antt =====
-- internal/dvc/search.go: `PointsForNight` and `Search`.
pub mod Nights
pub mod Rounds
pub mod Laws
use lineleader.Base.{
  ℕ, zero, suc, ◌+◌, ◌-◌, Bool, true, false, not, ◌&&◌, ◌||◌, Option, none, some, List, [], ◌∷◌,
  ◌++◌, String, str_eq, any, ltb, leb, ◌==◌, if◌then◌else◌,
}
use lineleader.Base.Int.{ℤ, pos, ◌+ℤ◌, ltb_ℤ, leb_ℤ, eqb_ℤ}
use lineleader.Base.Sort.{sort_slice}
use lineleader.Calendar.{Time, Calendar}
use lineleader.Dvc.Types.{
  Column, DateRange, Season, ResortChart, SearchParams, StayResult, contains,
}

-- `MaxNights`
abbrev pub max_nights : ℕ
max_nights = 30

-- The cost of a night: `gap` is the error that no season covers the date or a bound of a season
-- does not parse, and `panic` an index past the end of a season's rates.
pub data Night : Type 0 where
  cost : ℤ → Night
  gap : Night
  panic : Night

unfoldable pub rate_at : List ℤ → ℕ → Night
rate_at [] i = panic
rate_at (p ∷ ps) zero = cost p
rate_at (p ∷ ps) (suc i) = rate_at ps i

-- `isWeekend`: Friday is 5 and Saturday 6.
unfoldable pub is_weekend : Calendar → Time → Bool
is_weekend cal d = cal.weekday d == 5 || cal.weekday d == 6

module _ (cal : Calendar) (date : Time) (col_idx : ℕ) where
  -- The inner loop of `PointsForNight`: `none` goes on to the next season.
  unfoldable pub in_periods : Season → List DateRange → Option Night
  in_periods s [] = none
  in_periods s (period ∷ periods) =
      let rest = in_periods s periods in
      elim (contains cal period date) [
        | none ↦ some gap
        | some ok ↦
            if ok
            then some (rate_at (if is_weekend cal date then s.fri_sat else s.sun_thu) col_idx)
            else rest
      ]

  unfoldable pub in_seasons : List Season → Night
  in_seasons [] = gap
  in_seasons (s ∷ seasons) = elim (in_periods s s.periods) [
    | none ↦ in_seasons seasons
    | some night ↦ night
  ]

-- `PointsForNight`
unfoldable pub points_for_night : Calendar → ResortChart → Time → ℕ → Night
unfolding in_seasons
points_for_night cal chart date col_idx = in_seasons cal date col_idx chart.seasons

-- `none` is a panic, which ends the whole search.
abbrev pub Found : Type 0
Found = Option (List StayResult)

abbrev pub join : Found → Found → Found
join none ys = none
join (some xs) none = none
join (some xs) (some ys) = some (xs ++ ys)

abbrev pub prepend : Bool → StayResult → Found → Found
prepend b r none = none
prepend b r (some rs) = if b then some (r ∷ rs) else some rs

-- The rates and labels of one column of one chart, and the limits of a search.
pub record Query : Type 0 where
  pub night : Time → Night
  pub resort : String
  pub room_type : String
  pub view : String
  pub window_end : Time
  pub budget : ℤ
  pub min_nights : ℤ

module _ (q : Query) (check_in : Time) where
  abbrev pub stay_of : ℕ → ℤ → StayResult
  stay_of nights total = record {
    resort = q.resort;
    room_type = q.room_type;
    view = q.view;
    check_in = check_in;
    check_out = check_in + nights;
    nights = nights;
    points = total;
  }

  -- The loop over `checkOut`, after `n` nights for `total` points. It stops by its own test at
  -- `max_nights`, so that many rounds are enough.
  unfoldable pub extend_stay : ℕ → ℕ → ℤ → Found
  extend_stay zero n total = some []
  extend_stay (suc rounds) n total =
      if ltb q.window_end (check_in + suc n) then some [] else elim (q.night (check_in + n)) [
        | panic ↦ none
        | gap ↦ some []
        | cost p ↦
            let rest = extend_stay rounds (suc n) (total +ℤ p) in
            if ltb_ℤ q.budget (total +ℤ p)
            then some []
            else prepend (leb_ℤ q.min_nights (pos (suc n))) (stay_of (suc n) (total +ℤ p))
                (if leb max_nights (suc n) then some [] else rest)
      ]

-- The loop over `checkIn`, with the days left to the end of the window.
unfoldable pub check_ins : Query → ℕ → Time → Found
check_ins q zero check_in = some []
check_ins q (suc days) check_in =
    join (extend_stay q check_in max_nights 0 (pos 0)) (check_ins q days (suc check_in))

-- `slices.Contains`
abbrev pub contains_string : List String → String → Bool
contains_string xs s = any (λ x. str_eq x s) xs

module _ (cal : Calendar) (params : SearchParams) where
  abbrev pub query : ResortChart → ℕ → Column → Query
  query chart col_idx col = record {
    night = λ d. points_for_night cal chart d col_idx;
    resort = chart.resort_name;
    room_type = col.room_type;
    view = col.view;
    window_end = params.window_end;
    budget = params.budget;
    min_nights = if ltb_ℤ params.min_nights (pos 1) then pos 1 else params.min_nights;
  }

  unfoldable pub search_columns : ResortChart → ℕ → List Column → Found
  unfolding check_ins
  search_columns chart i [] = some []
  search_columns chart i (col ∷ cols) =
      join
        (if contains_string params.exclude_room_types col.room_type
          then some []
          else check_ins (query chart i col) (params.window_end - params.window_start)
              params.window_start)
        (search_columns chart (suc i) cols)

  unfoldable pub search_charts : List ResortChart → Found
  search_charts [] = some []
  search_charts (chart ∷ charts) =
      join
        (if contains_string params.exclude_resorts chart.resort_code
          then some []
          else search_columns chart 0 chart.columns)
        (search_charts charts)

unfoldable pub stay_before : StayResult → StayResult → Bool
stay_before a b =
    if eqb_ℤ a.points b.points then ltb a.check_in b.check_in else ltb_ℤ a.points b.points

-- `Search`
unfoldable pub search : Calendar → List ResortChart → SearchParams → Found
search cal charts params = elim (search_charts cal params charts) [
  | none ↦ none
  | some results ↦ some (sort_slice stay_before results)
]
