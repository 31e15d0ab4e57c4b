-- ===== src/Dvc/Types.antt =====
-- internal/dvc/types.go, and `Config` of config.go.
use lineleader.Base.{ℕ, Bool, not, ◌&&◌, Option, none, some, List, String, ltb}
use lineleader.Base.Int.{ℤ}
use lineleader.Calendar.{Time, Calendar}

pub record Column : Type 0 where
  pub room_type : String
  pub view : String
  pub sleeps : ℤ

pub record DateRange : Type 0 where
  pub start : String
  pub end : String

pub record Season : Type 0 where
  pub periods : List DateRange
  pub sun_thu : List ℤ
  pub fri_sat : List ℤ

pub record ResortChart : Type 0 where
  pub resort_name : String
  pub resort_code : String
  pub year : ℤ
  pub columns : List Column
  pub seasons : List Season

pub record SearchParams : Type 0 where
  pub window_start : Time
  pub window_end : Time
  pub budget : ℤ
  pub min_nights : ℤ
  pub exclude_resorts : List String
  pub exclude_room_types : List String

pub record FilterSet : Type 0 where
  pub exclude_resorts : List String
  pub exclude_room_types : List String

-- The fields of `Config` are those of `FilterSet`.
pub record Config : Type 0 where
  pub exclude_resorts : List String
  pub exclude_room_types : List String

-- `AsFilterSet`
unfoldable pub as_filter_set : Config → FilterSet
as_filter_set c = record {
  exclude_resorts = c.exclude_resorts;
  exclude_room_types = c.exclude_room_types;
}

pub record StayResult : Type 0 where
  pub resort : String
  pub room_type : String
  pub view : String
  pub check_in : Time
  pub check_out : Time
  pub nights : ℕ
  pub points : ℤ

-- `DateRange.Contains`: `none` is the error of a bound that does not parse.
unfoldable pub contains : Calendar → DateRange → Time → Option Bool
contains cal dr d = elim (cal.parse_day dr.start) [
  | none ↦ none
  | some start ↦ elim (cal.parse_day dr.end) [
    | none ↦ none
    | some end ↦ some (not (ltb d start) && not (ltb end d))
  ]
]
