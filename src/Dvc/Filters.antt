-- ===== src/Dvc/Filters.antt =====
-- internal/dvc/filters.go: which filters a trip searches with, and when two stays are the same.
pub mod Options
use lineleader.Base.{String, Bool, ◌&&◌, ◌==◌, str_eq, if◌then◌else◌}
use lineleader.Dvc.Types.{Config, FilterSet, StayResult, as_filter_set}
use lineleader.Base.Int.{eqb_ℤ}

-- `EffectiveFilters`; `FilterModeOverride` is "override".
unfoldable pub effective_filters : Config → String → FilterSet → FilterSet
effective_filters global mode f = if str_eq mode "override" then f else as_filter_set global

-- `stayEquals`
unfoldable pub stay_equals : StayResult → StayResult → Bool
stay_equals a b =
    str_eq a.resort b.resort
    && str_eq a.room_type b.room_type
    && str_eq a.view b.view
    && (a.check_in == b.check_in)
    && (a.check_out == b.check_out)
    && eqb_ℤ a.points b.points

-- `CloneFilterSet`: the lists of the model are values, so a copy is the set itself.
abbrev pub clone_filter_set : FilterSet → FilterSet
clone_filter_set f = record {
  exclude_resorts = f.exclude_resorts;
  exclude_room_types = f.exclude_room_types;
}
