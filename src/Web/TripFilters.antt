-- ===== src/Web/TripFilters.antt =====
-- internal/web/handlers.go: the handlers of a trip's own filters, from the id of the trip on. They
-- give back the trip that the fragment shows.
pub mod Stored
pub mod Modes
use lineleader.Base.{ℕ, Bool, List, [], ◌∷◌, String, str_eq, if◌then◌else◌}
use lineleader.Dvc.Types.{Config, FilterSet, as_filter_set}
use lineleader.Dvc.Filters.{clone_filter_set}
use lineleader.Ledger.Types.{Trip}
use lineleader.Ledger.Store.Rows.{
  Db, Result, Action, pure, raise, ◌>>=◌, ◌>>◌, Error, status_bad_request, status_conflict,
}
use lineleader.Ledger.Store.Queries.{get_trip, update_trip}
use lineleader.Web.Filters.{toggle_string}

-- The end of each handler: the row is updated and shown.
abbrev pub persist : Trip → Action Trip
persist t = update_trip t >> pure t

-- The trips that `setTripFilterMode` writes.
unfoldable pub overriding : Config → Trip → Trip
overriding global t = record t {
  filter_mode = "override";
  exclude_resorts = (clone_filter_set (as_filter_set global)).exclude_resorts;
  exclude_room_types = (clone_filter_set (as_filter_set global)).exclude_room_types;
}

unfoldable pub inheriting : Trip → Trip
inheriting t = record t { filter_mode = ""; exclude_resorts = []; exclude_room_types = [] }

-- `setTripFilterMode`
unfoldable pub set_trip_filter_mode : Config → ℕ → String → Action Trip
set_trip_filter_mode global id mode = do
  t ← get_trip id
  if str_eq mode "override"
      then persist (overriding global t)
      else (if str_eq mode "inherit" then persist (inheriting t) else raise status_bad_request)

-- `toggleTripFilter`
unfoldable pub toggle_trip_filter : ℕ → (Trip → Trip) → Action Trip
toggle_trip_filter id mutate = do
  t ← get_trip id
  if str_eq t.filter_mode "override" then persist (mutate t) else raise status_conflict

-- `toggleTripResortFilter`
unfoldable pub toggle_trip_resort_filter : ℕ → String → Action Trip
toggle_trip_resort_filter id code =
    toggle_trip_filter id λ t. record t { exclude_resorts = toggle_string t.exclude_resorts code }

-- `toggleTripRoomTypeFilter`
unfoldable pub toggle_trip_room_type_filter : ℕ → String → Action Trip
toggle_trip_room_type_filter id name =
    toggle_trip_filter id
      λ t. record t { exclude_room_types = toggle_string t.exclude_room_types name }

-- `resetTripFilters`
unfoldable pub reset_trip_filters : ℕ → Action Trip
reset_trip_filters id = do t ← get_trip id; persist (inheriting t)
