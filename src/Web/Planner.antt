-- ===== src/Web/Planner.antt =====
-- internal/web/render.go and handlers.go: the status, the budget and the search of a trip.
pub mod Laws
use lineleader.Base.{
  Bool, true, false, not, ◌&&◌, ◌||◌, Option, none, some, List, [], ◌∷◌, String, foldl,
  if◌then◌else◌, any,
}
use lineleader.Base.Int.{ℤ, ◌-ℤ◌}
use lineleader.Calendar.{Calendar}
use lineleader.Dvc.Types.{Config, FilterSet, ResortChart}
use lineleader.Dvc.Search.{Found, search}
use lineleader.Dvc.Filters.{effective_filters}
use lineleader.Ledger.Types.{Trip, TripStay, booked}
use lineleader.Ledger.Budget.{TripBudget}

-- `stayBookingStatus`
unfoldable pub stay_booking_status : List TripStay → Bool × Bool
stay_booking_status stays =
    foldl (λ (r : Bool × Bool) (st : TripStay). if booked st then (true, r.1) else (r.0, true))
      (false, false) stays

-- `deriveTripStatus`
unfoldable pub derive_trip_status : Bool → Bool → Bool × Bool
derive_trip_status any_booked any_unbooked =
    if any_booked && not any_unbooked
    then (true, false)
    else (if any_booked && any_unbooked then (false, true) else (false, false))

-- The status of `buildTripRowView`.
unfoldable pub trip_status : List TripStay → String
trip_status stays =
    let any = stay_booking_status stays in
    let status = derive_trip_status any.0 any.1 in
    if status.0 then "booked" else (if status.1 then "partly booked" else "planning")

-- `effectiveBudget`
unfoldable pub effective_budget : Trip → TripBudget → ℤ
effective_budget t b = elim t.budget_override [ none ↦ b.total | some o ↦ o ]

-- `searchBudgetFor`
unfoldable pub search_budget_for : Trip → TripBudget → List TripStay → ℤ
search_budget_for t b stays =
    foldl (λ budget (st : TripStay). if not (booked st) then budget -ℤ st.points else budget)
      (effective_budget t b) stays

-- `tripFilterSet`
unfoldable pub trip_filter_set : Trip → FilterSet
trip_filter_set t = record {
  exclude_resorts = t.exclude_resorts;
  exclude_room_types = t.exclude_room_types;
}

-- `searchTrip`
unfoldable pub search_trip : Calendar → Config → List ResortChart → Trip → ℤ → Found
search_trip cal global charts t budget =
    let filters = effective_filters global t.filter_mode (trip_filter_set t) in
    search cal charts (record {
      window_start = t.start_date;
      window_end = t.end_date;
      budget = budget;
      min_nights = t.min_nights;
      exclude_resorts = filters.exclude_resorts;
      exclude_room_types = filters.exclude_room_types;
    })
