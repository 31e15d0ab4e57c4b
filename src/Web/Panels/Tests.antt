-- ===== src/Web/Panels/Tests.antt =====
-- The pages and the panels on the data of the sample.
use Prim.Native.Char.{char}
use Prim.Native.String.{String}
use lineleader.Base.{ℕ, zero, suc, ◌+◌, ◌≡◌, refl, ap, some, inl, inr, List, [], ◌∷◌, any, arith}
use lineleader.Base.Int.{ℤ, pos, ◌+ℤ◌, ◌-ℤ◌}
use lineleader.Base.Sort.{insert_sorted, sort_slice}
use lineleader.Base.Text.{codes, parse_int, parse_magnitude, scan}
use lineleader.Calendar.{Time}
use lineleader.Dvc.Filters.{effective_filters, stay_equals}
use lineleader.Dvc.Filters.Options.{filter_options_for}
use lineleader.Dvc.Filters.Options.Panel.{IsPanel, filter_options_for-IsPanel}
use lineleader.Dvc.Search.{
  check_ins, extend_stay, in_periods, in_seasons, is_weekend, points_for_night, rate_at, search,
  search_charts, search_columns, stay_before,
}
use lineleader.Dvc.Types.{StayResult, as_filter_set, contains}
use lineleader.Ledger.Budget.{trip_budget}
use lineleader.Ledger.Store.Rows.{to_int32}
use lineleader.Ledger.Store.Queries.{get_trip, update_trip}
use lineleader.Ledger.Store.Stays.{add_stay, list_stays}
use lineleader.Ledger.Types.{TripStay}
use lineleader.Web.LedgerForms.{if_parsed, path_id}
use lineleader.Web.Pages.Sample.{chart, desk, friday, kept_stay, process, stored_trip}
use lineleader.Web.Planner.{effective_budget, search_budget_for, search_trip}
use lineleader.Web.TripFilters.{inheriting, reset_trip_filters}
use lineleader.Web.Trips.Handlers.{
  TripView, build_trip_page_view, collect_stay, fetch_basis, page_funding, page_results,
  render_trip_fragment, saved, stay_from,
}
use lineleader.Web.TripViews.{ResultRow, is_collected, result_row_view, rows_from, build_trip_view}
use lineleader.Web.LedgerViews.{first_elements}
use lineleader.Web.TripViews.Collecting.{collect_stay-shown, page_of}
use lineleader.Web.TripViews.Selection.{IsPlain, NoBar, is_collected-stay_equals, result_of}
use lineleader.Web.Panels.{
  filter_method, filter_saved, filter_serve, render_trip_filter_toggle, reset_filters, toggled_page,
  trip_filter_step, trip_panel, trip_toggled,
}
use lineleader.Web.Panels.Agreement.{Agrees, filter_serve-Agrees}

filter_options_for-IsPanel_example :
    IsPanel
      (chart ∷ chart ∷ [])
      (record { exclude_resorts = "HM" ∷ []; exclude_room_types = [] })
      (filter_options_for
        (chart ∷ chart ∷ [])
        (record { exclude_resorts = "HM" ∷ []; exclude_room_types = [] }))
filter_options_for-IsPanel_example =
    filter_options_for-IsPanel (chart ∷ chart ∷ [])
      (record { exclude_resorts = "HM" ∷ []; exclude_room_types = [] })

-- Days as texts of as many marks.
marks : Time → String
marks zero = ""
marks (suc n) = String.◌∷◌ (char 48 tt) (marks n)

marks-NoBar : (n : Time) → NoBar (codes (marks n))
unfolding marks
marks-NoBar zero = tt
marks-NoBar (suc n) = (refl, marks-NoBar n)

tail_of : String → String
tail_of String.[] = ""
tail_of (String.◌∷◌ c s) = s

is_mark : String → ℕ
is_mark String.[] = 0
is_mark (String.◌∷◌ c s) = 1

marks_injective : (m n : Time) → marks m ≡ marks n → m ≡ n
unfolding marks is_mark tail_of
marks_injective zero zero h = refl
marks_injective zero (suc n) h = absurd (omega (arith, ap is_mark h))
marks_injective (suc m) zero h = absurd (omega (arith, ap is_mark h))
marks_injective (suc m) (suc n) h = ap suc (marks_injective m n (ap tail_of h))

abbrev first_days : ℤ → ℕ → Time
first_days year month = month

abbrev early_stay : TripStay
early_stay = record kept_stay { check_in = 3; check_out = 4 }

early-IsPlain : IsPlain (result_of early_stay)
early-IsPlain = (
  (refl, (refl, (refl, (refl, tt)))),
  (refl, (refl, (refl, (refl, (refl, (refl, tt)))))),
  (refl, tt),
  omega arith,
)

is_collected-stay_equals_example :
    is_collected marks (early_stay ∷ []) (result_of early_stay)
    ≡ any (λ (st : TripStay). stay_equals (result_of st) (result_of early_stay)) (early_stay ∷ [])
is_collected-stay_equals_example =
    is_collected-stay_equals marks (early_stay ∷ []) (result_of early_stay) marks-NoBar
      marks_injective early-IsPlain (early-IsPlain, tt)

abbrev found : ℕ → ℕ → ℕ → ℕ → StayResult
found from to nights points = record {
  resort = "Home";
  room_type = "STUDIO";
  view = "R";
  check_in = from;
  check_out = to;
  nights = nights;
  points = pos points;
}

abbrev both_nights : StayResult
both_nights = found friday (friday + 2) 2 28

abbrev results : List StayResult
results = found friday (friday + 1) 1 14 ∷ found (friday + 1) (friday + 2) 1 14 ∷ both_nights ∷ []

results_found : page_results process desk.tables stored_trip ≡ some results
unfolding page_results search_trip search search_charts search_columns check_ins extend_stay
    points_for_night in_periods in_seasons rate_at is_weekend contains effective_filters
    as_filter_set search_budget_for effective_budget list_stays sort_slice insert_sorted stay_before
    ◌+ℤ◌ ◌-ℤ◌
results_found = refl

abbrev view : TripView
view = record {
  trip = stored_trip;
  stays = list_stays 1 desk.tables;
  budget = trip_budget process.cal friday desk.tables;
  results = results;
  funding = page_funding process desk.tables (list_stays 1 desk.tables);
  pricing = (fetch_basis process desk).0.0;
  show_costs = (fetch_basis process desk).0.1;
}

view_built : (build_trip_page_view process stored_trip desk).0 ≡ some view
unfolding build_trip_page_view
view_built = rw (results_found, build_trip_page_view) refl

abbrev last_row : ResultRow
last_row =
    result_row_view process.cal marks first_days view.stays view.pricing view.show_costs 2
      both_nights

read_two : (path_id "1" ≡ some 1) × (parse_int (codes "2") ≡ some (pos 2))
unfolding path_id parse_int parse_magnitude scan
read_two = (refl, refl)

collect_stay-shown_example :
    collect_stay process "1" "2" desk
    ≡ saved desk
        (add_stay (stay_from 1 both_nights) desk.tables)
        λ m d'. render_trip_fragment process 1 d'
unfolding get_trip page_of build_trip_view rows_from first_elements result_row_view
collect_stay-shown_example =
    collect_stay-shown process marks first_days "1" "2" 1 stored_trip desk desk.tables view last_row
      read_two.0 refl view_built (inr (inr (inl refl))) read_two.1

-- The trip of the sample has no filters of its own, so a reset shows the page as it was.
reset_shown :
    (filter_serve process marks first_days "1" reset_filters desk).0
    ≡ trip_toggled
        (trip_panel process marks first_days stored_trip)
        (page_of process marks first_days view)
unfolding filter_serve trip_filter_step if_parsed path_id parse_int parse_magnitude scan
    filter_method reset_trip_filters filter_saved get_trip update_trip inheriting
    render_trip_filter_toggle toggled_page build_trip_page_view to_int32 trip_panel page_of
reset_shown = rw (results_found, build_trip_page_view, toggled_page) refl

filter_serve-Agrees_example :
    Agrees process
      (trip_panel process marks first_days stored_trip)
      (page_of process marks first_days view)
      (filter_serve process marks first_days "1" reset_filters desk).1.tables
filter_serve-Agrees_example =
    filter_serve-Agrees process marks first_days "1" reset_filters desk
      (trip_panel process marks first_days stored_trip) (page_of process marks first_days view)
      reset_shown
