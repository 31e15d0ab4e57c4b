-- ===== src/Web/Pages/Tests.antt =====
-- The handlers of the trip pages on the data of the sample.
use lineleader.Base.{◌≡◌, ◌⊎◌, refl, true, false, some, List, [], ◌∷◌}
use lineleader.Base.Int.{pos}
use lineleader.Base.Int.{◌+ℤ◌, ◌-ℤ◌}
use lineleader.Base.Sort.{insert_sorted, sort_slice}
use lineleader.Base.Text.{
  parse_int, parse_magnitude, scan, trim_string, trim_string_left, trim_string_right,
}
use lineleader.Dvc.Filters.{effective_filters}
use lineleader.Dvc.Search.{
  check_ins, extend_stay, in_periods, in_seasons, is_weekend, points_for_night, rate_at, search,
  search_charts, search_columns, stay_before,
}
use lineleader.Ledger.Store.Queries.{delete_entries, get_trip}
use lineleader.Ledger.Store.Stays.{
  delete_trip_stay, add_stay, delete_stay, entry_ids_of, list_stays, with_links,
}
use lineleader.Web.Planner.{effective_budget, search_budget_for, search_trip}
use lineleader.Calendar.Gregorian.{gregorian}
use lineleader.Dvc.Types.{as_filter_set, contains}
use lineleader.Ledger.Store.Rows.{to_int32}
use lineleader.Ledger.Types.{booked}
use lineleader.Web.LedgerForms.{if_parsed, path_id, contracts, delete_contract_row}
use lineleader.Web.LedgerForms.Pricing.{IsPriced}
use lineleader.Web.Pages.Sample.{slashed, process, trip_form, summer, stored_trip, desk, full_desk}
use lineleader.Web.Pages.{PageRequest, page_run, page_run-IsPriced, to_ledger, to_trips}
use lineleader.Web.Trips.Created.{IsOf, create_trip_lem, new_row}
use lineleader.Web.Trips.Forms.{parse_trip_form, valid, parse_date, first_layout}
use lineleader.Web.Trips.Handlers.{
  add_found, build_trip_page_view, fetch_basis, fetched, forget_pricing, missing, remove_stay, nth,
  page_results, render_trip_fragment, render_view, result_row, saved, stay_from, with_trip,
  collect_stay, create_trip, to_trip,
}
use lineleader.Web.Trips.Handlers.Added.{IsAdded, collect_stay_sound}
use lineleader.Web.Trips.Handlers.Pricing.{delete_trip_page, post_stay, post_trip}

abbrev requests : List PageRequest
requests =
    to_trips process (post_trip (some trip_form))
    ∷ to_trips process (post_stay "1" "2")
    ∷ to_ledger gregorian (λ year month. 0) (pos 2026) true (delete_contract_row contracts "7")
    ∷ to_trips process (delete_trip_page "1" true)
    ∷ []

form_read : parse_trip_form slashed (some trip_form) ≡ valid summer
unfolding parse_trip_form trim_string trim_string_right trim_string_left parse_date first_layout
    parse_int parse_magnitude scan
form_read = refl

page_run-IsPriced_example : IsPriced (page_run requests desk)
page_run-IsPriced_example = page_run-IsPriced requests desk λ v. absurd (no_pricing v)
  where
    no_pricing : false ≡ true → ⊥
    no_pricing v = cc

collect_stay_sound_example :
    ((collect_stay process "1" "2" desk).1.tables ≡ desk.tables)
    ⊎ IsAdded process desk (collect_stay process "1" "2" desk).1.tables
collect_stay_sound_example = collect_stay_sound process "1" "2" desk

create_trip_lem_example :
    (create_trip process (some trip_form) desk ≡ (
      to_trip 2,
      record desk {
        tables = record desk.tables {
          trips = stored_trip ∷ new_row summer desk.tables ∷ [];
          next_trip = 3;
        };
      },
    ))
    × IsOf process.parse_layout (some trip_form) summer
create_trip_lem_example = create_trip_lem process (some trip_form) desk summer form_read

stay_added : (collect_stay process "1" "2" desk).1.tables.next_stay ≡ 2
unfolding collect_stay if_parsed path_id parse_int parse_magnitude scan with_trip fetched get_trip
    add_found page_results search_trip search search_charts search_columns check_ins extend_stay
    points_for_night in_periods in_seasons rate_at is_weekend contains effective_filters
    as_filter_set search_budget_for effective_budget list_stays sort_slice insert_sorted stay_before
    result_row nth saved add_stay ◌+ℤ◌ to_int32 stay_from ◌-ℤ◌ render_trip_fragment
    build_trip_page_view render_view fetch_basis booked with_links entry_ids_of
stay_added = refl

-- A stay is removed under the id of a trip that is not there, with the reply 404.
removed_elsewhere :
    ((remove_stay process "9" "5" full_desk).0 ≡ missing)
    × ((remove_stay process "9" "5" full_desk).1.tables.stays ≡ [])
unfolding remove_stay if_parsed path_id parse_int parse_magnitude scan saved delete_stay
    delete_entries delete_trip_stay render_trip_fragment with_trip fetched get_trip forget_pricing
removed_elsewhere = (refl, refl)
