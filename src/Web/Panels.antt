-- ===== src/Web/Panels.antt =====
-- internal/web/handlers.go and render.go: the filter panels and the trip list. `format_day` and
-- `first_of` are those of the trip pages.
pub mod Agreement
mod Tests
use lineleader.Base.{
  ℕ, Bool, true, false, not, ◌&&◌, Option, none, some, List, [], ◌∷◌, ◌++◌, String, str_eq, map,
  if◌then◌else◌,
}
use lineleader.Base.Int.{ℤ}
use lineleader.Base.Text.{Text, codes}
use lineleader.Calendar.{Time}
use lineleader.Dvc.Filters.{effective_filters}
use lineleader.Dvc.Filters.Options.{FilterOptionsView, filter_options_for}
use lineleader.Dvc.Types.{Config, FilterSet, as_filter_set}
use lineleader.Ledger.Cost.{CostBasis}
use lineleader.Ledger.Store.Queries.{get_trip, list_trips}
use lineleader.Ledger.Store.Rows.{
  Action, Db, Error, Result, err, ok, status_bad_request, status_conflict, trip_not_found,
}
use lineleader.Ledger.Store.Stays.{list_stays}
use lineleader.Ledger.Types.{Trip}
use lineleader.Web.Filters.{toggle_resort, toggle_room_type}
use lineleader.Web.LedgerForms.{Desk, if_parsed, path_id}
use lineleader.Web.Planner.{trip_filter_set}
use lineleader.Web.TripFilters.{
  reset_trip_filters, set_trip_filter_mode, toggle_trip_resort_filter, toggle_trip_room_type_filter,
}
use lineleader.Web.Trips.Handlers.{Process, TripView, build_trip_page_view, fetch_basis}
use lineleader.Web.TripViews.{TripPageView, TripRowView, build_trip_row_view}
use lineleader.Web.TripViews.Collecting.{page_of}

-- `filterScope`; the scope of the global panel is its zero value.
pub data FilterScope : Type 0 where
  global_scope : FilterScope
  trip_scope : ℕ → String → String → FilterScope

-- `tripFilterScope`
unfoldable pub trip_filter_scope : Trip → FilterScope
trip_filter_scope t = trip_scope t.id t.name t.filter_mode

-- `modeLabel` of the templates.
unfoldable pub mode_label : String → String
mode_label mode = if str_eq mode "override" then "override" else "inherit"

-- `filterTitle` of the templates; the dash is U+2014.
unfoldable pub filter_title : FilterScope → Text
filter_title global_scope = codes "Filters " ++ (8212 ∷ codes " Global")
filter_title (trip_scope id name mode) =
    codes "Filters "
    ++ (8212 ∷ 32 ∷ (codes name ++ (codes " (" ++ (codes (mode_label mode) ++ codes ")"))))

-- `filtersView`, with the rows of the options as they are.
pub record FiltersView : Type 0 where
  pub scope : FilterScope
  pub options : FilterOptionsView

-- `toFiltersView`
unfoldable pub to_filters_view : FilterOptionsView → FilterScope → FiltersView
to_filters_view opts scope = record { scope = scope; options = opts }

-- What the panels reply. A status is 400, 404, 409 or 500.
pub data PanelReply : Type 0 where
  status : ℕ → PanelReply
  search_panics empty_panel : PanelReply
  panel : FiltersView → PanelReply
  global_toggled : FiltersView → List TripRowView → PanelReply
  trip_toggled : FiltersView → TripPageView → PanelReply

-- The status of an error of the store or of a handler's own test.
unfoldable pub panel_status : Error → ℕ
panel_status trip_not_found = 404
panel_status status_bad_request = 400
panel_status status_conflict = 409
panel_status e = 500

-- The requests on the filters of a trip.
pub data FilterRequest : Type 0 where
  put_mode : String → FilterRequest
  toggle_resort_of toggle_room_type_of : String → FilterRequest
  reset_filters : FilterRequest

module _ (s : Process) (format_day : Time → String) (first_of : ℤ → ℕ → Time) where
  -- `buildTripListView`
  unfoldable pub build_trip_list_view : List Trip → Desk → List TripRowView × Desk
  build_trip_list_view trips d =
      let priced = fetch_basis s d in
      (
        map
            (λ (t : Trip).
              build_trip_row_view s.cal format_day first_of t (list_stays t.id d.tables)
                priced.0.0.use_year_month priced.0.0 priced.0.1)
            trips,
        priced.1,
      )

  -- `openFilters`
  unfoldable pub open_filters : PanelReply
  open_filters =
      panel (to_filters_view (filter_options_for s.charts (as_filter_set s.global)) global_scope)

  -- The filters that a trip searches with, and the panel that shows them.
  unfoldable pub trip_panel : Trip → FiltersView
  trip_panel t =
      to_filters_view
        (filter_options_for s.charts (effective_filters s.global t.filter_mode (trip_filter_set t)))
        (trip_filter_scope t)

  unfoldable pub panel_of : Result (Trip × Db) → PanelReply
  panel_of (ok (t, db)) = panel (trip_panel t)
  panel_of (err e) = status (panel_status e)

  -- `openTripFilters`
  unfoldable pub open_trip_filters : String → Desk → PanelReply
  open_trip_filters path d =
      if_parsed (path_id path) (status 400) λ id. panel_of (get_trip id d.tables)

  -- `renderTripFilterToggle`
  unfoldable pub toggled_page : FiltersView → Option TripView × Desk → PanelReply × Desk
  toggled_page v (none, d) = (search_panics, d)
  toggled_page v (some view, d) = (trip_toggled v (page_of s format_day first_of view), d)

  unfoldable pub render_trip_filter_toggle : Trip → Desk → PanelReply × Desk
  render_trip_filter_toggle t d = toggled_page (trip_panel t) (build_trip_page_view s t d)

  -- A handler of a trip's filters: what its method leaves is shown, an error is its status.
  unfoldable pub filter_saved : Desk → Result (Trip × Db) → PanelReply × Desk
  filter_saved d (err e) = (status (panel_status e), d)
  filter_saved d (ok (t, db)) = render_trip_filter_toggle t (record d { tables = db })

  unfoldable pub trip_filter_step : String → (ℕ → Action Trip) → Desk → PanelReply × Desk
  trip_filter_step path method d =
      if_parsed (path_id path) (status 400, d) λ id. filter_saved d (method id d.tables)

  unfoldable pub filter_method : FilterRequest → ℕ → Action Trip
  filter_method (put_mode mode) id = set_trip_filter_mode s.global id mode
  filter_method (toggle_resort_of code) id = toggle_trip_resort_filter id code
  filter_method (toggle_room_type_of name) id = toggle_trip_room_type_filter id name
  filter_method reset_filters id = reset_trip_filters id

  unfoldable pub filter_serve : String → FilterRequest → Desk → PanelReply × Desk
  filter_serve path r d = trip_filter_step path (filter_method r) d

-- `renderFilterToggle`
unfoldable pub render_filter_toggle :
    Process → (Time → String) → (ℤ → ℕ → Time) → Desk → PanelReply × Desk
render_filter_toggle s format_day first_of d =
    let rows = build_trip_list_view s format_day first_of (list_trips d.tables) d in
    (
      global_toggled
          (to_filters_view (filter_options_for s.charts (as_filter_set s.global)) global_scope)
          rows.0,
      rows.1,
    )

-- The end of a global toggle: the config in memory is changed whether it could be saved or not, and
-- the panel is shown where it was.
unfoldable pub toggled_global :
    Process → (Time → String) → (ℤ → ℕ → Time) → Bool → Config → Desk → PanelReply × Desk × Config
toggled_global s format_day first_of is_saved cfg d =
    let shown = render_filter_toggle (record s { global = cfg }) format_day first_of d in
    if is_saved then (shown.0, shown.1, cfg) else (status 500, d, cfg)

-- `toggleResortFilter`
unfoldable pub toggle_resort_filter :
    Process → (Time → String) → (ℤ → ℕ → Time) → Bool → String → Desk → PanelReply × Desk × Config
toggle_resort_filter s format_day first_of is_saved code d =
    toggled_global s format_day first_of is_saved (toggle_resort s.global code) d

-- `toggleRoomTypeFilter`
unfoldable pub toggle_room_type_filter :
    Process → (Time → String) → (ℤ → ℕ → Time) → Bool → String → Desk → PanelReply × Desk × Config
toggle_room_type_filter s format_day first_of is_saved name d =
    toggled_global s format_day first_of is_saved (toggle_room_type s.global name) d

-- `closePanel`
unfoldable pub close_panel : PanelReply
close_panel = empty_panel
