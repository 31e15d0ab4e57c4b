-- ===== src/Web/Panels/Agreement.antt =====
-- internal/web: the panel and the page that a filter request shows agree with the search.
use mathlib.Core.Path.{subst}
use lineleader.Base.{ℕ, ◌≡◌, refl, Option, Option-cases, none, some, inl, inr, List, String, length}
use lineleader.Base.Int.{ℤ}
use lineleader.Calendar.{Time}
use lineleader.Dvc.Filters.Options.Panel.{IsPanel, filter_options_for-IsPanel}
use lineleader.Dvc.Types.{FilterSet, StayResult}
use lineleader.Ledger.Store.Rows.{Action, Db, Result, err, ok}
use lineleader.Ledger.Types.{Trip}
use lineleader.Web.LedgerForms.{Desk, if_parsed, path_id}
use lineleader.Web.Trips.Handlers.{
  Process, TripView, build_trip_page_view, fetch_basis, page_results,
}
use lineleader.Web.Trips.Handlers.Added.{page_params}
use lineleader.Web.TripViews.{TripPageView, build_trip_view}
use lineleader.Web.TripViews.Collecting.{page_of}
use lineleader.Web.TripFilters.Stored.{
  IsStored, Stores, reset_trip_filters-Stores, set_trip_filter_mode-Stores,
  toggle_trip_resort_filter-Stores, toggle_trip_room_type_filter-Stores,
}
use lineleader.Web.Panels.{
  put_mode, reset_filters, toggle_resort_of, toggle_room_type_of, FilterRequest, FiltersView,
  PanelReply, filter_method, filter_saved, filter_serve, render_trip_filter_toggle, status,
  to_filters_view, toggled_page, trip_filter_step, trip_panel, trip_toggled,
}

-- The sets that the search of a trip's page excludes.
abbrev pub searched_set : Process → Db → Trip → FilterSet
searched_set s db t =
    let p = page_params s db t in
    record { exclude_resorts = p.exclude_resorts; exclude_room_types = p.exclude_room_types }

-- A panel and a page are of one trip, which is stored: the boxes are ticked as its search excludes, and
-- the page counts the results of that search.
abbrev pub Agrees : Process → FiltersView → TripPageView → Db → Type 0
Agrees s v page db =
    (t : Trip) × (results : List StayResult) × (page.trip ≡ t)
    × IsStored t db
    × (page_results s db t ≡ some results)
    × (page.results_total ≡ length results)
    × IsPanel s.charts (searched_set s db t) v.options

abbrev ShowsAgreement : Process → PanelReply × Desk → Type 0
ShowsAgreement s r =
    (v : FiltersView) (page : TripPageView) → r.0 ≡ trip_toggled v page → Agrees s v page r.1.tables

module _ (s : Process) (format_day : Time → String) (first_of : ℤ → ℕ → Time) where
  trip_panel-IsPanel :
      (db : Db) (t : Trip)
      → IsPanel s.charts (searched_set s db t) (trip_panel s format_day first_of t).options
  unfolding trip_panel to_filters_view
  trip_panel-IsPanel db t = filter_options_for-IsPanel s.charts (searched_set s db t)

  page_of-Agrees :
      (t : Trip) (db : Db) (view : TripView)
      → view.trip ≡ t
      → page_results s db t ≡ some view.results
      → IsStored t db
      → Agrees s (trip_panel s format_day first_of t) (page_of s format_day first_of view) db
  unfolding page_of build_trip_view
  page_of-Agrees t db view e n k = (t, view.results, e, k, n, refl, trip_panel-IsPanel db t)

  shown-Agrees :
      (t : Trip) (db : Db) (view : TripView) (v : FiltersView) (page : TripPageView)
      → view.trip ≡ t
      → page_results s db t ≡ some view.results
      → IsStored t db
      → trip_toggled (trip_panel s format_day first_of t) (page_of s format_day first_of view)
        ≡ trip_toggled v page
      → Agrees s v page db
  shown-Agrees t db view v page e n k h =
      let panels : trip_panel s format_day first_of t ≡ v = cc h in
      let pages : page_of s format_day first_of view ≡ page = cc h in
      subst (λ (w : FiltersView). Agrees s w page db) panels
        (subst (λ (w : TripPageView). Agrees s (trip_panel s format_day first_of t) w db) pages
          (page_of-Agrees t db view e n k))

  toggled_page-Agrees :
      (t : Trip) (d : Desk)
      → IsStored t d.tables
      → ShowsAgreement s (render_trip_filter_toggle s format_day first_of t d)
  unfolding render_trip_filter_toggle toggled_page build_trip_page_view fetch_basis
  toggled_page-Agrees t d k = elim (Option-cases (page_results s d.tables t)) [
    | inl n ↦ rw (n, ShowsAgreement) λ v page e. cc e
    | inr (rs, n) ↦ rw (n, ShowsAgreement) λ v page e. shown-Agrees t d.tables _ v page refl n k e
  ]

  saved-Agrees :
      (d : Desk) (r : Result (Trip × Db))
      → Stores r
      → ShowsAgreement s (filter_saved s format_day first_of d r)
  unfolding filter_saved
  saved-Agrees d (err e) k = λ v page h. cc h
  saved-Agrees d (ok (t, db)) k = toggled_page-Agrees t (record d { tables = db }) k

read-Agrees :
    (s : Process) (format_day : Time → String) (first_of : ℤ → ℕ → Time) (d : Desk) (o : Option ℕ)
    (method : ℕ → Action Trip)
    → ((id : ℕ) → Stores (method id d.tables))
    → ShowsAgreement s (
        if_parsed o (status 400, d) λ id. filter_saved s format_day first_of d (method id d.tables))
unfolding if_parsed
read-Agrees s format_day first_of d none method k = λ v page h. cc h
read-Agrees s format_day first_of d (some id) method k =
    saved-Agrees s format_day first_of d (method id d.tables) (k id)

filter_method-Stores :
    (s : Process) (format_day : Time → String) (first_of : ℤ → ℕ → Time) (r : FilterRequest)
    (id : ℕ) (db : Db)
    → Stores (filter_method s format_day first_of r id db)
unfolding filter_method
filter_method-Stores s format_day first_of (put_mode mode) id db =
    set_trip_filter_mode-Stores s.global id mode db
filter_method-Stores s format_day first_of (toggle_resort_of code) id db =
    toggle_trip_resort_filter-Stores id code db
filter_method-Stores s format_day first_of (toggle_room_type_of name) id db =
    toggle_trip_room_type_filter-Stores id name db
filter_method-Stores s format_day first_of reset_filters id db = reset_trip_filters-Stores id db

-- What a request on the filters of a trip shows, if it succeeds, is a panel and a page of the same
-- trip. The tables hold that trip now, its nights and budget converted to the width of their columns.
-- The rest is of that trip: the boxes of the panel are ticked as the search of the page excludes, and
-- the page counts the results of that search.
pub filter_serve-Agrees :
    (s : Process) (format_day : Time → String) (first_of : ℤ → ℕ → Time) (path : String)
    (r : FilterRequest) (d : Desk) (v : FiltersView) (page : TripPageView)
    → (filter_serve s format_day first_of path r d).0 ≡ trip_toggled v page
    → Agrees s v page (filter_serve s format_day first_of path r d).1.tables
unfolding filter_serve trip_filter_step
filter_serve-Agrees s format_day first_of path r d =
    read-Agrees s format_day first_of d (path_id path) (filter_method s format_day first_of r)
      (λ id. filter_method-Stores s format_day first_of r id d.tables)
