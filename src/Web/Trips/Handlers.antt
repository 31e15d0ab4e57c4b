-- ===== src/Web/Trips/Handlers.antt =====
-- internal/web/handlers.go: the handlers of the trip pages. A trip page shows the view that its
-- handler builds, at the instants `now` and `later` of the fetch of the pricing.
pub mod Pricing
pub mod Added
use lineleader.Base.{
  ℕ, zero, suc, Bool, true, false, ◌&&◌, Option, none, some, List, [], ◌∷◌, String, if◌then◌else◌,
}
use lineleader.Base.Int.{ℤ, pos, negsuc}
use lineleader.Base.Text.{codes, parse_int}
use lineleader.Calendar.{Time, Calendar}
use lineleader.Dvc.Types.{Config, ResortChart, StayResult}
use lineleader.Dvc.Search.{Found}
use lineleader.Ledger.Accounting.{TripFundingPreview, preview_trip_funding}
use lineleader.Ledger.Booking.{book_trip}
use lineleader.Ledger.Budget.{TripBudget, trip_budget}
use lineleader.Ledger.Cost.{CostBasis, cost_basis, known}
use lineleader.Ledger.Store.Queries.{add_trip, get_trip, list_trips, update_trip}
use lineleader.Ledger.Store.Rows.{Action, Db, Error, Result, err, modify, ok, trip_not_found}
use lineleader.Ledger.Store.Snapshots.{snapshot}
use lineleader.Ledger.Store.Stays.{add_stay, delete_stay, delete_trip, list_stays, unbook_trip}
use lineleader.Ledger.Types.{Trip, TripStay}
use lineleader.Web.Costs.{CostProvider, basis, invalidate}
use lineleader.Web.LedgerForms.{Desk, Form, if_parsed, path_id}
use lineleader.Web.Planner.{search_budget_for, search_trip, stay_booking_status}
use lineleader.Web.Trips.Forms.{
  Read, TripError, invalid, parse_budget_override, parse_trip_form, store_refused, valid,
}

-- What `buildTripPageView` hands to the projection of the page.
pub record TripView : Type 0 where
  pub trip : Trip
  pub stays : List TripStay
  pub budget : TripBudget
  pub results : List StayResult
  pub funding : TripFundingPreview
  pub pricing : CostBasis
  pub show_costs : Bool

-- The replies. `bad_request` is a malformed id or row, `missing` is 404, `failed` is 500, and
-- `aborted` is a panic. `home` says whether the redirect is htmx's.
pub data TripReply : Type 0 where
  bad_request missing aborted : TripReply
  failed : Error → TripReply
  trip_list : List Trip → Option TripError → TripReply
  trip_page : TripView → Option TripError → TripReply
  to_trip : ℕ → TripReply
  home : Bool → TripReply

-- The tests that a handler starts with, as in the ledger pages.
unfoldable pub if_read : {A B : Type 0} → Read A → (TripError → B) → (A → B) → B
if_read (invalid e) f g = f e
if_read (valid a) f g = g a

-- `getTripOr404` with what follows it.
unfoldable pub fetched : Desk → Result (Trip × Db) → (Trip → TripReply × Desk) → TripReply × Desk
fetched d (ok (t, db)) f = f t
fetched d (err trip_not_found) f = (missing, d)
fetched d (err e) f = (failed e, d)

unfoldable pub with_trip : ℕ → (Trip → TripReply × Desk) → Desk → TripReply × Desk
with_trip id f d = fetched d (get_trip id d.tables) f

-- What follows a method of the store; its error is replied.
unfoldable pub saved :
    {A : Type 0} → Desk → Result (A × Db) → (A → Desk → TripReply × Desk) → TripReply × Desk
saved d (err e) f = (failed e, d)
saved d (ok (a, db)) f = f a (record d { tables = db })

-- The trip that `updateTrip` writes: the four fields that the form does not have are carried over.
unfoldable pub carried : Trip → Trip → Trip
carried existing edited = record edited {
  id = existing.id;
  budget_override = existing.budget_override;
  filter_mode = existing.filter_mode;
  exclude_resorts = existing.exclude_resorts;
  exclude_room_types = existing.exclude_room_types;
}

-- The stay that `addStay` makes of a result.
unfoldable pub stay_from : ℕ → StayResult → TripStay
stay_from id res = record {
  id = 0;
  trip_id = id;
  resort = res.resort;
  room_type = res.room_type;
  view = res.view;
  check_in = res.check_in;
  check_out = res.check_out;
  nights = pos res.nights;
  points = res.points;
  quote_hash = "";
  entry_ids = [];
  entry_points = pos 0;
}

-- `results[row]`
unfoldable pub nth : List StayResult → ℕ → Option StayResult
nth [] n = none
nth (r ∷ rs) zero = some r
nth (r ∷ rs) (suc n) = nth rs n

-- The result that the path value `row` names.
unfoldable pub result_row : List StayResult → Option ℤ → Option StayResult
result_row results (some (pos n)) = nth results n
result_row results (some (negsuc n)) = none
result_row results none = none

-- `Invalidate` of the handlers' provider.
unfoldable pub forget_pricing : Desk → Desk
forget_pricing d = record d { costs = invalidate d.costs }

-- The process: the calendar and the layouts of dates, the charts and the global filters, the zero
-- `CostBasis`; the instants around a fetch; and which of the attempts of a booking lose a conflict.
pub record Process : Type 0 where
  pub cal : Calendar
  pub parse_layout : String → String → Option Time
  pub charts : List ResortChart
  pub global : Config
  pub empty : CostBasis
  pub now : ℤ
  pub later : ℤ
  pub conflict : ℕ → Bool
  pub attempts : ℕ

module _ (s : Process) where
  -- The preview that a page shows: none is reckoned where every stay is booked.
  unfoldable pub page_funding : Db → List TripStay → TripFundingPreview
  page_funding db stays =
      if (stay_booking_status stays).1
      then preview_trip_funding s.cal (snapshot db) stays
      else record { stays = []; fundable = false }

  -- The rows that `searchTrip` finds for the page of a trip.
  unfoldable pub page_results : Db → Trip → Found
  page_results db t =
      search_trip s.cal s.global s.charts t
        (search_budget_for t (trip_budget s.cal t.start_date db) (list_stays t.id db))

  -- `costBasis`
  unfoldable pub fetch_basis : Desk → (CostBasis × Bool) × Desk
  fetch_basis d =
      let r = basis s.empty s.now (some (cost_basis d.tables)) s.later d.costs in
      ((r.0.0, r.0.1 && known r.0.0), record d { costs = r.1 })

  -- `buildTripPageView`; none is a panic of the search.
  unfoldable pub build_trip_page_view : Trip → Desk → Option TripView × Desk
  build_trip_page_view t d =
      let priced = fetch_basis d in
      let stays = list_stays t.id d.tables in
      let view : Option TripView = elim (page_results d.tables t) [
        | none ↦ none
        | some results ↦ some (record {
          trip = t;
          stays = stays;
          budget = trip_budget s.cal t.start_date d.tables;
          results = results;
          funding = page_funding d.tables stays;
          pricing = priced.0.0;
          show_costs = priced.0.1;
        })
      ] in
      (view, priced.1)

  -- Rendering a page.
  unfoldable pub render_view : Option TripError → Option TripView × Desk → TripReply × Desk
  render_view e (none, d) = (aborted, d)
  render_view e (some view, d) = (trip_page view e, d)

  -- `renderTripFragment`, and `tripPage` behind its id.
  unfoldable pub render_trip_fragment : ℕ → Desk → TripReply × Desk
  render_trip_fragment id d = with_trip id (λ t. render_view none (build_trip_page_view t d)) d

  -- `renderTripList`
  unfoldable pub render_trip_list : Option TripError → Desk → TripReply × Desk
  render_trip_list e d = (trip_list (list_trips d.tables) e, (fetch_basis d).1)

  -- `createTrip`
  unfoldable pub trip_created : Desk → Result (ℕ × Db) → TripReply × Desk
  trip_created d (err e) = render_trip_list (some store_refused) d
  trip_created d (ok (id, db)) = (to_trip id, record d { tables = db })

  unfoldable pub create_trip : Option Form → Desk → TripReply × Desk
  create_trip form d =
      if_read (parse_trip_form s.parse_layout form) (λ e. render_trip_list (some e) d)
        λ t. trip_created d (add_trip t d.tables)

  -- `updateTrip`
  unfoldable pub edit_trip : String → Option Form → Desk → TripReply × Desk
  edit_trip path form d =
      if_parsed (path_id path) (bad_request, d)
        λ id.
          with_trip id
            (λ existing.
              if_read (parse_trip_form s.parse_layout form)
                (λ e. render_view (some e) (build_trip_page_view existing d))
                λ edited.
                  saved d (update_trip (carried existing edited) d.tables)
                    λ u d'. render_trip_fragment id d')
            d

  -- `setBudgetOverride`
  unfoldable pub set_budget_override : String → Option Form → Desk → TripReply × Desk
  set_budget_override path form d =
      if_parsed (path_id path) (bad_request, d)
        λ id.
          with_trip id
            (λ t.
              if_read (parse_budget_override form)
                (λ e. render_view (some e) (build_trip_page_view t d))
                λ v.
                  saved d (update_trip (record t { budget_override = some v }) d.tables)
                    λ u d'. render_trip_fragment id d')
            d

  -- `clearBudgetOverride`
  unfoldable pub clear_budget_override : String → Desk → TripReply × Desk
  clear_budget_override path d =
      if_parsed (path_id path) (bad_request, d)
        λ id.
          with_trip id
            (λ t.
              saved d (update_trip (record t { budget_override = none }) d.tables)
                λ u d'. render_trip_fragment id d')
            d

  -- The end of `addStay`, once the search has run.
  unfoldable pub add_found : ℕ → Option ℤ → Desk → Found → TripReply × Desk
  add_found id row d none = (aborted, d)
  add_found id row d (some results) =
      if_parsed (result_row results row) (bad_request, d)
        λ res. saved d (add_stay (stay_from id res) d.tables) λ n d'. render_trip_fragment id d'

  -- `addStay`
  unfoldable pub collect_stay : String → String → Desk → TripReply × Desk
  collect_stay path row d =
      if_parsed (path_id path) (bad_request, d)
        λ id. with_trip id (λ t. add_found id (parse_int (codes row)) d (page_results d.tables t)) d

  -- `removeStay`
  unfoldable pub remove_stay : String → String → Desk → TripReply × Desk
  remove_stay path stay d =
      if_parsed (path_id path) (bad_request, d)
        λ id.
          if_parsed (path_id stay) (bad_request, d)
            λ sid.
              saved d (modify (delete_stay sid) d.tables)
                λ u d'. render_trip_fragment id (forget_pricing d')

  -- `bookTrip`; nobody else commits between its attempts.
  unfoldable pub book : String → Desk → TripReply × Desk
  book path d =
      if_parsed (path_id path) (bad_request, d)
        λ id.
          with_trip id
            (λ t.
              saved d (book_trip s.cal (λ n. d.tables) s.conflict id s.attempts 0)
                λ u d'. render_trip_fragment id (forget_pricing d'))
            d

  -- `unbookTrip`
  unfoldable pub unbook : String → Desk → TripReply × Desk
  unbook path d =
      if_parsed (path_id path) (bad_request, d)
        λ id.
          with_trip id
            (λ t.
              saved d (modify (unbook_trip id) d.tables)
                λ u d'. render_trip_fragment id (forget_pricing d'))
            d

  -- `deleteTrip`; `hx` is whether the request is htmx's.
  unfoldable pub remove_trip : String → Bool → Desk → TripReply × Desk
  remove_trip path hx d =
      if_parsed (path_id path) (bad_request, d)
        λ id. saved d (modify (delete_trip id) d.tables) λ u d'. (home hx, d')
