-- ===== src/Web/TripViews/Collecting.antt =====
-- internal/web: the row of a trip's page that `addStay` is asked for is the row that is added.
use lineleader.Base.{
  ℕ, zero, suc, ◌+◌, ◌≡◌, inl, inr, refl, ◌∙◌, ap, Bool, Option, Option-cases, some, List, [], ◌∷◌,
  String, Exists, arith,
}
use lineleader.Base.Int.{ℤ, pos}
use lineleader.Base.Text.{codes, parse_int}
use lineleader.Calendar.{Time}
use lineleader.Dvc.Types.{StayResult}
use lineleader.Ledger.Cost.{CostBasis}
use lineleader.Ledger.Store.Queries.{get_trip}
use lineleader.Ledger.Store.Rows.{Db, ok}
use lineleader.Ledger.Store.Stays.{add_stay}
use lineleader.Ledger.Types.{Trip, TripStay}
use lineleader.Web.LedgerForms.{Desk, if_parsed, path_id}
use lineleader.Web.LedgerViews.{first_elements}
use lineleader.Web.Trips.Handlers.{
  Process, TripView, add_found, build_trip_page_view, collect_stay, fetched, nth, page_results,
  render_trip_fragment, result_row, saved, stay_from, with_trip,
}
use lineleader.Web.TripViews.{
  ResultRow, TripPageView, build_trip_view, max_result_rows, result_row_view, rows_from,
}

-- The page of what `buildTripPageView` has fetched.
unfoldable pub page_of : Process → (Time → String) → (ℤ → ℕ → Time) → TripView → TripPageView
page_of s format_day first_of v =
    build_trip_view s.cal format_day first_of v.trip v.stays v.budget v.results
      v.pricing.use_year_month v.pricing v.show_costs v.funding

module _ (s : Process) (format_day : Time → String) (first_of : ℤ → ℕ → Time) where
  -- A row that is shown stands at its index in all the results.
  rows_from-nth :
      (stays : List TripStay) (b : CostBasis) (show_costs : Bool) (i limit : ℕ)
      (rs : List StayResult) (row : ResultRow)
      → Exists
          (λ (r : ResultRow). r ≡ row)
          (rows_from s.cal format_day first_of stays b show_costs i (first_elements limit rs))
      → (j : ℕ) × (row.row_index ≡ i + j) × (nth rs j ≡ some row.result)
  unfolding rows_from first_elements nth result_row_view
  rows_from-nth stays b show_costs i zero rs row h = absurd h
  rows_from-nth stays b show_costs i (suc limit) [] row h = absurd h
  rows_from-nth stays b show_costs i (suc limit) (r ∷ rs) row (inl e) = (
    0,
    omega (arith, ap (λ (x : ResultRow). x.row_index) e),
    ap (λ (x : ResultRow). some x.result) e,
  )
  rows_from-nth stays b show_costs i (suc limit) (r ∷ rs) row (inr h) =
      let (j, e, n) = rows_from-nth stays b show_costs (suc i) limit rs row h in
      (suc j, omega arith, n)

  page_results-view :
      (t : Trip) (d : Desk) (v : TripView)
      → (build_trip_page_view s t d).0 ≡ some v
      → page_results s d.tables t ≡ some v.results
  unfolding build_trip_page_view
  page_results-view t d v e = elim (Option-cases (page_results s d.tables t)) [
    | inl n ↦ cc (rw (n, build_trip_page_view) at e)
    | inr (rs, n) ↦ n ∙ cc (rw (n, build_trip_page_view) at e)
  ]

  row_added :
      (id : ℕ) (d : Desk) (results : List StayResult) (row : Option ℤ) (res : StayResult) (n : ℕ)
      → row ≡ some (pos n)
      → nth results n ≡ some res
      → add_found s id row d (some results)
        ≡ saved d (add_stay (stay_from id res) d.tables) λ m d'. render_trip_fragment s id d'
  unfolding add_found result_row if_parsed
  row_added id d results row res n e h = rw (e, result_row, h) refl

-- A request to add the row of a result that the page of a trip shows, with the tables as the page was
-- made from, adds the stay of that result: the rows past `maxResultRows` are cut off the page, and the
-- index of a row counts the same results as the request.
pub collect_stay-shown :
    (s : Process) (format_day : Time → String) (first_of : ℤ → ℕ → Time) (path row_text : String)
    (id : ℕ) (t : Trip) (d : Desk) (found : Db) (v : TripView) (row : ResultRow)
    → path_id path ≡ some id
    → get_trip id d.tables ≡ ok (t, found)
    → (build_trip_page_view s t d).0 ≡ some v
    → Exists (λ (r : ResultRow). r ≡ row) (page_of s format_day first_of v).results
    → parse_int (codes row_text) ≡ some (pos row.row_index)
    → collect_stay s path row_text d
      ≡ saved d (add_stay (stay_from id row.result) d.tables) λ m d'. render_trip_fragment s id d'
unfolding collect_stay with_trip fetched if_parsed page_of build_trip_view
collect_stay-shown s format_day first_of path row_text id t d found v row p g e shown r =
    let (j, i, n) =
      rows_from-nth s format_day first_of v.stays v.pricing v.show_costs 0 max_result_rows v.results
        row shown in
    rw (p, g, page_results-view s format_day first_of t d v e)
      (row_added s format_day first_of id d v.results (parse_int (codes row_text)) row.result j
        (r ∙ ap (λ (k : ℕ). some (pos k)) (omega arith)) n)
