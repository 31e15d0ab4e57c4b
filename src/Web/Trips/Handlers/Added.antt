-- ===== src/Web/Trips/Handlers/Added.antt =====
-- internal/web/handlers.go: `addStay` adds a stay that the search offers.
use mathlib.Core.Path.{subst}
use lineleader.Base.{
  ℕ, zero, suc, ◌≡◌, ◌⊎◌, inl, inr, refl, sym, ◌∙◌, ap, Option, none, some, List, [], ◌∷◌, String,
  All, Bool, true, false, ◌+◌, ◌++◌, Exists, if◌then◌else◌,
}
use lineleader.Base.Int.{ℤ, pos, negsuc}
use lineleader.Base.Text.{codes, parse_int}
use lineleader.Dvc.Filters.{effective_filters}
use lineleader.Dvc.Search.{Found}
use lineleader.Dvc.Search.Laws.{FromCharts, search_sound}
use lineleader.Dvc.Types.{SearchParams, StayResult}
use lineleader.Ledger.Budget.{trip_budget}
use lineleader.Ledger.Store.Queries.{get_trip}
use lineleader.Ledger.Store.Rows.{Db, Error, Result, err, ok, to_int32, trip_not_found}
use lineleader.Ledger.Store.Stays.{add_stay, list_stays}
use lineleader.Ledger.Types.{Trip}
use lineleader.Web.LedgerForms.{Desk, if_parsed, path_id}
use lineleader.Web.Planner.{search_budget_for, search_trip, trip_filter_set}
use lineleader.Web.Trips.Forms.{TripError}
use lineleader.Web.Trips.Handlers.{
  Process, TripReply, TripView, add_found, bad_request, build_trip_page_view, collect_stay,
  fetch_basis, fetched, nth, page_results, render_trip_fragment, render_view, result_row, saved,
  stay_from, with_trip,
}

-- The parameters of the search that a trip's page shows.
abbrev pub page_params : Process → Db → Trip → SearchParams
page_params s db t =
    let filters = effective_filters s.global t.filter_mode (trip_filter_set t) in
    record {
      window_start = t.start_date;
      window_end = t.end_date;
      budget = search_budget_for t (trip_budget s.cal t.start_date db) (list_stays t.id db);
      min_nights = t.min_nights;
      exclude_resorts = filters.exclude_resorts;
      exclude_room_types = filters.exclude_room_types;
    }

page_results_sound :
    (s : Process) (db : Db) (t : Trip) (rs : List StayResult)
    → page_results s db t ≡ some rs
    → All (FromCharts s.cal (page_params s db t) s.charts) rs
unfolding page_results search_trip
page_results_sound s db t rs e = (search_sound s.cal s.charts (page_params s db t) rs e).0

nth-All :
    (P : StayResult → Type 0) (rs : List StayResult) (n : ℕ) (r : StayResult)
    → All P rs
    → nth rs n ≡ some r
    → P r
unfolding nth
nth-All P [] n r a e = absurd (cc)
nth-All P (x ∷ rs) zero r a e = subst P (ap or_first e) a.0
  where
    or_first : Option StayResult → StayResult
    or_first none = x
    or_first (some y) = y
nth-All P (x ∷ rs) (suc n) r a e = nth-All P rs n r a.1 e

result_row-All :
    (P : StayResult → Type 0) (rs : List StayResult) (row : Option ℤ) (r : StayResult)
    → All P rs
    → result_row rs row ≡ some r
    → P r
unfolding result_row
result_row-All P rs (some (pos n)) r a e = nth-All P rs n r a e
result_row-All P rs (some (negsuc n)) r a e = absurd (cc)
result_row-All P rs none r a e = absurd (cc)

-- One of the results, and what the search promises of it.
abbrev pub Offers : Process → Db → Trip → List StayResult → StayResult → Type 0
Offers s db t results res =
    Exists (λ (x : StayResult). x ≡ res) results
    × FromCharts s.cal (page_params s db t) s.charts res

Offers-All :
    (s : Process) (db : Db) (t : Trip) (rs : List StayResult)
    → page_results s db t ≡ some rs
    → All (Offers s db t rs) rs
Offers-All s db t rs e = both rs (page_results_sound s db t rs e) (λ x h. h)
  where
    both :
        (xs : List StayResult)
        → All (FromCharts s.cal (page_params s db t) s.charts) xs
        → ((x : StayResult)
            → Exists (λ (y : StayResult). y ≡ x) xs
            → Exists (λ (y : StayResult). y ≡ x) rs)
        → All (Offers s db t rs) xs
    both [] a h = tt
    both (x ∷ xs) a h = ((h x (inl refl), a.0), both xs a.1 (λ y k. h y (inr k)))

-- The tables with one stay more, for the trip `id`.
abbrev pub with_stay : ℕ → StayResult → Db → Db
with_stay id res db = record db {
  stays =
      db.stays
      ++ record {
        id = db.next_stay;
        trip_id = id;
        resort = res.resort;
        room_type = res.room_type;
        view = res.view;
        check_in = res.check_in;
        check_out = res.check_out;
        nights = to_int32 (pos res.nights);
        points = to_int32 res.points;
        quote_hash = "";
        entry_ids = [];
        entry_points = pos 0;
      }
        ∷ [];
  next_stay = db.next_stay + 1;
}

second : {A : Type 0} → Db → Result (A × Db) → Db
second db (ok p) = p.1
second db (err e) = db

ok_if :
    {A : Type 0} (b : Bool) (x : A × Db) (e : Error) {n : A} {db : Db}
    → (if b then ok x else err e) ≡ ok (n, db)
    → x.1 ≡ db
unfolding second
ok_if true x e h = ap (second x.1) h
ok_if false x e h = cc

add_stay-with_stay :
    (id : ℕ) (res : StayResult) (db after : Db) (n : ℕ)
    → add_stay (stay_from id res) db ≡ ok (n, after)
    → with_stay id res db ≡ after
unfolding add_stay stay_from
add_stay-with_stay id res db after n h = ok_if _ (db.next_stay, with_stay id res db) _ h

module _ (s : Process) where
  -- Rendering a page changes no table.
  render_view-tables :
      (e : Option TripError) (v : Option TripView × Desk)
      → (render_view s e v).1.tables ≡ v.1.tables
  unfolding render_view
  render_view-tables e (none, d) = refl
  render_view-tables e (some view, d) = refl

  fetched-tables :
      (d : Desk) (r : Result (Trip × Db)) (f : Trip → TripReply × Desk)
      → ((t : Trip) → (f t).1.tables ≡ d.tables)
      → (fetched d r f).1.tables ≡ d.tables
  unfolding fetched
  fetched-tables d (ok (t, db)) f h = h t
  fetched-tables d (err e) f h = by_error e
    where
      by_error : (e : Error) → (fetched d (err e) f).1.tables ≡ d.tables
      by_error trip_not_found = refl
      by_error e = refl

  fragment-tables : (id : ℕ) (d : Desk) → (render_trip_fragment s id d).1.tables ≡ d.tables
  unfolding render_trip_fragment with_trip build_trip_page_view fetch_basis
  fragment-tables id d =
      fetched-tables d (get_trip id d.tables) _
        λ t. render_view-tables none (build_trip_page_view s t d)

  -- What a successful `addStay` has done: the trip is there, the row is a result of the search that
  -- its page shows, and the tables have one stay more, which is that row, not booked.
  abbrev pub IsAdded : Desk → Db → Type 0
  IsAdded d after =
      (id : ℕ) × (t : Trip) × (found : Db) × (results : List StayResult) × (res : StayResult)
      × (get_trip id d.tables ≡ ok (t, found))
      × (page_results s d.tables t ≡ some results)
      × Offers s d.tables t results res
      × (after ≡ with_stay id res d.tables)

  abbrev IsSound : Desk → TripReply × Desk → Type 0
  IsSound d r = (r.1.tables ≡ d.tables) ⊎ IsAdded d r.1.tables

  saved-IsSound :
      (id : ℕ) (d : Desk) (t : Trip) (found : Db) (results : List StayResult) (res : StayResult)
      (r : Result (ℕ × Db))
      → get_trip id d.tables ≡ ok (t, found)
      → page_results s d.tables t ≡ some results
      → Offers s d.tables t results res
      → add_stay (stay_from id res) d.tables ≡ r
      → IsSound d (saved d r λ n d'. render_trip_fragment s id d')
  unfolding saved
  saved-IsSound id d t found results res (err e) g p c h = inl refl
  saved-IsSound id d t found results res (ok (n, db)) g p c h = inr (
    id,
    t,
    found,
    results,
    res,
    g,
    p,
    c,
    fragment-tables id (record d { tables = db }) ∙ sym (add_stay-with_stay id res d.tables db n h),
  )

  row-IsSound :
      (id : ℕ) (row : Option ℤ) (d : Desk) (t : Trip) (found : Db) (results : List StayResult)
      (o : Option StayResult)
      → get_trip id d.tables ≡ ok (t, found)
      → page_results s d.tables t ≡ some results
      → result_row results row ≡ o
      → IsSound d (
          if_parsed o
            (bad_request, d)
            λ res.
              saved d (add_stay (stay_from id res) d.tables) λ n d'. render_trip_fragment s id d')
  unfolding if_parsed
  row-IsSound id row d t found results none g p e = inl refl
  row-IsSound id row d t found results (some res) g p e =
      saved-IsSound id d t found results res (add_stay (stay_from id res) d.tables) g p
        (result_row-All (Offers s d.tables t results) results row res
          (Offers-All s d.tables t results p) e)
        refl

  found-IsSound :
      (id : ℕ) (row : Option ℤ) (d : Desk) (t : Trip) (db : Db) (found : Found)
      → get_trip id d.tables ≡ ok (t, db)
      → page_results s d.tables t ≡ found
      → IsSound d (add_found s id row d found)
  unfolding add_found
  found-IsSound id row d t db none g e = inl refl
  found-IsSound id row d t db (some results) g e =
      row-IsSound id row d t db results (result_row results row) g e refl

  fetched-IsSound :
      (id : ℕ) (row : Option ℤ) (d : Desk) (r : Result (Trip × Db))
      → get_trip id d.tables ≡ r
      → IsSound d (fetched d r λ t. add_found s id row d (page_results s d.tables t))
  unfolding fetched
  fetched-IsSound id row d (ok (t, db)) g =
      found-IsSound id row d t db (page_results s d.tables t) g refl
  fetched-IsSound id row d (err e) g = by_error e
    where
      by_error :
          (e : Error)
          → IsSound d (fetched d (err e) λ t. add_found s id row d (page_results s d.tables t))
      by_error trip_not_found = inl refl
      by_error e = inl refl

  path-IsSound :
      (o : Option ℕ) (row : Option ℤ) (d : Desk)
      → IsSound d (
          if_parsed o
            (bad_request, d)
            λ id. with_trip id (λ t. add_found s id row d (page_results s d.tables t)) d)
  unfolding if_parsed with_trip
  path-IsSound none row d = inl refl
  path-IsSound (some id) row d = fetched-IsSound id row d (get_trip id d.tables) refl

  -- `addStay` leaves the tables, or adds one stay to an existing trip and changes nothing else. The
  -- stay has the resort, room, view, days, nights and points of one of the results of the search
  -- that the trip's page shows, and is not booked. That result is of a wanted column and resort, lies
  -- within the trip's dates, and has at least the minimum of nights and points within the budget
  -- that the other stays leave.
  pub collect_stay_sound :
      (path row : String) (d : Desk)
      → ((collect_stay s path row d).1.tables ≡ d.tables)
        ⊎ IsAdded d (collect_stay s path row d).1.tables
  unfolding collect_stay
  collect_stay_sound path row d = path-IsSound (path_id path) (parse_int (codes row)) d
