-- ===== src/Web/TripFilters/Modes.antt =====
-- internal/web/handlers.go: what a change of a trip's filter mode does to its search.
use lineleader.Base.{◌≡◌, refl, inl, inr, ℕ, String, str_eq, Bool-cases, if◌then◌else◌}
use mathlib.Core.Path.{subst}
use lineleader.Dvc.Types.{Config, FilterSet, as_filter_set}
use lineleader.Dvc.Filters.{effective_filters}
use lineleader.Ledger.Types.{Trip}
use lineleader.Ledger.Store.Rows.{
  Db, Result, ok, err, status_bad_request, Action, pure, raise, ◌>>=◌,
}
use lineleader.Ledger.Store.Queries.{get_trip, update_trip}
use lineleader.Web.Planner.{trip_filter_set}
use lineleader.Web.TripFilters.{persist, overriding, inheriting, set_trip_filter_mode}

-- The filters that a trip is searched with.
abbrev pub filters_of : Config → Trip → FilterSet
filters_of global t = effective_filters global t.filter_mode (trip_filter_set t)

-- A step whose result satisfies a predicate whenever it succeeds.
Ensures : {A : Type 0} → (A → Type 0) → Result (A × Db) → Type 0
Ensures P (ok (a, db)) = P a
Ensures P (err e) = Unit

Ensures-bind :
    {A B : Type 0} (P : B → Type 0) (m : Action A) (f : A → Action B) (db : Db)
    → ((a : A) (d : Db) → Ensures P (f a d))
    → Ensures P ((m >>= f) db)
unfolding Ensures
Ensures-bind {A} {B} P m f db h = after (m db)
  where
    after :
        (r : Result (A × Db))
        → Ensures P (elim r as (λ x. Result (B × Db)) [ ok (a, d) ↦ f a d | err e ↦ err e ])
    after (ok (a, d)) = h a d
    after (err e) = tt

module _ (global : Config) where
  IsSeeded : Trip → Type 0
  IsSeeded t = filters_of global t ≡ as_filter_set global

  persist-IsSeeded : (t : Trip) (db : Db) → IsSeeded t → Ensures IsSeeded (persist t db)
  unfolding Ensures
  persist-IsSeeded t db p = Ensures-bind IsSeeded (update_trip t) (λ _. pure t) db (λ a d. p)

  set_mode-IsSeeded :
      (mode : String) (t : Trip) (db : Db)
      → Ensures IsSeeded (
          (if str_eq mode "override"
              then persist (overriding global t)
              else (if str_eq mode "inherit"
                  then persist (inheriting t)
                  else raise status_bad_request))
            db)
  unfolding Ensures IsSeeded overriding inheriting effective_filters trip_filter_set as_filter_set
  set_mode-IsSeeded mode t db = elim (Bool-cases (str_eq mode "override")) [
    | inl h ↦ rw h (persist-IsSeeded (overriding global t) db refl)
    | inr h ↦ elim (Bool-cases (str_eq mode "inherit")) [
      | inl k ↦ rw (h, k) (persist-IsSeeded (inheriting t) db refl)
      | inr k ↦ rw (h, k) tt
    ]
  ]

  -- A change of a trip's filter mode that succeeds, to either mode, leaves the trip with the
  -- filters of the global config for its search.
  pub set_trip_filter_mode-filters_of :
      (id : ℕ) (mode : String) (t : Trip) (db db' : Db)
      → set_trip_filter_mode global id mode db ≡ ok (t, db')
      → filters_of global t ≡ as_filter_set global
  unfolding Ensures IsSeeded set_trip_filter_mode
  set_trip_filter_mode-filters_of id mode t db db' e =
      subst (Ensures IsSeeded) e
        (Ensures-bind IsSeeded (get_trip id) _ db (λ a d. set_mode-IsSeeded mode a d))
