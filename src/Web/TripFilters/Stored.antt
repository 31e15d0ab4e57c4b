-- ===== src/Web/TripFilters/Stored.antt =====
-- internal/web/handlers.go: the handlers of a trip's own filters show the trip that they store.
use lineleader.Base.{
  ℕ, ◌==◌, ◌≡◌, refl, sym, ◌∙◌, ap, Bool, true, false, Bool-cases, Option, none, some, inl, inr,
  List, [], ◌∷◌, map, arith, String, str_eq, if◌then◌else◌,
}
use lineleader.Dvc.Types.{Config}
use lineleader.Ledger.Types.{Trip}
use lineleader.Ledger.Store.Rows.{
  Action, Db, Error, Result, err, ok, pure, trip_not_found, ◌>>=◌, ◌>>◌,
}
use lineleader.Ledger.Store.Queries.{find_trip, get_trip, trip_row, update_trip}
use lineleader.Web.TripFilters.{
  inheriting, overriding, persist, reset_trip_filters, set_trip_filter_mode, toggle_trip_filter,
  toggle_trip_resort_filter, toggle_trip_room_type_filter,
}

-- The table has the trip, with its columns as they are written.
abbrev pub IsStored : Trip → Db → Type 0
IsStored t db = get_trip t.id db ≡ ok (trip_row t, db)

-- A step that, if it succeeds, gives back a trip as it is stored.
abbrev pub Stores : Result (Trip × Db) → Type 0
Stores (err e) = Unit
Stores (ok (t, db)) = IsStored t db

self : (i : ℕ) → (i == i) ≡ true
self i = ground arith

find_trip-id : (id : ℕ) (ts : List Trip) (t : Trip) → find_trip id ts ≡ some t → t.id ≡ id
unfolding find_trip
find_trip-id id [] t h = cc h
find_trip-id id (x ∷ ts) t h = elim (Bool-cases (x.id == id)) [
  | inl e ↦
      let found : x ≡ t = cc (rw e at h) in ap (λ (y : Trip). y.id) (sym found) ∙ same x.id id e
  | inr e ↦ find_trip-id id ts t (rw e at h)
]
  where
    same : (i j : ℕ) → (i == j) ≡ true → i ≡ j
    same i j e = ground arith

find_trip-map :
    (t found : Trip) (ts : List Trip)
    → find_trip t.id ts ≡ some found
    → find_trip t.id (map (λ (row : Trip). if row.id == t.id then trip_row t else row) ts)
      ≡ some (trip_row t)
unfolding find_trip
find_trip-map t found [] h = cc h
find_trip-map t found (x ∷ ts) h = elim (Bool-cases (x.id == t.id)) [
  | inl e ↦ rw (e, self t.id) refl
  | inr e ↦ rw (e, e) (find_trip-map t found ts (rw e at h))
]

checked-Stores :
    (t : Trip) (b : Bool) (e : Error) (after db : Db)
    → IsStored t after
    → Stores (((λ (d : Db). if b then err e else ok (tt, after)) >> pure t) db)
checked-Stores t true e after db h = tt
checked-Stores t false e after db h = h

abbrev updated : Trip → Db → Db
updated t db = record db {
  trips = map (λ (row : Trip). if row.id == t.id then trip_row t else row) db.trips;
}

updated-IsStored :
    (t found : Trip) (db : Db) → find_trip t.id db.trips ≡ some found → IsStored t (updated t db)
unfolding get_trip
updated-IsStored t found db h = rw (find_trip-map t found db.trips h, get_trip) refl

-- The end of each handler stores the trip, where its id is in the table.
persist-Stores :
    (t found : Trip) (db : Db) → find_trip t.id db.trips ≡ some found → Stores (persist t db)
unfolding update_trip
persist-Stores t found db h = checked-Stores t _ _ (updated t db) db (updated-IsStored t found db h)

after_get :
    (id : ℕ) (db : Db) (f : Trip → Action Trip)
    → ((t : Trip) → find_trip t.id db.trips ≡ some t → Stores (f t db))
    → Stores ((get_trip id >>= f) db)
unfolding get_trip
after_get id db f h = by_found (find_trip id db.trips) refl
  where
    by_found :
        (o : Option Trip)
        → find_trip id db.trips ≡ o
        → Stores (
            (let found : Action Trip =
                  λ d. elim o [ none ↦ err trip_not_found | some t ↦ ok (t, d) ] in
                found >>= f)
              db)
    by_found none n = tt
    by_found (some t) n = h t (ap (λ i. find_trip i db.trips) (find_trip-id id db.trips t n) ∙ n)

module _ (global : Config) where
  pub set_trip_filter_mode-Stores :
      (id : ℕ) (mode : String) (db : Db) → Stores (set_trip_filter_mode global id mode db)
  unfolding set_trip_filter_mode overriding inheriting
  set_trip_filter_mode-Stores id mode db = after_get id db _ λ t h.
      elim (Bool-cases (str_eq mode "override")) [
        | inl e ↦ rw e (persist-Stores (overriding global t) t db h)
        | inr e ↦ elim (Bool-cases (str_eq mode "inherit")) [
          | inl k ↦ rw (e, k) (persist-Stores (inheriting t) t db h)
          | inr k ↦ rw (e, k) tt
        ]
      ]

toggle_trip_filter-Stores :
    (id : ℕ) (mutate : Trip → Trip) (db : Db)
    → ((t : Trip) → (mutate t).id ≡ t.id)
    → Stores (toggle_trip_filter id mutate db)
unfolding toggle_trip_filter
toggle_trip_filter-Stores id mutate db same = after_get id db _ λ t h.
    elim (Bool-cases (str_eq t.filter_mode "override")) [
      | inl e ↦ rw e (persist-Stores (mutate t) t db (ap (λ i. find_trip i db.trips) (same t) ∙ h))
      | inr e ↦ rw e tt
    ]

pub toggle_trip_resort_filter-Stores :
    (id : ℕ) (code : String) (db : Db) → Stores (toggle_trip_resort_filter id code db)
unfolding toggle_trip_resort_filter
toggle_trip_resort_filter-Stores id code db = toggle_trip_filter-Stores id _ db λ t. refl

pub toggle_trip_room_type_filter-Stores :
    (id : ℕ) (name : String) (db : Db) → Stores (toggle_trip_room_type_filter id name db)
unfolding toggle_trip_room_type_filter
toggle_trip_room_type_filter-Stores id name db = toggle_trip_filter-Stores id _ db λ t. refl

pub reset_trip_filters-Stores : (id : ℕ) (db : Db) → Stores (reset_trip_filters id db)
unfolding reset_trip_filters inheriting
reset_trip_filters-Stores id db = after_get id db _ λ t h. persist-Stores (inheriting t) t db h
