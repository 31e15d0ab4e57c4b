-- ===== src/Ledger/Store/Stays.antt =====
-- The stays of a trip and their links to entries: trip.go, and the deletions of trip_book.go.
use lineleader.Base.{
  ℕ, ◌+◌, Bool, not, ◌&&◌, List, [], ◌∷◌, ◌++◌, map, ltb, ◌==◌, if◌then◌else◌, keep, any, sum_of,
}
use lineleader.Base.Int.{ℤ, pos, ◌-ℤ◌, ltb_ℤ, eqb_ℤ}
use lineleader.Base.Sort.{sort_slice}
use lineleader.Ledger.Types.{Entry, Trip, TripStay}
use lineleader.Ledger.Store.Rows.{Link, Db, check_violation, ok, err, Action, to_int32}
use lineleader.Ledger.Store.Queries.{delete_entries}

-- The CHECKs of the table trip_stay.
stay_checks : TripStay → Bool
stay_checks st =
    ltb st.check_in st.check_out
    && eqb_ℤ st.nights (pos st.check_out -ℤ pos st.check_in)
    && ltb_ℤ (pos 0) st.points

-- `AddStay`: a stay is always inserted unbooked, and its trip must exist.
unfoldable pub add_stay : TripStay → Action ℕ
unfolding stay_checks
add_stay st db =
    let row = record st {
      id = db.next_stay;
      nights = to_int32 st.nights;
      points = to_int32 st.points;
      entry_ids = [];
      entry_points = pos 0;
    } in
    if stay_checks row && any (λ (t : Trip). t.id == row.trip_id) db.trips
    then ok (db.next_stay, record db { stays = db.stays ++ row ∷ []; next_stay = db.next_stay + 1 })
    else err check_violation

-- `InsertTripStayEntry`
unfoldable pub insert_trip_stay_entry : ℕ → ℕ → Db → Db
insert_trip_stay_entry stay_id entry_id db = record db {
  links = db.links ++ record { trip_stay_id = stay_id; entry_id = entry_id } ∷ [];
}

-- `ListTripStayEntryIDsForTrip` for one stay: its entries in ascending order.
unfoldable pub entry_ids_of : ℕ → List Link → List ℕ
entry_ids_of stay_id links =
    sort_slice ltb
      (map (λ (l : Link). l.entry_id) (keep (λ (l : Link). l.trip_stay_id == stay_id) links))

-- The points that the entry with an id uses.
abbrev pub used_by : List Entry → ℕ → ℤ
used_by entries id = sum_of (λ (e : Entry). if e.id == id then e.used else pos 0) entries

-- `ListTripStayUsedPointsForTrip` for one stay; 0 if the stay is absent from its result.
unfoldable pub entry_points_of : ℕ → List Link → List Entry → ℤ
entry_points_of stay_id links entries =
    sum_of (λ (l : Link). if l.trip_stay_id == stay_id then used_by entries l.entry_id else pos 0)
      links

unfoldable pub stay_before : TripStay → TripStay → Bool
stay_before a b = if a.check_in == b.check_in then ltb a.id b.id else ltb a.check_in b.check_in

-- The derived columns of a stay.
unfoldable pub with_links : Db → TripStay → TripStay
with_links db st = record st {
  entry_ids = entry_ids_of st.id db.links;
  entry_points = entry_points_of st.id db.links db.entries;
}

-- `ListStays`
unfoldable pub list_stays : ℕ → Db → List TripStay
unfolding stay_before
list_stays trip_id db =
    map (with_links db)
      (sort_slice stay_before (keep (λ (st : TripStay). st.trip_id == trip_id) db.stays))

-- Whether an entry is linked to a stay of the trip.
abbrev pub of_trip : ℕ → Db → ℕ → Bool
of_trip trip_id db id =
    any
      (λ (l : Link).
        l.entry_id == id
        && any (λ (st : TripStay). st.id == l.trip_stay_id && st.trip_id == trip_id) db.stays)
      db.links

abbrev pub of_stay : ℕ → Db → ℕ → Bool
of_stay stay_id db id = any (λ (l : Link). l.entry_id == id && l.trip_stay_id == stay_id) db.links

-- `DeleteTrip` of the queries: the trip's stays go with it, and their links with them.
unfoldable pub delete_trip_row : ℕ → Db → Db
delete_trip_row trip_id db = record db {
  trips = keep (λ (t : Trip). not (t.id == trip_id)) db.trips;
  stays = keep (λ (st : TripStay). not (st.trip_id == trip_id)) db.stays;
  links =
      keep
        (λ (l : Link).
          not (any (λ (st : TripStay). st.id == l.trip_stay_id && st.trip_id == trip_id) db.stays))
        db.links;
}

-- `DeleteTripStay`
unfoldable pub delete_trip_stay : ℕ → Db → Db
delete_trip_stay stay_id db = record db {
  stays = keep (λ (st : TripStay). not (st.id == stay_id)) db.stays;
  links = keep (λ (l : Link). not (l.trip_stay_id == stay_id)) db.links;
}

-- `UnbookTrip`
unfoldable pub unbook_trip : ℕ → Db → Db
unfolding delete_entries
unbook_trip trip_id db = delete_entries (of_trip trip_id db) db

-- `DeleteTrip`: the entries first.
unfoldable pub delete_trip : ℕ → Db → Db
unfolding delete_entries delete_trip_row
delete_trip trip_id db = delete_trip_row trip_id (delete_entries (of_trip trip_id db) db)

-- `DeleteStay`
unfoldable pub delete_stay : ℕ → Db → Db
unfolding delete_entries delete_trip_stay
delete_stay stay_id db = delete_trip_stay stay_id (delete_entries (of_stay stay_id db) db)
