-- ===== src/Ledger/Import.antt =====
-- internal/ledger/trip_import.go: trips that were booked, and entered in the ledger, by hand.
pub mod Checks
use lineleader.Base.{
  ℕ, Bool, not, ◌||◌, Option, none, some, List, [], ◌∷◌, any, ltb, ◌==◌, str_eq, if◌then◌else◌,
  length,
}
use lineleader.Base.Int.{ℤ, pos, ◌+ℤ◌, ◌-ℤ◌, ltb_ℤ, leb_ℤ, eqb_ℤ}
use lineleader.Ledger.Types.{Entry, Trip, TripStay, kind_usage}
use lineleader.Ledger.Store.Rows.{
  Link, Db, import_invalid, import_no_entries, import_entry_not_found, import_entry_not_usage,
  import_entry_linked, import_duplicate_entry, import_points_mismatch, Result, ok, err, Action,
  pure, ◌>>=◌, ◌>>◌, modify,
}
use lineleader.Ledger.Store.Queries.{add_trip}
use lineleader.Ledger.Store.Stays.{add_stay, insert_trip_stay_entry}

pub record ImportedStay : Type 0 where
  pub stay : TripStay
  pub entry_ids : List ℕ

-- The checks of the first loop: the nights are those between the days of the stay.
unfoldable pub stay_is_invalid : TripStay → Bool
stay_is_invalid st =
    let want = pos st.check_out -ℤ pos st.check_in in
    ltb_ℤ want (pos 1) || not (eqb_ℤ st.nights want) || ltb_ℤ st.points (pos 0)

-- SELECT kind, used FROM entry WHERE id = $1
unfoldable pub find_entry : ℕ → List Entry → Option Entry
find_entry id [] = none
find_entry id (e ∷ es) = let rest = find_entry id es in if e.id == id then some e else rest

-- What the loop over the entries of a stay has seen, and the sum so far.
pub record Tally : Type 0 where
  pub seen : List ℕ
  pub sum : ℤ

-- The tests of that loop's body on the row that was found.
unfoldable pub check_found : Db → ℕ → Tally → Option Entry → Result Tally
check_found db id t none = err import_entry_not_found
check_found db id t (some e) =
    if not (str_eq e.kind kind_usage) || leb_ℤ e.used (pos 0)
    then err import_entry_not_usage
    else (if any (λ (l : Link). l.entry_id == id) db.links
        then err import_entry_linked
        else ok (record { seen = id ∷ t.seen; sum = t.sum +ℤ e.used }))

-- The body of that loop.
unfoldable pub check_entry : Db → ℕ → Tally → Result Tally
check_entry db id t =
    if any (λ i. i == id) t.seen
    then err import_duplicate_entry
    else check_found db id t (find_entry id db.entries)

unfoldable pub check_entries : Db → List ℕ → Tally → Result Tally
check_entries db [] t = ok t
check_entries db (id ∷ ids) t = elim (check_entry db id t) [
  | ok t' ↦ check_entries db ids t'
  | err e ↦ err e
]

-- The second loop; it hands on the entries that it has seen.
unfoldable pub check_stays : Db → List ImportedStay → List ℕ → Result (List ℕ)
check_stays db [] seen = ok seen
check_stays db (is ∷ rest) seen =
    if length is.entry_ids == 0
    then err import_no_entries
    else elim (check_entries db is.entry_ids (record { seen = seen; sum = pos 0 })) [
      | err e ↦ err e
      | ok t ↦
          if not (eqb_ℤ t.sum is.stay.points)
          then err import_points_mismatch
          else check_stays db rest t.seen
    ]

unfoldable pub link_entries : ℕ → List ℕ → Db → Db
link_entries stay_id [] db = db
link_entries stay_id (id ∷ ids) db = link_entries stay_id ids (insert_trip_stay_entry stay_id id db)

-- The last loop.
unfoldable pub import_stays : ℕ → List ImportedStay → Action (Unit {0})
import_stays trip_id [] = pure tt
import_stays trip_id (is ∷ rest) = do
  stay_id ← add_stay (record is.stay { trip_id = trip_id })
  modify (link_entries stay_id is.entry_ids)
  import_stays trip_id rest

-- `ImportBookedTrip`; an error leaves no tables, as the rollback leaves the old ones.
unfoldable pub import_booked_trip : Trip → List ImportedStay → Action ℕ
import_booked_trip t stays db =
    let t' = record t { min_nights = if ltb_ℤ t.min_nights (pos 1) then pos 1 else t.min_nights } in
    if length stays == 0
      || ltb t.end_date t.start_date
      || any (λ (is : ImportedStay). stay_is_invalid is.stay) stays
    then err import_invalid
    else elim (check_stays db stays []) [
      | err e ↦ err e
      | ok seen ↦ (do trip_id ← add_trip t'; import_stays trip_id stays; pure trip_id) db
    ]
