-- ===== src/Ledger/Store/Queries.antt =====
-- The single statements: internal/ledger/queries/*.sql as the methods of store.go, entries.go,
-- dues.go, trip.go and trip_book.go call them.
use lineleader.Base.{
  ℕ, ◌+◌, Bool, true, false, not, ◌&&◌, ◌||◌, Option, none, some, List, [], ◌∷◌, ◌++◌, map, ltb,
  ◌==◌, if◌then◌else◌, str_eq, keep, any,
}
use lineleader.Base.Int.{ℤ, pos, ◌+ℤ◌, ◌-ℤ◌, ltb_ℤ, leb_ℤ, eqb_ℤ}
use lineleader.Base.Sort.{sort_slice}
use lineleader.Ledger.Types.{Contract, Entry, DuesRate, Trip, UseYearSummary}
use lineleader.Ledger.Store.Rows.{
  Link, Db, trip_not_found, check_violation, foreign_key_violation, invalid_rate, invalid_use_year,
  ok, err, Action, ◌>>◌, modify, raise_if, to_int32,
}

-- `AddContract`
unfoldable pub add_contract : Contract → Action ℕ
add_contract c db = ok (
  db.next_contract,
  record db {
    contracts =
        db.contracts
        ++ record c {
          id = db.next_contract;
          annual_points = to_int32 c.annual_points;
          term_years = to_int32 c.term_years;
        }
          ∷ [];
    next_contract = db.next_contract + 1;
  },
)

-- `ListContracts`
unfoldable pub list_contracts : Db → List Contract
list_contracts db = sort_slice (λ a b. ltb a.id b.id) db.contracts

-- `UpdateContract`
unfoldable pub update_contract : Contract → Db → Db
update_contract c db = record db {
  contracts =
      map
        (λ (row : Contract).
          if row.id == c.id
          then record c {
            annual_points = to_int32 c.annual_points;
            term_years = to_int32 c.term_years;
          }
          else row)
        db.contracts;
}

-- `DeleteContract`: `entry.contract_id` is ON DELETE SET NULL.
unfoldable pub delete_contract : ℕ → Db → Db
delete_contract id db = record db {
  contracts = keep (λ (c : Contract). not (c.id == id)) db.contracts;
  entries =
      map
        (λ (e : Entry). elim e.contract_id [
          | none ↦ e
          | some c ↦ if c == id then record e { contract_id = none } else e
        ])
        db.entries;
}

-- The row that `AddEntry` and `UpdateEntry` write.
abbrev pub entry_row : ℕ → Entry → Entry
entry_row id e = record {
  id = id;
  use_year = to_int32 e.use_year;
  date = e.date;
  desc = e.desc;
  kind = e.kind;
  allotted = to_int32 e.allotted;
  used = to_int32 e.used;
  tag = e.tag;
  contract_id = e.contract_id;
  running_balance = pos 0;
  cost = pos 0;
  cost_known = false;
  cost_projected = false;
}

-- entry.contract_id REFERENCES contracts.
unfoldable pub contract_known : Option ℕ → Db → Bool
contract_known none db = true
contract_known (some id) db = any (λ (c : Contract). c.id == id) db.contracts

-- The INSERT of `AddEntry` for an entry whose contract is there.
unfoldable pub insert_entry : Entry → Action ℕ
insert_entry e db = ok (
  db.next_entry,
  record db {
    entries = db.entries ++ entry_row db.next_entry e ∷ [];
    next_entry = db.next_entry + 1;
  },
)

-- `AddEntry`
unfoldable pub add_entry : Entry → Action ℕ
add_entry e db =
    if contract_known e.contract_id db then insert_entry e db else err foreign_key_violation

-- The UPDATE of `UpdateEntry`.
unfoldable pub update_rows : Entry → Db → Db
update_rows e db = record db {
  entries = map (λ (row : Entry). if row.id == e.id then entry_row e.id e else row) db.entries;
}

-- The statement meets a row.
unfoldable pub has_entry : ℕ → Db → Bool
has_entry id db = any (λ (row : Entry). row.id == id) db.entries

-- `UpdateEntry`
unfoldable pub update_entry : Entry → Action (Unit {0})
update_entry e db =
    if has_entry e.id db && not (contract_known e.contract_id db)
    then err foreign_key_violation
    else ok (tt, update_rows e db)

-- DELETE FROM entry for the ids that pass a test: `trip_stay_entry.entry_id` is ON DELETE CASCADE.
unfoldable pub delete_entries : (ℕ → Bool) → Db → Db
delete_entries gone db = record db {
  entries = keep (λ (e : Entry). not (gone e.id)) db.entries;
  links = keep (λ (l : Link). not (gone l.entry_id)) db.links;
}

-- `DeleteEntry`
unfoldable pub delete_entry : ℕ → Db → Db
delete_entry id = delete_entries (λ i. i == id)

entry_before : Entry → Entry → Bool
entry_before a b = if a.date == b.date then ltb a.id b.id else ltb a.date b.date

-- The loop of `ListEntries`, which fills in the running balance.
unfoldable pub with_balances : ℤ → List Entry → List Entry
with_balances balance [] = []
with_balances balance (e ∷ es) =
    let balance' = balance +ℤ (e.allotted -ℤ e.used) in
    record e { running_balance = balance' } ∷ with_balances balance' es

-- `ListEntries`
unfoldable pub list_entries : Db → List Entry
unfolding entry_before
list_entries db = with_balances (pos 0) (sort_slice entry_before db.entries)

-- One row of GROUP BY use_year more.
unfoldable pub add_to_year : Entry → List UseYearSummary → List UseYearSummary
add_to_year e [] =
    record {
      use_year = e.use_year;
      allotted = e.allotted;
      used = e.used;
      net = e.allotted -ℤ e.used;
      over_borrowed = ltb_ℤ (e.allotted -ℤ e.used) (pos 0);
      cost = pos 0;
      cost_known = false;
      cost_projected = false;
    }
    ∷ []
add_to_year e (s ∷ ss) =
    if eqb_ℤ s.use_year e.use_year
    then (let allotted' = s.allotted +ℤ e.allotted in
        let used' = s.used +ℤ e.used in
        record s {
          allotted = allotted';
          used = used';
          net = allotted' -ℤ used';
          over_borrowed = ltb_ℤ (allotted' -ℤ used') (pos 0);
        }
        ∷ ss)
    else s ∷ add_to_year e ss

unfoldable pub summaries_of : List Entry → List UseYearSummary
summaries_of [] = []
summaries_of (e ∷ es) = add_to_year e (summaries_of es)

-- `UseYearSummaries`: GROUP BY use_year ORDER BY use_year, with the net of each year.
unfoldable pub use_year_summaries : Db → List UseYearSummary
use_year_summaries db = sort_slice (λ a b. ltb_ℤ a.use_year b.use_year) (summaries_of db.entries)

-- `ListDuesRates`
unfoldable pub list_dues_rates : Db → List DuesRate
list_dues_rates db = sort_slice (λ a b. ltb_ℤ a.use_year b.use_year) db.dues

-- `UpsertDuesRate`
unfoldable pub upsert_dues_rate : DuesRate → Action (Unit {0})
upsert_dues_rate d = do
  raise_if (leb_ℤ d.rate (pos 0)) invalid_rate
  raise_if (ltb_ℤ d.use_year (pos 1000) || ltb_ℤ (pos 9999) d.use_year) invalid_use_year
  modify λ db. record db {
    dues =
        keep (λ (r : DuesRate). not (eqb_ℤ r.use_year (to_int32 d.use_year))) db.dues
        ++ record d { use_year = to_int32 d.use_year } ∷ [];
  }

-- `DeleteDuesRate`
unfoldable pub delete_dues_rate : ℤ → Db → Db
delete_dues_rate year db = record db {
  dues = keep (λ (r : DuesRate). not (eqb_ℤ r.use_year (to_int32 year))) db.dues;
}

-- The columns of a trip as they are written, and the CHECKs of the table trip on them.
abbrev pub trip_row : Trip → Trip
trip_row t = record t {
  min_nights = to_int32 t.min_nights;
  budget_override = elim t.budget_override [ none ↦ none | some b ↦ some (to_int32 b) ];
}

trip_checks : Trip → Bool
trip_checks t =
    ltb t.start_date t.end_date
    && leb_ℤ (pos 1) t.min_nights
    && leb_ℤ t.min_nights (pos 30)
    && elim t.budget_override [ none ↦ true | some b ↦ leb_ℤ (pos 0) b ]
    && (str_eq t.filter_mode "" || str_eq t.filter_mode "override")

-- `AddTrip`
unfoldable pub add_trip : Trip → Action ℕ
unfolding trip_checks
add_trip t db =
    let row = record (trip_row t) { id = db.next_trip } in
    if trip_checks row
    then ok (db.next_trip, record db { trips = db.trips ++ row ∷ []; next_trip = db.next_trip + 1 })
    else err check_violation

-- `UpdateTrip`
unfoldable pub update_trip : Trip → Action (Unit {0})
unfolding trip_checks
update_trip t db =
    if not (trip_checks (trip_row t)) && any (λ (row : Trip). row.id == t.id) db.trips
    then err check_violation
    else ok (
      tt,
      record db {
        trips = map (λ (row : Trip). if row.id == t.id then trip_row t else row) db.trips;
      },
    )

unfoldable pub find_trip : ℕ → List Trip → Option Trip
find_trip id [] = none
find_trip id (t ∷ ts) = if t.id == id then some t else find_trip id ts

-- `GetTrip`
unfoldable pub get_trip : ℕ → Action Trip
unfolding find_trip
get_trip id db = elim (find_trip id db.trips) [ none ↦ err trip_not_found | some t ↦ ok (t, db) ]

-- `ListTrips`
unfoldable pub list_trips : Db → List Trip
list_trips db =
    sort_slice
      (λ (a b : Trip).
        if a.start_date == b.start_date then ltb a.id b.id else ltb a.start_date b.start_date)
      db.trips
