-- ===== src/Ledger/Booking.antt =====
-- internal/ledger/trip_book.go: `BookTrip`. An error of the transaction gives back no tables, so
-- what was written before it is rolled back.
pub mod Posting
pub mod Decision
pub mod Overdraft
pub mod Effect
use Prim.Native.String.{◌++◌ as str_append}
use lineleader.Base.{
  ℕ, zero, suc, Bool, true, false, Option, none, some, List, [], ◌∷◌, ◌++◌, String, if◌then◌else◌,
}
use lineleader.Base.Int.{ℤ, pos, ltb_ℤ}
use lineleader.Calendar.{Calendar}
use lineleader.Ledger.Types.{
  Contract, Entry, PointLot, PointDraw, Trip, TripStay, Disposition, banked, current, borrowed,
  blank, booked, kind_usage,
}
use lineleader.Ledger.Allocation.{allocate_stay_points}
use lineleader.Ledger.Accounting.{Snapshot, available_points}
use lineleader.Ledger.Store.Rows.{
  Db, Error, insufficient_points, serialization_failure, Result, ok, err, Action, pure, raise,
  ◌>>=◌, ◌>>◌, gets, modify,
}
use lineleader.Ledger.Store.Queries.{insert_entry, get_trip}
use lineleader.Ledger.Store.Stays.{insert_trip_stay_entry, list_stays}
use lineleader.Ledger.Store.Snapshots.{snapshot}

-- `DispositionTag`
unfoldable pub disposition_tag : Disposition → String
disposition_tag banked = "Bank"
disposition_tag borrowed = "Borrow"
disposition_tag current = ""
disposition_tag blank = ""

-- The entry that one draw posts.
unfoldable pub draw_entry : Trip → TripStay → PointDraw → Entry
draw_entry trip st draw = record {
  id = 0;
  use_year = draw.use_year;
  date = st.check_in;
  desc =
      str_append trip.name (str_append " — " (str_append st.resort (str_append " " st.room_type)));
  kind = kind_usage;
  allotted = pos 0;
  used = draw.points;
  tag = disposition_tag draw.disposition;
  contract_id = some draw.contract_id;
  running_balance = pos 0;
  cost = pos 0;
  cost_known = false;
  cost_projected = false;
}

-- The inner loop: an entry and a link for each draw.
unfoldable pub post_draws : Trip → TripStay → List PointDraw → Action (Unit {0})
post_draws trip st [] = pure tt
post_draws trip st (draw ∷ draws) = do
  new_id ← insert_entry (draw_entry trip st draw)
  modify (insert_trip_stay_entry st.id new_id)
  post_draws trip st draws

module _ (cal : Calendar) (trip : Trip) (contracts : List Contract) (lots : List PointLot)
    (legacy_used : ℤ) where
  -- The loop of `bookTripOnce` over the stays that are left.
  unfoldable pub book_stays : List PointDraw → List TripStay → Action (Unit {0})
  book_stays consumed [] = pure tt
  book_stays consumed (st ∷ stays) = elim (booked st) [
    | true ↦ book_stays consumed stays
    | false ↦ elim (ltb_ℤ (available_points lots consumed legacy_used) st.points) [
      | true ↦ raise insufficient_points
      | false ↦ elim (allocate_stay_points cal contracts lots consumed st.check_in st.points) [
        | none ↦ raise insufficient_points
        | some draws ↦ post_draws trip st draws >> book_stays (consumed ++ draws) stays
      ]
    ]
  ]

-- `bookTripOnce`
unfoldable pub book_trip_once : Calendar → ℕ → Action (Unit {0})
book_trip_once cal trip_id = do
  trip ← get_trip trip_id
  stays ← gets (list_stays trip_id)
  s ← gets snapshot
  book_stays cal trip s.contracts s.lots s.legacy_used s.consumed stays

-- `BookTrip` with the attempts that are left. The environment says what is committed before each
-- attempt and which attempts lose a serialization conflict.
unfoldable pub book_trip : Calendar → (ℕ → Db) → (ℕ → Bool) → ℕ → ℕ → ℕ → Result (Unit {0} × Db)
book_trip cal world conflict trip_id zero n = err serialization_failure
book_trip cal world conflict trip_id (suc attempts) n =
    let again = book_trip cal world conflict trip_id attempts (suc n) in
    if conflict n then again else book_trip_once cal trip_id (world n)
