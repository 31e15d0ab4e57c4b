-- ===== src/Ledger/Booking/Effect.antt =====
-- What a successful booking does to the balances of the lots.
use lineleader.Base.{
  ℕ, ◌+◌, ◌≡◌, refl, sym, ◌∙◌, inl, inr, true, Option, none, some, List, [], ◌∷◌, arith, Bool-cases,
  sum_of-append, All, All-append,
}
use mathlib.Core.Path.{subst}
use mathlib.Core.Option.{some-injective}
use mathlib.Core.List.{map-append}
use lineleader.Base.Int.{ℤ, pos, ◌-ℤ◌, ◌≤ℤ◌, ◌<ℤ◌, leb_ℤ, ltb_ℤ, int_laws, leb_ℤ→gt}
use lineleader.Calendar.{Calendar}
use lineleader.Ledger.Types.{Contract, Entry, PointLot, PointDraw, Trip, TripStay}
use lineleader.Ledger.Allocation.{allocate_stay_points}
use lineleader.Ledger.Allocation.Draws.{drawn_from}
use lineleader.Ledger.Allocation.Laws.{
  allocate_stay_points_free, allocate_stay_points-IsFunding, allocate_stay_points-use_year,
  draws_le_sum,
}
use lineleader.Ledger.Allocation.Remaining.{remaining_of-append}
use lineleader.Ledger.Store.Rows.{Db, ok, to_int32, InInt32, InInt32-between}
use lineleader.Ledger.Store.Queries.{get_trip}
use lineleader.Ledger.Store.Stays.{list_stays}
use lineleader.Ledger.Store.Snapshots.{snapshot, snapshot_lots, snapshot_consumed}
use lineleader.Ledger.Store.Balance.{
  counted_for, tallied, balance_in, remaining_of-snapshot, All-snapshot_lots,
}
use lineleader.Ledger.Booking.{draw_entry, book_trip_once}
use lineleader.Ledger.Booking.Posting.{Posting, entries_from, with_postings}
use lineleader.Ledger.Booking.Decision.{
  Funds, done, skip, fund, posted, decision, book_trip_once_lem, fund_stays-Funds,
}
use lineleader.Ledger.Booking.Overdraft.{draws_of, draws_of-postings, Funds_keeps}

-- A draw is positive, and storing it changes neither its points nor its use year.
abbrev pub Storable : PointDraw → Type 0
Storable d = (pos 0 <ℤ d.points) × InInt32 d.points × InInt32 d.use_year

positive_test : (p : ℤ) → pos 0 <ℤ p → ltb_ℤ (pos 0) p ≡ true
positive_test p h = ground arith

used-entries_from :
    (trip : Trip) (i : ℕ) (y : ℤ) (n : ℕ) (ps : List Posting)
    → All Storable (draws_of ps)
    → tallied (λ e. e.used) i y (entries_from trip n ps) ≡ drawn_from i y (draws_of ps)
unfolding entries_from draw_entry
used-entries_from trip i y n [] a = refl
used-entries_from trip i y n ((st, d) ∷ ps) a =
    rw (used-entries_from trip i y (n + 1) ps a.1, a.0.1, a.0.2, positive_test d.points a.0.0) refl

allotted-entries_from :
    (trip : Trip) (i : ℕ) (y : ℤ) (n : ℕ) (ps : List Posting)
    → tallied (λ e. e.allotted) i y (entries_from trip n ps) ≡ pos 0
unfolding entries_from draw_entry to_int32
allotted-entries_from trip i y n [] = refl
allotted-entries_from trip i y n ((st, d) ∷ ps) =
    rw (allotted-entries_from trip i y (n + 1) ps) (omega int_laws)

-- Posting draws takes their points off the balances.
balance-with_postings :
    (trip : Trip) (i : ℕ) (y : ℤ) (ps : List Posting) (db : Db)
    → All Storable (draws_of ps)
    → balance_in i y (with_postings trip ps db) ≡ balance_in i y db -ℤ drawn_from i y (draws_of ps)
balance-with_postings trip i y ps db a =
    rw
      (
        sum_of-append (counted_for (λ e. e.used) i y) db.entries
            (entries_from trip db.next_entry ps),
        sum_of-append (counted_for (λ e. e.allotted) i y) db.entries
            (entries_from trip db.next_entry ps),
        used-entries_from trip i y db.next_entry ps a,
        allotted-entries_from trip i y db.next_entry ps,
      )
      (omega int_laws)

module _ (cal : Calendar) (contracts : List Contract) (lots : List PointLot) (legacy_used : ℤ) where
  allocated-Storable :
      (consumed draws : List PointDraw) (st : TripStay)
      → All (λ (lot : PointLot). InInt32 lot.use_year) lots
      → InInt32 st.points
      → allocate_stay_points cal contracts lots consumed st.check_in st.points ≡ some draws
      → All Storable draws
  allocated-Storable consumed draws st years fits e = elim (Bool-cases (leb_ℤ st.points (pos 0))) [
    | inl free ↦
        subst (All Storable)
          (some-injective _ _ (
            sym (allocate_stay_points_free cal contracts lots consumed st.check_in st.points free)
            ∙ e))
          tt
    | inr paid ↦
        let h = leb_ℤ→gt st.points (pos 0) paid in
        let f =
          allocate_stay_points-IsFunding cal contracts lots consumed st.check_in st.points draws h
            e in
        All-zip draws (rw f.total at (draws_le_sum draws f.positive)) f.positive (
          allocate_stay_points-use_year cal contracts lots consumed st.check_in InInt32 st.points
            draws h e years)
  ]
    where
      All-zip :
          (draws : List PointDraw)
          → All (λ d. d.points ≤ℤ st.points) draws
          → All (λ d. pos 0 <ℤ d.points) draws
          → All (λ d. InInt32 d.use_year) draws
          → All Storable draws
      All-zip [] l p y = tt
      All-zip (d ∷ draws) l p y = (
        (p.0, InInt32-between d.points st.points (omega arith) l.0 fits, y.0),
        All-zip draws l.1 p.1 y.1,
      )

  Funds-Storable :
      {consumed : List PointDraw} {stays : List TripStay} {ps : List Posting}
      → Funds cal contracts lots legacy_used consumed stays ps
      → All (λ (lot : PointLot). InInt32 lot.use_year) lots
      → All (λ (st : TripStay). InInt32 st.points) stays
      → All Storable (draws_of ps)
  Funds-Storable (done consumed) years fits = tt
  Funds-Storable (skip consumed st b f) years fits = Funds-Storable f years fits.1
  Funds-Storable (fund consumed st draws ps b c a f same) years fits =
      rw (same, map-append, draws_of-postings st draws)
        (All-append Storable draws (draws_of ps)
          (allocated-Storable consumed draws st years fits.0 a) (Funds-Storable f years fits.1))

-- The columns that hold years and points are of type INTEGER.
pub record IsStored (trip_id : ℕ) (db : Db) : Type 0 where
  pub years : All (λ (e : Entry). InInt32 e.use_year) db.entries
  pub points : All (λ (st : TripStay). InInt32 st.points) (list_stays trip_id db)

module _ (cal : Calendar) (trip_id : ℕ) (trip : Trip) (db db' : Db)
    (found : get_trip trip_id db ≡ ok (trip, db))
    (booking : book_trip_once cal trip_id db ≡ ok (tt, db')) where
  -- What a successful booking has posted.
  pub book_trip_once-eq-ok :
      (ps : List Posting) × (decision cal trip_id db ≡ some ps) × (db' ≡ with_postings trip ps db)
  book_trip_once-eq-ok =
      decided (decision cal trip_id db)
        (sym (book_trip_once_lem cal trip_id trip db found) ∙ booking)
    where
      decided :
          (o : Option (List Posting))
          → posted trip o db ≡ ok (tt, db')
          → (ps : List Posting) × (o ≡ some ps) × (db' ≡ with_postings trip ps db)
      decided none e = cc
      decided (some ps) e = (ps, refl, cc)

  -- The stays as the booking sees them, and the draws that it posts.
  booked_Funds :
      Funds cal
        (snapshot db).contracts
        (snapshot db).lots
        (snapshot db).legacy_used
        (snapshot db).consumed
        (list_stays trip_id db)
        book_trip_once-eq-ok.0
  booked_Funds =
      fund_stays-Funds cal (snapshot db).contracts (snapshot db).lots (snapshot db).legacy_used
        (snapshot db).consumed (list_stays trip_id db) book_trip_once-eq-ok.0 book_trip_once-eq-ok.1

  booked-Storable : IsStored trip_id db → All Storable (draws_of book_trip_once-eq-ok.0)
  unfolding snapshot
  booked-Storable s =
      Funds-Storable cal (snapshot db).contracts (snapshot db).lots (snapshot db).legacy_used
        booked_Funds (All-snapshot_lots InInt32 db s.years) s.points

  -- If the trip exists, its booking succeeds, and the use years of the entries and the points of
  -- the stays fit their columns, then a lot whose balance (positive allotments less positive uses of the entries
  -- with its contract and use year) was not negative before has one that is not negative after.
  pub book_trip_once-balance :
      (i : ℕ) (y : ℤ)
      → IsStored trip_id db
      → pos 0 ≤ℤ balance_in i y db
      → pos 0 ≤ℤ balance_in i y db'
  unfolding snapshot
  book_trip_once-balance i y s k =
      let ps = book_trip_once-eq-ok.0 in
      let before = rw (← remaining_of-snapshot i y db) at k in
      let after =
        Funds_keeps cal (snapshot db).contracts (snapshot db).lots (snapshot db).legacy_used i y
          booked_Funds before in
      rw (book_trip_once-eq-ok.2, balance-with_postings trip i y ps db (booked-Storable s))
        (rw
          (
            remaining_of-append i y (snapshot_lots db) (snapshot_consumed db) (draws_of ps),
            remaining_of-snapshot i y db,
          )
          at after)
