-- ===== src/Web/Trips/Created.antt =====
-- internal/web/handlers.go: a trip form that is accepted makes a trip that the table accepts.
use mathlib.Core.Path.{subst}
use lineleader.Base.{
  ◌+◌, ◌≡◌, refl, Bool, true, false, not, Option, none, some, [], ◌∷◌, ◌++◌, String, arith, ltb,
  str_eq,
}
use lineleader.Base.Int.{ℤ, pos, negsuc, leb_ℤ, ltb_ℤ}
use lineleader.Base.Text.{codes, parse_int, trim_string}
use lineleader.Calendar.{Time}
use lineleader.Dvc.Search.{max_nights}
use lineleader.Ledger.Store.Queries.{add_trip}
use lineleader.Ledger.Store.Rows.{Db, ok, to_int32}
use lineleader.Ledger.Types.{Trip}
use lineleader.Web.LedgerForms.{Desk, Form}
use lineleader.Web.Trips.Forms.{
  Read, TripError, ◌>>=◌, dates_reversed, error_if, invalid, invalid_date, invalid_min_nights,
  min_nights_too_large, min_nights_too_small, name_required, or_error, parse_date, parse_trip_form,
  unreadable_form, valid,
}
use lineleader.Web.Trips.Handlers.{Process, create_trip, trip_created, if_read, to_trip}

-- What is read satisfies a predicate.
abbrev OnRead : {A : Type 0} → (A → Type 0) → Read A → Type 0
OnRead P (valid a) = P a
OnRead P (invalid e) = Unit

OnRead-bind :
    {A B : Type 0} (P : B → Type 0) (r : Read A) (f : A → Read B)
    → ((a : A) → r ≡ valid a → OnRead P (f a))
    → OnRead P (r >>= f)
OnRead-bind P (valid a) f h = h a refl
OnRead-bind P (invalid e) f h = tt

no_error : (b : Bool) (e : TripError) (u : Unit {0}) → error_if b e ≡ valid u → b ≡ false
no_error true e u h = absurd (cc)
no_error false e u h = refl

-- A trip that the CHECKs accept, with no budget and no filters of its own.
abbrev IsNewTrip : Trip → Type 0
IsNewTrip t =
    (ltb t.start_date t.end_date ≡ true)
    × (ltb_ℤ t.min_nights (pos 1) ≡ false)
    × (ltb_ℤ (pos max_nights) t.min_nights ≡ false)
    × (t.budget_override ≡ none)
    × (t.filter_mode ≡ "")

-- The trip is what the form says, with the name trimmed, and has no budget and no filters.
abbrev pub IsOf : (String → String → Option Time) → Option Form → Trip → Type 0
IsOf parse_layout form t =
    (f : Form) × (form ≡ some f)
    × (t.name ≡ trim_string (f "name"))
    × (parse_date parse_layout (f "from") ≡ some t.start_date)
    × (parse_date parse_layout (f "to") ≡ some t.end_date)
    × (parse_int (codes (f "min_nights")) ≡ some t.min_nights)
    × (t.budget_override ≡ none)
    × (t.filter_mode ≡ "")
    × (t.exclude_resorts ≡ [])
    × (t.exclude_room_types ≡ [])

read_some :
    {A : Type 0} (e : TripError) (o : Option A) {a : A} → or_error e o ≡ valid a → o ≡ some a
read_some e none h = cc h
read_some e (some b) h = cc h

in_order : (from to : Time) → not (ltb from to) ≡ false → ltb from to ≡ true
in_order from to h = ground arith

parse_trip_form-IsNewTrip :
    (parse_layout : String → String → Option Time) (form : Option Form)
    → OnRead
        (λ (t : Trip). IsNewTrip t × IsOf parse_layout form t)
        (parse_trip_form parse_layout form)
unfolding parse_trip_form
parse_trip_form-IsNewTrip pl form =
    let P : Trip → Type 0 = λ t. IsNewTrip t × IsOf pl form t in
    OnRead-bind P (or_error unreadable_form form) _ λ f e0.
      OnRead-bind P (error_if (str_eq (trim_string (f "name")) "") name_required) _ λ u e1.
        OnRead-bind P (or_error invalid_date (parse_date pl (f "from"))) _ λ from e2.
          OnRead-bind P (or_error invalid_date (parse_date pl (f "to"))) _ λ to e3.
            OnRead-bind P (error_if (not (ltb from to)) dates_reversed) _ λ u' e4.
              OnRead-bind P (or_error invalid_min_nights (parse_int (codes (f "min_nights")))) _
                λ n e5. OnRead-bind P (error_if (ltb_ℤ n (pos 1)) min_nights_too_small) _ λ v e6.
                  OnRead-bind P (error_if (ltb_ℤ (pos max_nights) n) min_nights_too_large) _
                    λ v' e7. (
                      (
                        in_order from to (no_error (not (ltb from to)) dates_reversed u' e4),
                        no_error (ltb_ℤ n (pos 1)) min_nights_too_small v e6,
                        no_error (ltb_ℤ (pos max_nights) n) min_nights_too_large v' e7,
                        refl,
                        refl,
                      ),
                      (
                        f,
                        read_some unreadable_form form e0,
                        refl,
                        read_some invalid_date _ e2,
                        read_some invalid_date _ e3,
                        read_some invalid_min_nights _ e5,
                        refl,
                        refl,
                        refl,
                        refl,
                      ),
                    )

-- The row of a new trip.
abbrev pub new_row : Trip → Db → Trip
new_row t db = record t { id = db.next_trip }

to_int32_nights :
    (n : ℤ) → ltb_ℤ n (pos 1) ≡ false → ltb_ℤ (pos max_nights) n ≡ false → to_int32 n ≡ n
unfolding to_int32
to_int32_nights (pos n) h k = ground arith
to_int32_nights (negsuc n) h k = absurd (ground arith)

add_trip-IsNewTrip :
    (t : Trip) (db : Db)
    → IsNewTrip t
    → add_trip t db
      ≡ ok (
        db.next_trip,
        record db { trips = db.trips ++ new_row t db ∷ []; next_trip = db.next_trip + 1 },
      )
unfolding add_trip
add_trip-IsNewTrip t db (dates, low, high, budget, mode) =
    rw (to_int32_nights t.min_nights low high, budget, mode)
      (rw (dates, at_least t.min_nights low, at_most t.min_nights high) refl)
  where
    at_least : (n : ℤ) → ltb_ℤ n (pos 1) ≡ false → leb_ℤ (pos 1) n ≡ true
    at_least n h = ground arith

    at_most : (n : ℤ) → ltb_ℤ (pos max_nights) n ≡ false → leb_ℤ n (pos 30) ≡ true
    at_most n h = ground arith

-- A trip form that is accepted always makes a new trip: the table's CHECKs accept what the form
-- allows, the reply leads to the trip, and its row, with a new id, is put behind the others; nothing
-- else changes. The trip has the form's name, trimmed, and the dates and the nights that its fields
-- are read as, and no budget and no filters of its own.
pub create_trip_lem :
    (s : Process) (form : Option Form) (d : Desk) (t : Trip)
    → parse_trip_form s.parse_layout form ≡ valid t
    → (create_trip s form d ≡ (
      to_trip d.tables.next_trip,
      record d {
        tables = record d.tables {
          trips = d.tables.trips ++ new_row t d.tables ∷ [];
          next_trip = d.tables.next_trip + 1;
        };
      },
    ))
      × IsOf s.parse_layout form t
unfolding create_trip if_read trip_created
create_trip_lem s form d t e =
    let new =
      subst (OnRead (λ (t : Trip). IsNewTrip t × IsOf s.parse_layout form t)) e
        (parse_trip_form-IsNewTrip s.parse_layout form) in
    (rw (e, add_trip-IsNewTrip t d.tables new.0) refl, new.1)
