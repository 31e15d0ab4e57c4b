-- ===== src/Ledger/Booking/Posting.antt =====
-- What `bookTripOnce` writes: the entries and links that a list of draws posts, in order.
use lineleader.Base.{
  ℕ, ◌+◌, ◌≡◌, ap, ◌∙◌, List, [], ◌∷◌, ◌++◌, map, length, length-append, sym, suc, arith,
}
use mathlib.Core.List.{append_assoc, append-nil}
use native.Mathlib.Nat.{add-zero}
use lineleader.Ledger.Types.{PointDraw, Entry, Trip, TripStay}
use lineleader.Ledger.Store.Rows.{Link, Db, ok}
use lineleader.Ledger.Store.Queries.{entry_row, insert_entry}
use lineleader.Ledger.Store.Stays.{insert_trip_stay_entry}
use lineleader.Ledger.Booking.{draw_entry, post_draws}

-- A stay and one of its draws.
abbrev pub Posting : Type 0
Posting = TripStay × PointDraw

-- The entries, the links and the tables that a list of draws leaves behind.
unfoldable pub entries_from : Trip → ℕ → List Posting → List Entry
entries_from trip n [] = []
entries_from trip n ((st, draw) ∷ ps) =
    entry_row n (draw_entry trip st draw) ∷ entries_from trip (n + 1) ps

unfoldable pub links_from : ℕ → List Posting → List Link
links_from n [] = []
links_from n ((st, draw) ∷ ps) =
    record { trip_stay_id = st.id; entry_id = n } ∷ links_from (n + 1) ps

abbrev pub with_postings : Trip → List Posting → Db → Db
with_postings trip ps db = record db {
  entries = db.entries ++ entries_from trip db.next_entry ps;
  links = db.links ++ links_from db.next_entry ps;
  next_entry = db.next_entry + length ps;
}

abbrev pub postings : TripStay → List PointDraw → List Posting
postings st = map (λ draw. (st, draw))

tables :
    (db : Db) {es es' : List Entry} {ls ls' : List Link} {n n' : ℕ}
    → es ≡ es'
    → ls ≡ ls'
    → n ≡ n'
    → (record db { entries = es; links = ls; next_entry = n })
      ≡ (record db { entries = es'; links = ls'; next_entry = n' })
tables db p q r = λ i. record db { entries = p i; links = q i; next_entry = r i }

entries_from-append :
    (trip : Trip) (n : ℕ) (ps qs : List Posting)
    → entries_from trip n ps ++ entries_from trip (n + length ps) qs
      ≡ entries_from trip n (ps ++ qs)
unfolding entries_from
entries_from-append trip n [] qs = ap (λ k. entries_from trip k qs) (add-zero n)
entries_from-append trip n (p ∷ ps) qs =
    let shift : n + suc (length ps) ≡ n + 1 + length ps = omega arith in
    rw (shift, entries_from-append trip (n + 1) ps qs)

links_from-append :
    (n : ℕ) (ps qs : List Posting)
    → links_from n ps ++ links_from (n + length ps) qs ≡ links_from n (ps ++ qs)
unfolding links_from
links_from-append n [] qs = ap (λ k. links_from k qs) (add-zero n)
links_from-append n (p ∷ ps) qs =
    let shift : n + suc (length ps) ≡ n + 1 + length ps = omega arith in
    rw (shift, links_from-append (n + 1) ps qs)

pub with_postings-append :
    (trip : Trip) (ps qs : List Posting) (db : Db)
    → with_postings trip qs (with_postings trip ps db) ≡ with_postings trip (ps ++ qs) db
with_postings-append trip ps qs db =
    tables db
      (append_assoc db.entries _ _
        ∙ ap (λ es. db.entries ++ es) (entries_from-append trip db.next_entry ps qs))
      (append_assoc db.links _ _
        ∙ ap (λ ls. db.links ++ ls) (links_from-append db.next_entry ps qs))
      (rw (length-append ps qs) (omega arith))

pub with_postings-nil : (trip : Trip) (db : Db) → db ≡ with_postings trip [] db
unfolding entries_from links_from
with_postings-nil trip db =
    tables db (sym (append-nil db.entries)) (sym (append-nil db.links)) (omega arith)

pub post_draws_lem :
    (trip : Trip) (st : TripStay) (draws : List PointDraw) (db : Db)
    → post_draws trip st draws db ≡ ok (tt, with_postings trip (postings st draws) db)
unfolding post_draws insert_entry insert_trip_stay_entry entries_from links_from
post_draws_lem trip st [] db = ap (λ d. ok (tt, d)) (with_postings-nil trip db)
post_draws_lem trip st (draw ∷ draws) db =
    post_draws_lem trip st draws (with_postings trip ((st, draw) ∷ []) db)
    ∙ ap (λ d. ok (tt, d)) (with_postings-append trip ((st, draw) ∷ []) (postings st draws) db)
