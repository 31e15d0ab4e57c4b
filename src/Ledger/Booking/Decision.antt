-- ===== src/Ledger/Booking/Decision.antt =====
-- The loop of `bookTripOnce` in two steps: a decision that reads no table, and the posting of what
-- was decided. `PreviewTripFunding` makes the same decision.
use lineleader.Base.{
  ◌≡◌, refl, ap, ◌∙◌, inl, inr, Bool, true, false, Option, none, some, List, [], ◌∷◌, ◌++◌,
  Bool-cases, Option-cases, is_some, sym, ℕ,
}
use mathlib.Core.Path.{subst}
use mathlib.Core.Option.{some-injective}
use lineleader.Base.Int.{ℤ, ltb_ℤ}
use lineleader.Calendar.{Calendar}
use lineleader.Ledger.Types.{Contract, PointLot, PointDraw, Trip, TripStay, booked}
use lineleader.Ledger.Allocation.{allocate_stay_points}
use lineleader.Ledger.Accounting.{available_points, preview_stays, preview_trip_funding}
use lineleader.Ledger.Store.Rows.{Db, insufficient_points, Result, ok, err, Action, >>=-ok}
use lineleader.Ledger.Store.Queries.{get_trip}
use lineleader.Ledger.Store.Stays.{list_stays}
use lineleader.Ledger.Store.Snapshots.{snapshot}
use lineleader.Ledger.Booking.{post_draws, book_stays, book_trip_once}
use lineleader.Ledger.Booking.Posting.{
  Posting, postings, with_postings, post_draws_lem, with_postings-append, with_postings-nil,
}

module _ (cal : Calendar) (contracts : List Contract) (lots : List PointLot) (legacy_used : ℤ) where
  -- The draws for one stay, if both tests pass.
  unfoldable pub fund_stay : List PointDraw → TripStay → Option (List PointDraw)
  fund_stay consumed st = elim (ltb_ℤ (available_points lots consumed legacy_used) st.points) [
    | true ↦ none
    | false ↦ allocate_stay_points cal contracts lots consumed st.check_in st.points
  ]

  -- The draws for all unbooked stays, each with the stay that it funds.
  unfoldable pub fund_stays : List PointDraw → List TripStay → Option (List Posting)
  fund_stays consumed [] = some []
  fund_stays consumed (st ∷ stays) = elim (booked st) [
    | true ↦ fund_stays consumed stays
    | false ↦ elim (fund_stay consumed st) [
      | none ↦ none
      | some draws ↦ elim (fund_stays (consumed ++ draws) stays) [
        | none ↦ none
        | some ps ↦ some (postings st draws ++ ps)
      ]
    ]
  ]

module _ (cal : Calendar) (contracts : List Contract) (lots : List PointLot) (legacy_used : ℤ) where
  -- The successful runs of the loop, as a relation of the draws consumed before, the stays and
  -- what is posted for them.
  pub data Funds : List PointDraw → List TripStay → List Posting → Type 0 where
    done : (consumed : List PointDraw) → Funds consumed [] []
    skip :
        (consumed : List PointDraw) (st : TripStay) {stays : List TripStay} {ps : List Posting}
        → booked st ≡ true
        → Funds consumed stays ps
        → Funds consumed (st ∷ stays) ps
    fund :
        (consumed : List PointDraw) (st : TripStay) (draws : List PointDraw) {stays : List TripStay}
        (ps : List Posting) {all : List Posting}
        → booked st ≡ false
        → ltb_ℤ (available_points lots consumed legacy_used) st.points ≡ false
        → allocate_stay_points cal contracts lots consumed st.check_in st.points ≡ some draws
        → Funds (consumed ++ draws) stays ps
        → all ≡ postings st draws ++ ps
        → Funds consumed (st ∷ stays) all

  pub fund_stays-Funds :
      (consumed : List PointDraw) (stays : List TripStay) (ps : List Posting)
      → fund_stays cal contracts lots legacy_used consumed stays ≡ some ps
      → Funds consumed stays ps
  unfolding fund_stays fund_stay
  fund_stays-Funds consumed [] ps e =
      subst (Funds consumed []) (some-injective _ _ e) (done consumed)
  fund_stays-Funds consumed (st ∷ stays) ps e = elim (Bool-cases (booked st)) [
    | inl b ↦ skip consumed st b (fund_stays-Funds consumed stays ps (rw (b, fund_stays) at e))
    | inr b ↦
        let e1 = rw (b, fund_stays) at e in
        elim (Bool-cases (ltb_ℤ (available_points lots consumed legacy_used) st.points)) [
          | inl short ↦ absurd (not_funded ps (rw short at e1))
          | inr covered ↦
              let e2 = rw covered at e1 in
              elim (Option-cases
                (allocate_stay_points cal contracts lots consumed st.check_in st.points)) [
                  | inl a ↦ absurd (not_funded ps (rw a at e2))
                  | inr (draws, a) ↦
                      let e3 = rw a at e2 in
                      elim (Option-cases
                        (fund_stays cal contracts lots legacy_used (consumed ++ draws) stays)) [
                          | inl r ↦ absurd (not_funded ps (rw r at e3))
                          | inr (rest, r) ↦
                              fund consumed st draws rest b covered a
                                (fund_stays-Funds (consumed ++ draws) stays rest r)
                                (sym (some-injective _ _ (rw r at e3)))
                        ]
                ]
        ]
  ]
    where
      not_funded : (ps : List Posting) → none ≡ some ps → ⊥
      not_funded ps h = cc

abbrev pub posted : Trip → Option (List Posting) → Action (Unit {0})
posted trip none db = err insufficient_points
posted trip (some ps) db = ok (tt, with_postings trip ps db)

module _ (cal : Calendar) (trip : Trip) (contracts : List Contract) (lots : List PointLot)
    (legacy_used : ℤ) where
  book_stays_lem :
      (consumed : List PointDraw) (stays : List TripStay) (db : Db)
      → book_stays cal trip contracts lots legacy_used consumed stays db
        ≡ posted trip (fund_stays cal contracts lots legacy_used consumed stays) db
  unfolding book_stays fund_stays fund_stay
  book_stays_lem consumed [] db = ap (λ d. ok (tt, d)) (with_postings-nil trip db)
  book_stays_lem consumed (st ∷ stays) db = elim (Bool-cases (booked st)) [
    | inl b ↦ rw (b, book_stays, fund_stays) (book_stays_lem consumed stays db)
    | inr b ↦
        rw (b, book_stays, fund_stays)
          (elim (Bool-cases (ltb_ℤ (available_points lots consumed legacy_used) st.points)) [
            | inl short ↦ rw short refl
            | inr covered ↦
                rw covered
                  (elim (Option-cases
                    (allocate_stay_points cal contracts lots consumed st.check_in st.points)) [
                      | inl a ↦ rw a refl
                      | inr (draws, a) ↦
                          let db' = with_postings trip (postings st draws) db in
                          rw a (
                            >>=-ok (post_draws trip st draws)
                              (λ _.
                                book_stays cal trip contracts lots legacy_used (consumed ++ draws)
                                  stays)
                              db (post_draws_lem trip st draws db)
                            ∙ book_stays_lem (consumed ++ draws) stays db'
                            ∙ later draws (
                                fund_stays cal contracts lots legacy_used (consumed ++ draws)
                                  stays))
                    ])
          ])
  ]
    where
      later :
          (draws : List PointDraw) (rest : Option (List Posting))
          → posted trip rest (with_postings trip (postings st draws) db)
            ≡ posted trip (elim rest [ none ↦ none | some ps ↦ some (postings st draws ++ ps) ]) db
      later draws none = refl
      later draws (some ps) =
          ap (λ d. ok (tt, d)) (with_postings-append trip (postings st draws) ps db)

-- What `bookTripOnce` decides for a trip: from one snapshot, for its stays in order.
abbrev pub decision : Calendar → ℕ → Db → Option (List Posting)
decision cal trip_id db =
    let s = snapshot db in
    fund_stays cal s.contracts s.lots s.legacy_used s.consumed (list_stays trip_id db)

-- Booking a trip that exists does what was decided from one snapshot: if every unbooked stay can
-- be funded in turn, it succeeds and adds one entry and one link for each draw, and else it fails
-- with `ErrInsufficientPoints`.
pub book_trip_once_lem :
    (cal : Calendar) (trip_id : ℕ) (trip : Trip) (db : Db)
    → get_trip trip_id db ≡ ok (trip, db)
    → book_trip_once cal trip_id db ≡ posted trip (decision cal trip_id db) db
unfolding book_trip_once
book_trip_once_lem cal trip_id trip db e =
    >>=-ok (get_trip trip_id) _ db e
    ∙ (book_stays_lem cal trip (snapshot db).contracts (snapshot db).lots (snapshot db).legacy_used
        (snapshot db).consumed (list_stays trip_id db) db)

module _ (cal : Calendar) (contracts : List Contract) (lots : List PointLot) (legacy_used : ℤ) where
  preview-fund_stays :
      (consumed : List PointDraw) (stays : List TripStay)
      → (preview_stays cal contracts lots legacy_used consumed stays).fundable
        ≡ is_some (fund_stays cal contracts lots legacy_used consumed stays)
  unfolding preview_stays fund_stays fund_stay
  preview-fund_stays consumed [] = refl
  preview-fund_stays consumed (st ∷ stays) = elim (Bool-cases (booked st)) [
    | inl b ↦ rw (b, preview_stays, fund_stays) (preview-fund_stays consumed stays)
    | inr b ↦
        rw (b, preview_stays, fund_stays)
          (elim (Bool-cases (ltb_ℤ (available_points lots consumed legacy_used) st.points)) [
            | inl short ↦ rw short refl
            | inr covered ↦
                rw covered
                  (elim (Option-cases
                    (allocate_stay_points cal contracts lots consumed st.check_in st.points)) [
                      | inl a ↦ rw a refl
                      | inr (draws, a) ↦
                          rw (a, preview-fund_stays (consumed ++ draws) stays)
                            (later draws
                              (fund_stays cal contracts lots legacy_used (consumed ++ draws) stays))
                    ])
          ])
  ]
    where
      later :
          (draws : List PointDraw) (rest : Option (List Posting))
          → is_some rest
            ≡ is_some (elim rest as (λ o. Option (List Posting)) [
              | none ↦ none
              | some ps ↦ some (postings st draws ++ ps)
            ])
      later draws none = refl
      later draws (some ps) = refl

abbrev pub is_ok {ℓ} : {A : Type ℓ} → Result A → Bool
is_ok (ok a) = true
is_ok (err e) = false

is_ok-posted :
    (trip : Trip) (o : Option (List Posting)) (db : Db) → is_ok (posted trip o db) ≡ is_some o
is_ok-posted trip none db = refl
is_ok-posted trip (some ps) db = refl

-- For a trip that exists, the preview of its funding from the same tables says that it is fundable
-- exactly if booking it succeeds.
pub preview_trip_funding-book_trip_once :
    (cal : Calendar) (trip_id : ℕ) (trip : Trip) (db : Db)
    → get_trip trip_id db ≡ ok (trip, db)
    → (preview_trip_funding cal (snapshot db) (list_stays trip_id db)).fundable
      ≡ is_ok (book_trip_once cal trip_id db)
unfolding preview_trip_funding
preview_trip_funding-book_trip_once cal trip_id trip db e =
    preview-fund_stays cal (snapshot db).contracts (snapshot db).lots (snapshot db).legacy_used
      (snapshot db).consumed (list_stays trip_id db)
    ∙ sym (is_ok-posted trip (decision cal trip_id db) db)
    ∙ ap is_ok (sym (book_trip_once_lem cal trip_id trip db e))
