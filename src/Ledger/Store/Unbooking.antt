-- ===== src/Ledger/Store/Unbooking.antt =====
-- internal/ledger/trip_book.go: `UnbookTrip` leaves no stay of the trip booked.
use lineleader.Base.{
  ℕ, ◌≡◌, refl, sym, inl, inr, Bool, true, false, not, ◌&&◌, ◌||◌, List, [], ◌∷◌, map, any, keep,
  arith, ◌==◌, Bool-cases, All, All-map, All-intro,
}
use mathlib.Core.Path.{subst}
use lineleader.Base.Sort.{sort_slice, All-sort_slice}
use lineleader.Ledger.Types.{TripStay, booked}
use lineleader.Ledger.Store.Rows.{Link, Db}
use lineleader.Ledger.Store.Queries.{delete_entries}
use lineleader.Ledger.Store.Stays.{
  entry_ids_of, with_links, list_stays, of_trip, unbook_trip, stay_before,
}

and_intro : (a b : Bool) → a ≡ true → b ≡ true → (a && b) ≡ true
and_intro a b h k = ground arith

module _ {A : Type 0} where
  -- A test that an element passes on itself is passed by some element of its list.
  self_any :
      (P : A → A → Bool) (R : A → Type 0) (xs : List A)
      → All (λ x. R x → P x x ≡ true) xs
      → All (λ x. R x → any (P x) xs ≡ true) xs
  self_any P R [] h = tt
  self_any P R (x ∷ xs) h = (
    λ r. rw (h.0 r) refl,
    All-map (λ y. R y → any (P y) xs ≡ true) (λ y. R y → any (P y) (x ∷ xs) ≡ true)
        (λ y k r. or_right (P y x) (any (P y) xs) (k r)) xs (self_any P R xs h.1),
  )
    where
      or_right : (a b : Bool) → b ≡ true → (a || b) ≡ true
      or_right a b h = ground arith

  All-keep :
      (p : A → Bool) (Q : A → Type 0) (xs : List A)
      → All (λ x. p x ≡ true → Q x) xs
      → All Q (keep p xs)
  All-keep p Q [] h = tt
  All-keep p Q (x ∷ xs) h = elim (Bool-cases (p x)) [
    | inl e ↦ rw e (h.0 e, All-keep p Q xs h.1)
    | inr e ↦ rw e (All-keep p Q xs h.1)
  ]

  keep-keep :
      (p q : A → Bool) (xs : List A)
      → All (λ x. p x ≡ true → q x ≡ false) xs
      → keep p (keep q xs) ≡ []
  keep-keep p q [] h = refl
  keep-keep p q (x ∷ xs) h = elim (Bool-cases (q x)) [
    | inl e ↦ elim (Bool-cases (p x)) [
      | inl f ↦ absurd (clash (q x) e (h.0 f))
      | inr f ↦ rw (e, f) (keep-keep p q xs h.1)
    ]
    | inr e ↦ rw e (keep-keep p q xs h.1)
  ]
    where
      clash : (b : Bool) → b ≡ true → b ≡ false → ⊥
      clash b h k = ground arith

All-over_map :
    {A B : Type 0} (f : A → B) (Q : B → Type 0) (xs : List A)
    → All (λ x. Q (f x)) xs
    → All Q (map f xs)
All-over_map f Q [] h = tt
All-over_map f Q (x ∷ xs) h = (h.0, All-over_map f Q xs h.1)

same : (a : ℕ) → (a == a) ≡ true
same a = ground arith

module _ (trip_id : ℕ) (db : Db) where
  -- The trip has a stay with the id.
  abbrev HasStay : ℕ → Type 0
  HasStay sid = any (λ (s : TripStay). s.id == sid && s.trip_id == trip_id) db.stays ≡ true

  link_gone :
      (sid : ℕ)
      → HasStay sid
      → All
          (λ (l : Link).
            (l.trip_stay_id == sid) ≡ true → not (of_trip trip_id db l.entry_id) ≡ false)
          db.links
  link_gone sid has =
      All-map (λ (l : Link). (l.trip_stay_id == sid) ≡ true → of_trip trip_id db l.entry_id ≡ true)
        _ (λ l k r. rw (k r) refl) db.links
        (self_any _ (λ (l : Link). (l.trip_stay_id == sid) ≡ true) db.links
          (All-intro
            (λ (l : Link).
              (l.trip_stay_id == sid) ≡ true
              → ((l.entry_id == l.entry_id)
                  && any (λ (s : TripStay). s.id == l.trip_stay_id && s.trip_id == trip_id)
                      db.stays)
                ≡ true)
            (λ l r.
              and_intro _ _ (same l.entry_id)
                (subst HasStay (sym (eq_of l.trip_stay_id sid r)) has))
            db.links))
    where
      eq_of : (a b : ℕ) → (a == b) ≡ true → a ≡ b
      eq_of a b h = ground arith

  stays_have :
      All
        (λ (st : TripStay). HasStay st.id)
        (keep (λ (st : TripStay). st.trip_id == trip_id) db.stays)
  stays_have =
      All-keep (λ (st : TripStay). st.trip_id == trip_id) (λ st. HasStay st.id) db.stays
        (self_any (λ x (s : TripStay). s.id == x.id && s.trip_id == trip_id)
          (λ (st : TripStay). (st.trip_id == trip_id) ≡ true) db.stays
          (All-intro
            (λ (st : TripStay).
              (st.trip_id == trip_id) ≡ true → ((st.id == st.id) && (st.trip_id == trip_id)) ≡ true)
            (λ st r. and_intro _ _ (same st.id) r) db.stays))

  unlinked :
      (st : TripStay) → HasStay st.id → booked (with_links (unbook_trip trip_id db) st) ≡ false
  unfolding booked with_links entry_ids_of unbook_trip delete_entries sort_slice
  unlinked st has =
      rw
        (keep-keep (λ (l : Link). l.trip_stay_id == st.id)
          (λ (l : Link). not (of_trip trip_id db l.entry_id)) db.links (link_gone st.id has))
        refl

  -- After `UnbookTrip` no stay of the trip is booked.
  pub unbook_trip-list_stays :
      All (λ (st : TripStay). booked st ≡ false) (list_stays trip_id (unbook_trip trip_id db))
  unfolding list_stays unbook_trip delete_entries
  unbook_trip-list_stays =
      All-over_map (with_links (unbook_trip trip_id db)) (λ st. booked st ≡ false) _
        (All-sort_slice stay_before _ _ (
          All-map (λ (st : TripStay). HasStay st.id)
            (λ st. booked (with_links (unbook_trip trip_id db) st) ≡ false) unlinked _ stays_have))
