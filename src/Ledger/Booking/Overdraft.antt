-- ===== src/Ledger/Booking/Overdraft.antt =====
-- Booking never draws a lot below zero, whichever stays are booked together.
use lineleader.Base.{
  ℕ, ◌≡◌, refl, sym, ◌∙◌, ap, inl, inr, some, List, [], ◌∷◌, ◌++◌, map, Bool-cases,
}
use mathlib.Core.Path.{subst}
use mathlib.Core.Option.{some-injective}
use mathlib.Core.List.{append_assoc, append-nil, map-append}
use lineleader.Base.Int.{ℤ, pos, ◌≤ℤ◌, leb_ℤ, int_laws, leb_ℤ→gt}
use lineleader.Calendar.{Calendar}
use lineleader.Ledger.Types.{Contract, PointLot, PointDraw, TripStay}
use lineleader.Ledger.Allocation.{remaining_of, allocate_stay_points}
use lineleader.Ledger.Allocation.Laws.{allocate_stay_points_free, allocate_stay_points-IsFunding}
use lineleader.Ledger.Allocation.Remaining.{remaining_of-append}
use lineleader.Ledger.Booking.Posting.{Posting, postings}
use lineleader.Ledger.Booking.Decision.{Funds, done, skip, fund}

-- The draws of a list of postings.
abbrev pub draws_of : List Posting → List PointDraw
draws_of = map (λ (p : Posting). p.1)

pub draws_of-postings :
    (st : TripStay) (draws : List PointDraw) → draws_of (postings st draws) ≡ draws
draws_of-postings st [] = refl
draws_of-postings st (d ∷ draws) = ap (λ ds. d ∷ ds) (draws_of-postings st draws)

module _ (cal : Calendar) (contracts : List Contract) (lots : List PointLot) (legacy_used : ℤ)
    (i : ℕ) (y : ℤ) where
  allocate_keeps :
      (consumed draws : List PointDraw) (st : TripStay)
      → allocate_stay_points cal contracts lots consumed st.check_in st.points ≡ some draws
      → pos 0 ≤ℤ remaining_of lots consumed i y
      → pos 0 ≤ℤ remaining_of lots (consumed ++ draws) i y
  allocate_keeps consumed draws st e k = elim (Bool-cases (leb_ℤ st.points (pos 0))) [
    | inl free ↦
        let nothing = some-injective _ _ (
          sym (allocate_stay_points_free cal contracts lots consumed st.check_in st.points free)
          ∙ e) in
        subst (λ ds. pos 0 ≤ℤ remaining_of lots (consumed ++ ds) i y) nothing
          (rw (append-nil consumed) k)
    | inr paid ↦
        let f =
          allocate_stay_points-IsFunding cal contracts lots consumed st.check_in st.points draws
            (leb_ℤ→gt st.points (pos 0) paid) e in
        rw (remaining_of-append i y lots consumed draws) (omega (int_laws, f.within i y k))
  ]

  pub Funds_keeps :
      {consumed : List PointDraw} {stays : List TripStay} {ps : List Posting}
      → Funds cal contracts lots legacy_used consumed stays ps
      → pos 0 ≤ℤ remaining_of lots consumed i y
      → pos 0 ≤ℤ remaining_of lots (consumed ++ draws_of ps) i y
  Funds_keeps (done consumed) k = rw (append-nil consumed) k
  Funds_keeps (skip consumed st b f) k = Funds_keeps f k
  Funds_keeps (fund consumed st draws ps b c a f same) k =
      let later = Funds_keeps f (allocate_keeps consumed draws st a k) in
      rw (same, map-append, draws_of-postings st draws, ← append_assoc) later
