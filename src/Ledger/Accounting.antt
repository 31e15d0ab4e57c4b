-- ===== src/Ledger/Accounting.antt =====
-- internal/ledger/trip_accounting.go without its queries, which are in Store/Snapshot: the
-- aggregate balance, the size of a shortfall, and the two previews over a snapshot.
pub mod Shortfall
use lineleader.Base.{
  ℕ, zero, suc, pred, ◌+◌, ◌/◌, Bool, true, false, Option, none, some, List, [], ◌∷◌, ◌++◌, foldl,
  ltb, is_some, if◌then◌else◌,
}
use lineleader.Base.Int.{ℤ, pos, pos_part, ◌+ℤ◌, ◌-ℤ◌, ltb_ℤ}
use lineleader.Calendar.{Time, Calendar}
use lineleader.Ledger.Types.{Contract, PointLot, PointDraw, TripStay, booked}
use lineleader.Ledger.Allocation.{allocate_stay_points}

-- What `lotSnapshot` and `unattributedUsage` read.
pub record Snapshot : Type 0 where
  pub contracts : List Contract
  pub lots : List PointLot
  pub consumed : List PointDraw
  pub legacy_used : ℤ

-- `availablePoints`
unfoldable pub available_points : List PointLot → List PointDraw → ℤ → ℤ
available_points lots consumed legacy_used =
    foldl (λ a (draw : PointDraw). a -ℤ draw.points)
      (foldl (λ a (lot : PointLot). a +ℤ lot.points) (pos 0 -ℤ legacy_used) lots) consumed

-- The binary search of `shortfall` over a test of the amount, with fuel: `hi - lo` halves.
unfoldable pub search_amount : (ℕ → Bool) → ℕ → ℕ → ℕ → ℕ
search_amount funds zero lo hi = lo
search_amount funds (suc fuel) lo hi =
    let mid = (lo + hi + 1) / 2 in
    let upper = search_amount funds fuel mid hi in
    let lower = search_amount funds fuel lo (pred mid) in
    if ltb lo hi then (if funds mid then upper else lower) else lo

module _ (cal : Calendar) where
  abbrev pub funds_amount : List Contract → List PointLot → List PointDraw → Time → ℕ → Bool
  funds_amount contracts lots consumed check_in n =
      is_some (allocate_stay_points cal contracts lots consumed check_in (pos n))

  -- `shortfall`. Its callers have a positive `points`, so `lo` and `hi` are naturals.
  unfoldable pub shortfall : List Contract → List PointLot → List PointDraw → Time → ℤ → ℤ
  unfolding search_amount
  shortfall contracts lots consumed check_in points =
      points
      -ℤ pos (
          search_amount (funds_amount contracts lots consumed check_in) (pos_part points) 0
            (pos_part points))

  -- `PreviewStayFunding`; `none` is `ErrInsufficientPoints`.
  unfoldable pub preview_stay_funding : Snapshot → Time → ℤ → Option (List PointDraw)
  preview_stay_funding s check_in points =
      if ltb_ℤ (available_points s.lots s.consumed s.legacy_used) points
      then none
      else allocate_stay_points cal s.contracts s.lots s.consumed check_in points

pub record StayFunding : Type 0 where
  pub stay_id : ℕ
  pub fundable : Bool
  pub draws : List PointDraw
  pub short_by : ℤ

pub record TripFundingPreview : Type 0 where
  pub stays : List StayFunding
  pub fundable : Bool

abbrev pub short_stay : TripStay → ℤ → TripFundingPreview
short_stay st missing = record {
  stays = record { stay_id = st.id; fundable = false; draws = []; short_by = missing } ∷ [];
  fundable = false;
}

-- A stay that is funded, in front of the preview of the later ones.
abbrev pub funded_stay : TripStay → List PointDraw → TripFundingPreview → TripFundingPreview
funded_stay st draws later = record {
  stays =
      record { stay_id = st.id; fundable = true; draws = draws; short_by = pos 0 } ∷ later.stays;
  fundable = later.fundable;
}

module _ (cal : Calendar) (contracts : List Contract) (lots : List PointLot) (legacy_used : ℤ) where
  -- The loop of `PreviewTripFunding` over the stays that are left.
  unfoldable pub preview_stays : List PointDraw → List TripStay → TripFundingPreview
  preview_stays consumed [] = record { stays = []; fundable = true }
  preview_stays consumed (st ∷ stays) = elim (booked st) [
    | true ↦ preview_stays consumed stays
    | false ↦
        let available = available_points lots consumed legacy_used in
        elim (ltb_ℤ available st.points) [
          | true ↦ short_stay st (st.points -ℤ available)
          | false ↦ elim (allocate_stay_points cal contracts lots consumed st.check_in st.points) [
            | none ↦ short_stay st (shortfall cal contracts lots consumed st.check_in st.points)
            | some draws ↦ funded_stay st draws (preview_stays (consumed ++ draws) stays)
          ]
        ]
  ]

-- `PreviewTripFunding`
unfoldable pub preview_trip_funding : Calendar → Snapshot → List TripStay → TripFundingPreview
unfolding preview_stays
preview_trip_funding cal s stays =
    preview_stays cal s.contracts s.lots s.legacy_used s.consumed stays
