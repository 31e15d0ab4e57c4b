-- ===== src/Web/TripViews.antt =====
-- internal/web/render.go: the rows of the trip list, and the page of a trip. `format_day` is
-- `Format("2006-01-02")`, and `first_of` the first day of a month of a year (`time.Date`).
pub mod Collecting
pub mod Selection
use lineleader.Base.{
  ℕ, zero, suc, ◌+◌, Bool, true, false, not, ◌&&◌, ◌||◌, Option, none, some, List, [], ◌∷◌, ◌++◌,
  String, str_eq, map, any, foldl, length, is_some, if◌then◌else◌,
}
use lineleader.Base.Int.{ℤ, pos, ◌+ℤ◌, eqb_ℤ}
use lineleader.Base.Text.{Text, codes, eqb_text, format_int}
use lineleader.Calendar.{Calendar, Time}
use lineleader.Dvc.Types.{StayResult}
use lineleader.Ledger.Accounting.{TripFundingPreview}
use lineleader.Ledger.Budget.{TripBudget}
use lineleader.Ledger.Cost.{CostBasis, Priced, cost_of}
use lineleader.Ledger.Money.{add_int64}
use lineleader.Ledger.Money.Text.{format_usd}
use lineleader.Ledger.Types.{Trip, TripStay, booked, partially_booked, use_year_for_date}
use lineleader.Web.Funding.{TripFundingView, build_trip_funding_view}
use lineleader.Web.LedgerViews.{first_elements, format_signed_delta}
use lineleader.Web.Planner.{
  derive_trip_status, effective_budget, search_budget_for, stay_booking_status, trip_status,
}

-- `tripRowView`
pub record TripRowView : Type 0 where
  pub id : ℕ
  pub name : String
  pub start_label : String
  pub end_label : String
  pub min_nights : ℤ
  pub stays : ℕ
  pub points : ℤ
  pub status : String
  pub cost_text : Text

-- `budgetView`
pub record BudgetView : Type 0 where
  pub use_year : ℤ
  pub current : ℤ
  pub banked : ℤ
  pub borrowable : ℤ
  pub total : ℤ
  pub current_label : Text
  pub banked_label : Text
  pub borrowable_label : Text
  pub overridden : Bool
  pub computed_total : ℤ

-- The three fields that `priceRow` and `priceStay` set; a price that is not known leaves them.
pub record PriceTag : Type 0 where
  pub cents : ℤ
  pub cost_text : Text
  pub cost_projected : Bool

abbrev pub no_price : PriceTag
no_price = record { cents = pos 0; cost_text = []; cost_projected = false }

unfoldable pub price_tag : Priced → PriceTag
price_tag p =
    if not p.known
    then no_price
    else record { cents = p.cost; cost_text = format_usd p.cost; cost_projected = p.projected }

-- `stayView`, with the stay it shows.
pub record StayView : Type 0 where
  pub stay : TripStay
  pub is_booked : Bool
  pub is_partially_booked : Bool
  pub price : PriceTag

-- `resultRow`, with the result it shows.
pub record ResultRow : Type 0 where
  pub row_index : ℕ
  pub result : StayResult
  pub selected : Bool
  pub price : PriceTag

-- `maxResultRows`
abbrev pub max_result_rows : ℕ
max_result_rows = 200

-- `strings` joined by bars.
unfoldable pub barred : List Text → Text
barred [] = []
barred (t ∷ ts) = elim ts [ [] ↦ t | u ∷ us ↦ t ++ (124 ∷ barred ts) ]

-- `tripView`; the labels of the dates stand beside the trip.
pub record TripPageView : Type 0 where
  pub trip : Trip
  pub start_label : String
  pub end_label : String
  pub budget : BudgetView
  pub effective : ℤ
  pub budget_overridden : Bool
  pub stays : List StayView
  pub stays_points : ℤ
  pub stays_cost_label : Text
  pub funding : Option TripFundingView
  pub is_booked : Bool
  pub is_partly_booked : Bool
  pub has_booked_stays : Bool
  pub has_unbooked_stays : Bool
  pub span_note : Option Text
  pub remaining : ℤ
  pub results : List ResultRow
  pub results_total : ℕ
  pub show_costs : Bool

-- `budgetView` of a trip and its budget.
unfoldable pub budget_view : Trip → TripBudget → BudgetView
budget_view t b = record {
  use_year = b.use_year;
  current = b.current;
  banked = b.banked;
  borrowable = b.borrowable;
  total = b.total;
  current_label = format_signed_delta b.current;
  banked_label = format_signed_delta b.banked;
  borrowable_label = format_signed_delta b.borrowable;
  overridden = is_some t.budget_override;
  computed_total = b.total;
}

module _ (format_day : Time → String) where
  -- `stayKey`
  unfoldable pub stay_key : StayResult → Text
  stay_key r = barred (
      codes r.resort
      ∷ codes r.room_type
      ∷ codes r.view
      ∷ codes (format_day r.check_in)
      ∷ codes (format_day r.check_out)
      ∷ format_int r.points
      ∷ [])

  -- `stayKeyForStay`
  unfoldable pub stay_key_for_stay : TripStay → Text
  stay_key_for_stay st = barred (
      codes st.resort
      ∷ codes st.room_type
      ∷ codes st.view
      ∷ codes (format_day st.check_in)
      ∷ codes (format_day st.check_out)
      ∷ format_int st.points
      ∷ [])

  -- `collected[stayKey(r)]`
  unfoldable pub is_collected : List TripStay → StayResult → Bool
  is_collected stays r = any (λ st. eqb_text (stay_key_for_stay st) (stay_key r)) stays

module _ (cal : Calendar) (format_day : Time → String) (first_of : ℤ → ℕ → Time) where
  -- `priceRow`
  unfoldable pub price_row : CostBasis → StayResult → PriceTag
  price_row b r =
      price_tag (cost_of b r.points (use_year_for_date cal r.check_in b.use_year_month) none)

  -- `priceStay`
  unfoldable pub price_stay : ℕ → CostBasis → TripStay → PriceTag
  price_stay month b st =
      price_tag (cost_of b st.points (use_year_for_date cal st.check_in month) none)

  -- The loop of `buildTripRowView` over the stays: their points, their cost, and whether any has one.
  unfoldable pub row_totals : ℕ → CostBasis → Bool → List TripStay → ℤ × ℤ × Bool
  row_totals month b show_costs stays =
      foldl
        (λ (r : ℤ × ℤ × Bool) (st : TripStay).
          let p = cost_of b st.points (use_year_for_date cal st.check_in month) none in
          if show_costs && p.known
          then (r.0 +ℤ st.points, add_int64 r.1 p.cost, true)
          else (r.0 +ℤ st.points, r.1, r.2))
        (pos 0, pos 0, false) stays

  -- `buildTripRowView`
  unfoldable pub build_trip_row_view : Trip → List TripStay → ℕ → CostBasis → Bool → TripRowView
  build_trip_row_view t stays month b show_costs =
      let totals = row_totals month b show_costs stays in
      record {
        id = t.id;
        name = t.name;
        start_label = format_day t.start_date;
        end_label = format_day t.end_date;
        min_nights = t.min_nights;
        stays = length stays;
        points = totals.0;
        status = trip_status stays;
        cost_text = if totals.2 then format_usd totals.1 else [];
      }

  -- The note on a window of two use years; `spanBoundary` is `first_of`. The arrow is U+2192.
  unfoldable pub span_note_of : ℤ → ℤ → ℕ → Text
  span_note_of start_year end_year month =
      codes "This window spans use years "
      ++ (format_int start_year
          ++ (32
              ∷ 8594
              ∷ 32
              ∷ (format_int end_year
                  ++ (codes ". The budget shown is for UY"
                      ++ (format_int start_year
                          ++ (codes " (the window start); stays checking in on or after "
                              ++ (codes (format_day (first_of end_year month))
                                  ++ (codes " draw from UY"
                                      ++ (format_int end_year ++ codes ".")))))))))

  unfoldable pub span_note_for : Trip → ℕ → Option Text
  span_note_for t month =
      let start_year = use_year_for_date cal t.start_date month in
      let end_year = use_year_for_date cal t.end_date month in
      if eqb_ℤ start_year end_year then none else some (span_note_of start_year end_year month)

  -- The body of the loop over the stays.
  unfoldable pub stay_view : ℕ → CostBasis → Bool → TripStay → StayView
  stay_view month b show_costs st = record {
    stay = st;
    is_booked = booked st;
    is_partially_booked = partially_booked st;
    price = if show_costs then price_stay month b st else no_price;
  }

  -- The body of the loop over the results that are shown.
  unfoldable pub result_row_view : List TripStay → CostBasis → Bool → ℕ → StayResult → ResultRow
  result_row_view stays b show_costs i r = record {
    row_index = i;
    result = r;
    selected = is_collected format_day stays r;
    price = if show_costs then price_row b r else no_price;
  }

  unfoldable pub rows_from : List TripStay → CostBasis → Bool → ℕ → List StayResult → List ResultRow
  rows_from stays b show_costs i [] = []
  rows_from stays b show_costs i (r ∷ rs) =
      result_row_view stays b show_costs i r ∷ rows_from stays b show_costs (suc i) rs

  -- `buildTripView`
  unfoldable pub build_trip_view :
      Trip
      → List TripStay
      → TripBudget
      → List StayResult
      → ℕ
      → CostBasis
      → Bool
      → TripFundingPreview
      → TripPageView
  build_trip_view t stays b results month costs show_costs funding =
      let any_of = stay_booking_status stays in
      let status = derive_trip_status any_of.0 any_of.1 in
      let views = map (stay_view month costs show_costs) stays in
      record {
        trip = t;
        start_label = format_day t.start_date;
        end_label = format_day t.end_date;
        budget = budget_view t b;
        effective = effective_budget t b;
        budget_overridden = is_some t.budget_override;
        stays = views;
        stays_points = foldl (λ n (st : TripStay). n +ℤ st.points) (pos 0) stays;
        stays_cost_label =
            if show_costs
            then format_usd (foldl (λ n (v : StayView). add_int64 n v.price.cents) (pos 0) views)
            else [];
        funding = if any_of.1 then some (build_trip_funding_view funding stays) else none;
        is_booked = status.0;
        is_partly_booked = status.1;
        has_booked_stays = any_of.0;
        has_unbooked_stays = any_of.1;
        span_note = span_note_for t month;
        remaining = search_budget_for t b stays;
        results = rows_from stays costs show_costs 0 (first_elements max_result_rows results);
        results_total = length results;
        show_costs = show_costs;
      }
