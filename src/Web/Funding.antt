-- ===== src/Web/Funding.antt =====
-- internal/web/render.go and ledger_view.go: the funding section of a trip, and the totals of the
-- ledger pages.
pub mod Totals
use Prim.Native.String.{◌++◌ as str_append}
use lineleader.Base.{
  ℕ, Bool, true, false, not, ◌&&◌, ◌||◌, Option, none, some, List, [], ◌∷◌, String, foldl, str_eq,
  ◌==◌, if◌then◌else◌,
}
use lineleader.Base.Int.{ℤ, pos, ◌+ℤ◌, eqb_ℤ}
use lineleader.Calendar.{Time}
use lineleader.Ledger.Types.{Contract, Entry, PointDraw, TripStay}
use lineleader.Ledger.Money.{add_int64}
use lineleader.Ledger.Accounting.{StayFunding, TripFundingPreview}
use lineleader.Ledger.Booking.{disposition_tag}

pub record FundingLine : Type 0 where
  pub contract_id : ℕ
  pub use_year : ℤ
  pub tag : String
  pub points : ℤ

-- `tripFundingView`; the zero time is day 0.
pub record TripFundingView : Type 0 where
  pub show : Bool
  pub fundable : Bool
  pub total_points : ℤ
  pub lines : List FundingLine
  pub short_by : ℤ
  pub short_stay_label : String
  pub short_check_in : Time

-- `findStayByID`
unfoldable pub find_stay_by_id : List TripStay → ℕ → Option TripStay
find_stay_by_id [] id = none
find_stay_by_id (st ∷ stays) id =
    let rest = find_stay_by_id stays id in if st.id == id then some st else rest

-- One draw more in `totals` and `order`: the lines are kept in the order of their keys.
unfoldable pub add_line : List FundingLine → PointDraw → List FundingLine
add_line [] d =
    record {
      contract_id = d.contract_id;
      use_year = d.use_year;
      tag = disposition_tag d.disposition;
      points = d.points;
    }
    ∷ []
add_line (l ∷ ls) d =
    let rest = add_line ls d in
    if (l.contract_id == d.contract_id)
      && eqb_ℤ l.use_year d.use_year
      && str_eq l.tag (disposition_tag d.disposition)
    then record l { points = l.points +ℤ d.points } ∷ ls
    else l ∷ rest

-- The inner loop.
unfoldable pub add_draws : TripFundingView → List PointDraw → TripFundingView
add_draws fv [] = fv
add_draws fv (d ∷ draws) =
    add_draws
      (record fv { total_points = fv.total_points +ℤ d.points; lines = add_line fv.lines d }) draws

-- The stay that could not be funded.
unfoldable pub add_short : TripFundingView → ℤ → Option TripStay → TripFundingView
add_short fv short none = record fv { short_by = short }
add_short fv short (some st) = record fv {
  short_by = short;
  short_stay_label = str_append st.resort (str_append " " st.room_type);
  short_check_in = st.check_in;
}

-- The outer loop.
unfoldable pub funding_stays : List TripStay → TripFundingView → List StayFunding → TripFundingView
funding_stays stays fv [] = fv
funding_stays stays fv (sf ∷ rest) =
    let fv' = funding_stays stays (add_draws fv sf.draws) rest in
    if not sf.fundable then add_short fv sf.short_by (find_stay_by_id stays sf.stay_id) else fv'

-- `buildTripFundingView`
unfoldable pub build_trip_funding_view : TripFundingPreview → List TripStay → TripFundingView
build_trip_funding_view preview stays =
    funding_stays stays
      (record {
        show = true;
        fundable = preview.fundable;
        total_points = pos 0;
        lines = [];
        short_by = pos 0;
        short_stay_label = "";
        short_check_in = 0;
      })
      preview.stays

-- `sumEntryCosts`
unfoldable pub sum_entry_costs : List Entry → ℤ × Bool
sum_entry_costs entries =
    foldl
      (λ (r : ℤ × Bool) (e : Entry).
        if not e.cost_known then r else (add_int64 r.0 e.cost, r.1 || e.cost_projected))
      (pos 0, false) entries

-- `contractNameOf`
unfoldable pub contract_name_of : List Contract → ℕ → String
contract_name_of [] id = ""
contract_name_of (c ∷ cs) id =
    let rest = contract_name_of cs id in if c.id == id then c.name else rest
