-- ===== src/Ledger/Types.antt =====
-- internal/ledger/types.go and the domain types of internal/ledger/{allocation,trip,dues}.go.
-- Ids are only compared, so they are naturals; points, use years and money are signed. Go's `int`
-- has 64 bits and the columns 32 (`INTEGER`), so sums of fewer than 2 ^ 31 rows cannot wrap and
-- points are integers without bounds.
use lineleader.Base.{ℕ, String, Bool, true, false, ◌&&◌, Option, List, [], ◌∷◌, leb, if◌then◌else◌}
use lineleader.Base.Int.{ℤ, pos, ◌-ℤ◌, ltb_ℤ}
use lineleader.Calendar.{Time, Calendar}

-- The values of `Entry.Kind`.
abbrev pub kind_allocation : String
kind_allocation = "allocation"

abbrev pub kind_usage : String
kind_usage = "usage"

abbrev pub kind_bonus : String
kind_bonus = "bonus"

abbrev pub kind_single_use : String
kind_single_use = "single_use"

abbrev pub kind_adjustment : String
kind_adjustment = "adjustment"

pub record Entry : Type 0 where
  pub id : ℕ
  pub use_year : ℤ
  pub date : Time
  pub desc : String
  pub kind : String
  pub allotted : ℤ
  pub used : ℤ
  pub tag : String
  pub contract_id : Option ℕ
  pub running_balance : ℤ
  pub cost : ℤ
  pub cost_known : Bool
  pub cost_projected : Bool

pub record Contract : Type 0 where
  pub id : ℕ
  pub name : String
  pub number : String
  pub home_resort : String
  pub annual_points : ℤ
  pub use_year_month : ℕ
  pub term_years : ℤ
  pub purchase_price : ℤ
  pub closing_costs : ℤ

pub record UseYearSummary : Type 0 where
  pub use_year : ℤ
  pub allotted : ℤ
  pub used : ℤ
  pub net : ℤ
  pub over_borrowed : Bool
  pub cost : ℤ
  pub cost_known : Bool
  pub cost_projected : Bool

-- `blank` is the zero value "", which the draws that are read back from storage carry.
pub data Disposition : Type 0 where
  banked current borrowed blank : Disposition

pub record PointLot : Type 0 where
  pub contract_id : ℕ
  pub use_year : ℤ
  pub points : ℤ

pub record PointDraw : Type 0 where
  pub contract_id : ℕ
  pub use_year : ℤ
  pub disposition : Disposition
  pub points : ℤ

pub record DuesRate : Type 0 where
  pub use_year : ℤ
  pub rate : ℤ

pub record Trip : Type 0 where
  pub id : ℕ
  pub name : String
  pub start_date : Time
  pub end_date : Time
  pub min_nights : ℤ
  pub budget_override : Option ℤ
  pub filter_mode : String
  pub exclude_resorts : List String
  pub exclude_room_types : List String

pub record TripStay : Type 0 where
  pub id : ℕ
  pub trip_id : ℕ
  pub resort : String
  pub room_type : String
  pub view : String
  pub check_in : Time
  pub check_out : Time
  pub nights : ℤ
  pub points : ℤ
  pub quote_hash : String
  pub entry_ids : List ℕ
  pub entry_points : ℤ

-- `TripStay.Booked`
unfoldable pub booked : TripStay → Bool
booked st = elim st.entry_ids [ [] ↦ false | x ∷ xs ↦ true ]

-- `TripStay.PartiallyBooked`
unfoldable pub partially_booked : TripStay → Bool
unfolding booked
partially_booked st = booked st && ltb_ℤ st.entry_points st.points

-- `UseYearForDate`
unfoldable pub use_year_for_date : Calendar → Time → ℕ → ℤ
use_year_for_date cal date start_month =
    if leb start_month (cal.month date) then cal.year date else cal.year date -ℤ pos 1

-- `UseYearStartMonth`; 1 is `time.January`.
unfoldable pub use_year_start_month : List Contract → ℕ
use_year_start_month [] = 1
use_year_start_month (c ∷ cs) = c.use_year_month
