-- ===== src/Ledger/Budget.antt =====
-- internal/ledger/budget.go: the points that a trip may spend.
pub mod Summaries
pub mod Laws
use lineleader.Base.{ℕ, Bool, false, List, foldl, if◌then◌else◌, sum_of}
use lineleader.Base.Int.{ℤ, pos, ◌+ℤ◌, ◌-ℤ◌, ltb_ℤ, eqb_ℤ}
use lineleader.Calendar.{Time, Calendar}
use lineleader.Ledger.Types.{Contract, UseYearSummary, use_year_for_date, use_year_start_month}
use lineleader.Ledger.Store.Rows.{Db}
use lineleader.Ledger.Store.Queries.{list_contracts, use_year_summaries}

pub record TripBudget : Type 0 where
  pub use_year : ℤ
  pub current : ℤ
  pub banked : ℤ
  pub borrowable : ℤ
  pub total : ℤ

-- The zero value of `UseYearSummary`, which a read of a missing key gives.
abbrev pub zero_summary : UseYearSummary
zero_summary = record {
  use_year = pos 0;
  allotted = pos 0;
  used = pos 0;
  net = pos 0;
  over_borrowed = false;
  cost = pos 0;
  cost_known = false;
  cost_projected = false;
}

abbrev pub Years : Type 0
Years = ℤ → UseYearSummary

-- The loop that fills `byYear`.
unfoldable pub put_years : Years → List UseYearSummary → Years
put_years by_year summaries =
    foldl (λ m (s : UseYearSummary) y. if eqb_ℤ s.use_year y then s else m y) by_year summaries

-- `BudgetForUseYear`
unfoldable pub budget_for_use_year : List UseYearSummary → ℤ → ℤ → TripBudget
budget_for_use_year summaries use_year annual_points_total =
    let by_year = put_years (λ y. zero_summary) summaries in
    let current = (by_year use_year).net in
    let banked = (by_year (use_year -ℤ pos 1)).net in
    let borrowable = annual_points_total -ℤ (by_year (use_year +ℤ pos 1)).used in
    let borrowable' = if ltb_ℤ borrowable (pos 0) then pos 0 else borrowable in
    record {
      use_year = use_year;
      current = current;
      banked = banked;
      borrowable = borrowable';
      total = current +ℤ banked +ℤ borrowable';
    }

-- `Store.TripBudget`
unfoldable pub trip_budget : Calendar → Time → Db → TripBudget
trip_budget cal start db =
    let contracts = list_contracts db in
    let annual_points_total = sum_of (λ (c : Contract). c.annual_points) contracts in
    budget_for_use_year (use_year_summaries db)
      (use_year_for_date cal start (use_year_start_month contracts)) annual_points_total
