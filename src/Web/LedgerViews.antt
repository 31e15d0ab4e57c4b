-- ===== src/Web/LedgerViews.antt =====
-- internal/web/ledger_view.go: the rows and labels of the ledger pages. `format_day` is
-- `Format(ledger.DateLayout)`, and `today` the day of `time.Now`.
mod Tests
pub mod Rows
use lineleader.Base.{
  ℕ, zero, suc, ◌+◌, Bool, true, false, not, ◌&&◌, ◌||◌, Option, none, some, List, [], ◌∷◌, ◌++◌,
  String, str_eq, map, keep, foldl, length, if◌then◌else◌,
}
use lineleader.Base.Int.{ℤ, pos, ◌+ℤ◌, ◌-ℤ◌, eqb_ℤ, ltb_ℤ}
use lineleader.Base.Text.{Text, codes, format_int}
use lineleader.Calendar.{Time, Calendar}
use lineleader.Ledger.Cost.{
  CostBasis, cost_basis, dues_for, known, price_entries, price_per_point_year, price_summaries,
  rate_for,
}
use lineleader.Ledger.Money.{point_cost}
use lineleader.Ledger.Money.Text.{cents_string, format_rate, format_usd}
use lineleader.Ledger.Store.Queries.{
  list_contracts, list_dues_rates, list_entries, use_year_summaries,
}
use lineleader.Ledger.Store.Rows.{Db}
use lineleader.Ledger.Types.{Contract, DuesRate, Entry, UseYearSummary, use_year_for_date}
use lineleader.Web.Funding.{contract_name_of, sum_entry_costs}

-- `contractRow`
pub record ContractRow : Type 0 where
  pub id : ℕ
  pub name : String
  pub number : String
  pub home_resort : String
  pub annual_points : ℤ
  pub use_year_month : ℕ
  pub term_years : ℤ
  pub price_label : Text
  pub closing_label : Text
  pub rate_label : Text
  pub price_input : Text
  pub closing_input : Text

-- The body of the loop of `contractRows`; the label of an unknown rate is an em dash.
unfoldable pub contract_row : Contract → ContractRow
contract_row c = record {
  id = c.id;
  name = c.name;
  number = c.number;
  home_resort = c.home_resort;
  annual_points = c.annual_points;
  use_year_month = c.use_year_month;
  term_years = c.term_years;
  price_label = format_usd c.purchase_price;
  closing_label = format_usd c.closing_costs;
  rate_label = elim (price_per_point_year c) [ none ↦ 8212 ∷ [] | some rate ↦ format_rate rate ];
  price_input = cents_string c.purchase_price;
  closing_input = cents_string c.closing_costs;
}

-- `contractRows`
unfoldable pub contract_rows : List Contract → List ContractRow
contract_rows contracts = map contract_row contracts

-- `duesRow`
pub record DuesRow : Type 0 where
  pub use_year : ℤ
  pub rate_label : Text
  pub projected : Bool

-- `duesPreviewYears`
abbrev pub dues_preview_years : ℕ
dues_preview_years = 3

-- The last year of the stored rates.
unfoldable pub last_dues_year : List DuesRate → Option ℤ
last_dues_year [] = none
last_dues_year (d ∷ ds) = elim (last_dues_year ds) [ none ↦ some d.use_year | some y ↦ some y ]

-- The projected rows, `years` of them from a year on.
unfoldable pub preview_rows : CostBasis → ℤ → ℕ → List DuesRow
preview_rows b year zero = []
preview_rows b year (suc years) =
    record { use_year = year; rate_label = format_rate (dues_for b year).0; projected = true }
    ∷ preview_rows b (year +ℤ pos 1) years

unfoldable pub projected_rows : CostBasis → Option ℤ → List DuesRow
projected_rows b none = []
projected_rows b (some year) = preview_rows b (year +ℤ pos 1) dues_preview_years

-- `duesRows`
unfoldable pub dues_rows : CostBasis → List DuesRate → List DuesRow
dues_rows b dues =
    map
      (λ (d : DuesRate). record {
        use_year = d.use_year;
        rate_label = format_rate d.rate;
        projected = false;
      })
      dues
    ++ projected_rows b (last_dues_year dues)

-- `costLabel`
unfoldable pub cost_label : ℤ → Bool → Text
cost_label cost is_known = if not is_known then [] else format_usd cost

-- `balanceValueLabel`
unfoldable pub balance_value_label : Calendar → Time → CostBasis → ℤ → Text
balance_value_label cal today b balance =
    let year = use_year_for_date cal today b.use_year_month in
    if not (known b)
    then []
    else format_usd (point_cost balance (rate_for b none) (dues_for b year).0)

-- `formatSignedDelta`
unfoldable pub format_signed_delta : ℤ → Text
format_signed_delta delta = if ltb_ℤ delta (pos 0) then format_int delta else 43 ∷ format_int delta

-- `fundingLine`
unfoldable pub funding_line : Entry → List Contract → Text
funding_line e contracts = elim e.contract_id [
  | none ↦ []
  | some id ↦
      if eqb_ℤ e.used (pos 0)
      then []
      else codes (contract_name_of contracts id)
        ++ ((32 ∷ 183 ∷ codes " UY")
            ++ (format_int e.use_year
                ++ ((32 ∷ 183 ∷ 32 ∷ []) ++ codes (if str_eq e.tag "" then "Current" else e.tag))))
]

-- `recentEntryRow`
pub record RecentEntryRow : Type 0 where
  pub date_label : String
  pub desc : String
  pub delta : ℤ
  pub delta_label : Text
  pub cost_label_text : Text
  pub cost_projected : Bool
  pub funding : Text

-- `recentActivityLimit` and `spentByYearLimit`
abbrev pub recent_activity_limit : ℕ
recent_activity_limit = 20

abbrev pub spent_by_year_limit : ℕ
spent_by_year_limit = 5

-- The last elements of a list, the last one first, as many as the limit.
unfoldable pub first_elements {ℓ} : {A : Type ℓ} → ℕ → List A → List A
first_elements zero xs = []
first_elements (suc limit) [] = []
first_elements (suc limit) (x ∷ xs) = x ∷ first_elements limit xs

unfoldable pub newest {ℓ} : {A : Type ℓ} → ℕ → List A → List A
newest limit xs = first_elements limit (foldl (λ acc x. x ∷ acc) [] xs)

-- `yearSpend`
pub record YearSpend : Type 0 where
  pub use_year : ℤ
  pub spent : ℤ
  pub cost_label_text : Text
  pub cost_projected : Bool

-- The test of the first loop of `spentByYear`.
unfoldable pub is_shown_year : ℤ → UseYearSummary → Bool
is_shown_year current_use_year s = not (ltb_ℤ current_use_year s.use_year && eqb_ℤ s.used (pos 0))

-- `spentByYear`
unfoldable pub spent_by_year : List UseYearSummary → ℤ → List YearSpend
spent_by_year summaries current_use_year =
    map
      (λ (s : UseYearSummary). record {
        use_year = s.use_year;
        spent = s.used;
        cost_label_text = cost_label s.cost s.cost_known;
        cost_projected = s.cost_projected;
      })
      (newest spent_by_year_limit (keep (is_shown_year current_use_year) summaries))

-- `entries[n-1].RunningBalance`
unfoldable pub listed_total : List Entry → ℤ
listed_total [] = pos 0
listed_total (e ∷ es) = elim es [ [] ↦ e.running_balance | x ∷ xs ↦ listed_total es ]

module _ (cal : Calendar) (format_day : Time → String) where
  -- The body of the loop of `recentEntries`.
  unfoldable pub recent_entry : List Contract → Entry → RecentEntryRow
  recent_entry contracts e =
      let delta = e.allotted -ℤ e.used in
      record {
        date_label = format_day e.date;
        desc = e.desc;
        delta = delta;
        delta_label = format_signed_delta delta;
        cost_label_text = cost_label e.cost e.cost_known;
        cost_projected = e.cost_projected;
        funding = funding_line e contracts;
      }

  -- `recentEntries`
  unfoldable pub recent_entries : List Entry → List Contract → List RecentEntryRow
  recent_entries entries contracts =
      map (recent_entry contracts) (newest recent_activity_limit entries)

  -- `ledgerView`, without the kinds, the edit marks and the error.
  pub record LedgerData : Type 0 where
    pub entries : List Entry
    pub total : ℤ
    pub summaries : List UseYearSummary
    pub contracts : List Contract
    pub recent : List RecentEntryRow
    pub spent : List YearSpend
    pub show_costs : Bool
    pub total_cost_label : Text
    pub cost_footnote : Bool
    pub balance_label : Text
    pub blended_rate_label : Text
    pub rows : List ContractRow
    pub dues : List DuesRow

  -- `buildLedgerView`
  unfoldable pub build_ledger_view : Time → Db → LedgerData
  build_ledger_view today db =
      let b = cost_basis db in
      let contracts = list_contracts db in
      let listed = list_entries db in
      let total = listed_total listed in
      let entries = price_entries b listed in
      let summaries = price_summaries (use_year_summaries db) entries in
      let costs = sum_entry_costs entries in
      record {
        entries = entries;
        total = total;
        summaries = summaries;
        contracts = contracts;
        recent = recent_entries entries contracts;
        spent = spent_by_year summaries (use_year_for_date cal today b.use_year_month);
        show_costs = known b;
        total_cost_label = format_usd costs.0;
        cost_footnote = costs.1;
        balance_label = balance_value_label cal today b total;
        blended_rate_label = format_rate b.blended;
        rows = contract_rows contracts;
        dues = dues_rows b (list_dues_rates db);
      }
