-- ===== src/Web/LedgerViews/Tests.antt =====
-- A contract, its row, and its edit form as the row fills it.
use lineleader.Base.{ℕ, ◌≡◌, refl, some, [], ◌∷◌, str_eq, if◌then◌else◌, arith}
use lineleader.Base.Int.{pos}
use lineleader.Base.Text.{
  codes, digits, format_int, format_nat, take, trim_left, trim_right, trim_space, zeros,
}
use lineleader.Ledger.Money.Text.{cents_string, fixed_point, format_fixed, pad_nat}
use lineleader.Ledger.Months.{equal_fold, find_month, fold, month_number, parse_month}
use lineleader.Ledger.Types.{Contract}
use lineleader.Web.LedgerForms.{Form, parse_contract_form, valid}
use lineleader.Web.LedgerViews.{contract_row, first_elements, format_signed_delta, newest}
use lineleader.Web.LedgerViews.Rows.{parse_contract_form-contract_row}

abbrev shown : Contract
shown = record {
  id = 3;
  name = "Aulani 2011";
  number = "42";
  home_resort = "Aulani";
  annual_points = pos 160;
  use_year_month = 4;
  term_years = pos 50;
  purchase_price = pos 123456;
  closing_costs = pos 5;
}

abbrev sent : Form
sent field =
    if str_eq field "name"
    then "Aulani 2011"
    else if str_eq field "number"
    then "42"
    else if str_eq field "resort"
    then "Aulani"
    else if str_eq field "points"
    then "160"
    else if str_eq field "term_years"
    then "50"
    else if str_eq field "use_year_month"
    then "April"
    else if str_eq field "price"
    then "1234.56"
    else "0.05"

points_and_term :
    (codes (sent "points") ≡ format_int (contract_row shown).annual_points)
    × (codes (sent "term_years") ≡ format_int (contract_row shown).term_years)
unfolding contract_row format_int format_nat digits
points_and_term = (refl, refl)

month_read : parse_month (codes (sent "use_year_month")) ≡ some (contract_row shown).use_year_month
unfolding contract_row parse_month find_month equal_fold trim_space trim_right trim_left fold take
    month_number
month_read = refl

price_and_closing :
    (codes (sent "price") ≡ (contract_row shown).price_input)
    × (codes (sent "closing") ≡ (contract_row shown).closing_input)
unfolding contract_row cents_string format_fixed fixed_point format_nat digits pad_nat zeros
price_and_closing = (refl, refl)

deltas :
    (format_signed_delta (pos 150) ≡ codes "+150")
    × (newest {A = ℕ} 2 (1 ∷ 2 ∷ 3 ∷ []) ≡ 3 ∷ 2 ∷ [])
unfolding format_signed_delta format_int format_nat digits newest first_elements
deltas = (refl, refl)

parse_contract_form-contract_row_example : parse_contract_form (some sent) 3 ≡ valid shown
parse_contract_form-contract_row_example =
    parse_contract_form-contract_row shown sent refl refl refl points_and_term.0 points_and_term.1
      month_read price_and_closing.0 price_and_closing.1 (omega arith) (omega arith) (omega arith)
      (omega arith)
