-- ===== src/Web/LedgerViews/Rows.antt =====
-- internal/web/ledger_view.go and ledger_handlers.go: the edit form of a contract, saved as it is
-- shown, is that contract.
use lineleader.Base.{◌^◌, ◌<◌, ◌≡◌, ◌∙◌, ap, Option, none, some, String}
use lineleader.Base.Int.{ℤ, pos, magnitude}
use lineleader.Base.Text.{Text, codes, format_int, parse_int}
use lineleader.Base.Text.Integers.{parse_int-format_int}
use lineleader.Ledger.Money.RoundTrip.{parse_cents-cents_string}
use lineleader.Ledger.Money.Text.{cents_string, parse_cents}
use lineleader.Ledger.Months.{parse_month}
use lineleader.Ledger.Types.{Contract}
use lineleader.Web.LedgerForms.{Form, atoi_or, parse_contract_form, valid}
use lineleader.Web.LedgerViews.{contract_row}

atoi_or-format_int :
    (s : String) (n def : ℤ) → codes s ≡ format_int n → magnitude n < 2 ^ 63 → atoi_or s def ≡ n
unfolding atoi_or
atoi_or-format_int s n def e l =
    ap (λ (o : Option ℤ). let r : ℤ = elim o [ none ↦ def | some m ↦ m ] in r)
      (ap parse_int e ∙ parse_int-format_int n l)

read_cents : (t : Text) (c : ℤ) → t ≡ cents_string c → magnitude c < 2 ^ 63 → parse_cents t ≡ some c
read_cents t c e l = ap parse_cents e ∙ parse_cents-cents_string c l

-- A contract's edit form that is sent back as its row fills it is read as that contract, where the
-- month is read as the contract's and the numbers are int64 other than the least.
pub parse_contract_form-contract_row :
    (c : Contract) (f : Form)
    → f "name" ≡ c.name
    → f "number" ≡ c.number
    → f "resort" ≡ c.home_resort
    → codes (f "points") ≡ format_int (contract_row c).annual_points
    → codes (f "term_years") ≡ format_int (contract_row c).term_years
    → parse_month (codes (f "use_year_month")) ≡ some (contract_row c).use_year_month
    → codes (f "price") ≡ (contract_row c).price_input
    → codes (f "closing") ≡ (contract_row c).closing_input
    → magnitude c.annual_points < 2 ^ 63
    → magnitude c.term_years < 2 ^ 63
    → magnitude c.purchase_price < 2 ^ 63
    → magnitude c.closing_costs < 2 ^ 63
    → parse_contract_form (some f) c.id ≡ valid c
unfolding parse_contract_form contract_row
parse_contract_form-contract_row c f name number resort points term month price closing lp lt lb
      lc =
    cc (
      name,
      number,
      resort,
      month,
      read_cents (codes (f "price")) c.purchase_price price lb,
      read_cents (codes (f "closing")) c.closing_costs closing lc,
      atoi_or-format_int (f "points") c.annual_points (pos 0) points lp,
      atoi_or-format_int (f "term_years") c.term_years (pos 0) term lt,
    )
