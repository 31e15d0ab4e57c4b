-- ===== src/Web/LedgerForms/Tests.antt =====
-- The ledger pages at an empty ledger, with the pricing of the empty ledger in the cache.
use lineleader.Base.{◌≡◌, refl, ℕ, true, false, some, String, str_eq, [], if◌then◌else◌}
use lineleader.Base.Int.{ℤ, pos}
use lineleader.Base.Text.{parse_int, parse_magnitude, scan, trim_space, trim_left, trim_right, take}
use lineleader.Calendar.{Time}
use lineleader.Calendar.Gregorian.{gregorian}
use lineleader.Ledger.Cost.{cost_basis}
use lineleader.Ledger.Months.{equal_fold, find_month, fold, month_number, parse_month}
use lineleader.Ledger.Store.Rows.{Db}
use lineleader.Web.LedgerForms.{
  Desk, Form, LedgerRequest, contracts, delete_contract_row, invalid_month, ledger_body,
  ledger_serve, post_contract, parse_contract_form, add_contract_form, if_valid,
  delete_contract_form, if_parsed, ledger_step, path_id, rendered, store_step, stored, unreadable,
}

abbrev tables : Db
tables = record {
  contracts = [];
  entries = [];
  dues = [];
  trips = [];
  stays = [];
  links = [];
  next_contract = 1;
  next_entry = 1;
  next_trip = 1;
  next_stay = 1;
}

abbrev desk : Desk
desk = record {
  tables = tables;
  costs = record { cached = cost_basis tables; valid = true; fetched_at = pos 0 };
}

abbrev contract_form : String → Form
contract_form month field =
    if str_eq field "use_year_month" then month else if str_eq field "points" then "160" else "10"

abbrev first_of : ℤ → ℕ → Time
first_of year month = 0

abbrev adding : LedgerRequest
adding = post_contract contracts (some (contract_form " april "))

abbrev refusing : LedgerRequest
refusing = post_contract contracts (some (contract_form "Foo"))

refused :
    (ledger_serve gregorian first_of (pos 2026) true refusing desk).0
    ≡ ledger_body contracts 0 0 (some invalid_month)
unfolding ledger_serve ledger_step rendered add_contract_form if_valid parse_contract_form
    parse_month find_month equal_fold trim_space trim_right trim_left fold take month_number
    parse_int parse_magnitude scan
refused = refl

-- The body that cannot be read for the reply.
unread :
    (ledger_serve gregorian first_of (pos 2026) false (delete_contract_row contracts "1") desk).0
    ≡ unreadable
unfolding ledger_serve ledger_step delete_contract_form if_parsed path_id parse_int parse_magnitude
    scan store_step stored rendered
unread = refl
