-- ===== src/Client/Reports.antt =====
-- cmd/dvc/ledger.go: what the commands of `dvc ledger` print and the errors they end with.
use lineleader.Base.{ℕ, List, [], String, if◌then◌else◌}
use lineleader.Base.Int.{ℤ, pos, eqb_ℤ}
use lineleader.Base.Text.{Text, format_int}
use lineleader.Web.Api.{ContractDto, EntryDto, SummaryDto}
use lineleader.Client.{ClientError}

-- `pointsCol`
unfoldable pub points_col : ℤ → Text
points_col n = if eqb_ℤ n (pos 0) then [] else format_int n

-- The lines of the two tables of `runLedgerShow`.
pub record LedgerLine : Type 0 where
  pub id : ℕ
  pub use_year : ℤ
  pub date : String
  pub desc : String
  pub allotted : Text
  pub used : Text
  pub total : ℤ
  pub tag : String

unfoldable pub ledger_line : EntryDto × ℤ → LedgerLine
ledger_line (e, balance) = record {
  id = e.id;
  use_year = e.fields.use_year;
  date = e.fields.date;
  desc = e.fields.desc;
  allotted = points_col e.fields.allotted;
  used = points_col e.fields.used;
  total = balance;
  tag = e.fields.tag;
}

pub record YearLine : Type 0 where
  pub use_year : ℤ
  pub allotted : ℤ
  pub used : ℤ
  pub net : ℤ
  pub flag : String

unfoldable pub year_line : SummaryDto → YearLine
year_line y = record {
  use_year = y.use_year;
  allotted = y.allotted;
  used = y.used;
  net = y.net;
  flag = if y.over_borrowed then "OVER-BORROWED" else "";
}

-- What a command reports: the rows of its tables, or the line at its end.
pub data Report : Type 0 where
  ledger_rows : List LedgerLine → List YearLine → Report
  listed_contracts : List ContractDto → Report
  added_contract : ContractDto → Report
  added_entry updated_entry deleted_entry : ℕ → Report
  distributed : List EntryDto → Report

pub data CliError : Type 0 where
  no_config flags_required not_found : CliError
  client_failed : ClientError → CliError

pub data CommandOutcome : Type 0 where
  done : Report → CommandOutcome
  stopped : CliError → CommandOutcome
