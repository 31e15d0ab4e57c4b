-- ===== src/Web/Api.antt =====
-- internal/web/api_handlers.go: the JSON surface. A body that is not JSON of the wanted shape is
-- `none`; an id below 1 names no row, and 0 stands for all of these.
mod Tests
pub mod Import
pub mod Routes
pub mod Dates
pub mod RoundTrip
use lineleader.Base.{
  ℕ, Bool, true, false, not, ◌||◌, Option, none, some, List, [], ◌∷◌, map, String, str_eq,
  if◌then◌else◌,
}
use lineleader.Base.Int.{ℤ, pos, eqb_ℤ}
use lineleader.Base.Text.{codes}
use lineleader.Calendar.{Time, Calendar}
use lineleader.Ledger.Distribute.{distribute_next_year}
use lineleader.Ledger.Months.{parse_month}
use lineleader.Ledger.Store.Queries.{
  add_contract, add_entry, delete_contract, delete_entry, list_contracts, list_entries,
  update_entry, use_year_summaries,
}
use lineleader.Ledger.Store.Rows.{Action, Db, Error, Result, err, modify, ok}
use lineleader.Ledger.Types.{
  Contract, Entry, UseYearSummary, kind_adjustment, kind_allocation, kind_bonus, kind_single_use,
  kind_usage,
}
use lineleader.Web.LedgerForms.{path_id}

-- `entryRequestDTO`; `entryDTO` adds the id.
pub record EntryRequestDto : Type 0 where
  pub use_year : ℤ
  pub date : String
  pub desc : String
  pub kind : String
  pub allotted : ℤ
  pub used : ℤ
  pub tag : String
  pub contract_id : Option ℕ

pub record EntryDto : Type 0 where
  pub id : ℕ
  pub fields : EntryRequestDto

-- `contractDTO`
pub record ContractDto : Type 0 where
  pub id : ℕ
  pub name : String
  pub number : String
  pub home_resort : String
  pub annual_points : ℤ
  pub use_year_month : String

-- `summaryDTO`
pub record SummaryDto : Type 0 where
  pub use_year : ℤ
  pub allotted : ℤ
  pub used : ℤ
  pub net : ℤ
  pub over_borrowed : Bool

-- The messages of the errors.
pub data ApiError : Type 0 where
  invalid_json invalid_id date_required invalid_date desc_required invalid_kind : ApiError
  name_required annual_points_required use_year_month_required invalid_month : ApiError
  stay_required invalid_check_in invalid_check_out invalid_start_date invalid_end_date : ApiError
  store_failed : Error → ApiError

-- What `writeJSON` and `writeAPIError` encode; an entry of the list has its running balance.
pub data Body : Type 0 where
  no_body : Body
  error_body : ApiError → Body
  entry_body : EntryDto → Body
  entries_body : List EntryDto → Body
  balances_body : List (EntryDto × ℤ) → Body
  contract_body : ContractDto → Body
  contracts_body : List ContractDto → Body
  summaries_body : List SummaryDto → Body
  id_body : ℕ → Body

pub record Reply : Type 0 where
  pub status : ℕ
  pub body : Body

abbrev pub reply : ℕ → Body → Reply
reply s b = record { status = s; body = b }

-- A value that is validated, or the message of the reply 400.
pub data Validated (A : Type 0) : Type 0 where
  accepted : A → Validated A
  refused : ApiError → Validated A

infixl 5 ◌>>=◌
abbrev pub ◌>>=◌ : {A B : Type 0} → Validated A → (A → Validated B) → Validated B
◌>>=◌ v f = elim v [ accepted a ↦ f a | refused e ↦ refused e ]

abbrev pub or_refuse : {A : Type 0} → ApiError → Option A → Validated A
or_refuse e none = refused e
or_refuse e (some a) = accepted a

abbrev pub refuse_if : Bool → ApiError → Validated (Unit {0})
refuse_if true e = refused e
refuse_if false e = accepted tt

abbrev pub is_blank : String → Bool
is_blank s = str_eq s ""

-- `validEntryKind`
unfoldable pub valid_entry_kind : String → Bool
valid_entry_kind k =
    str_eq k kind_allocation
    || str_eq k kind_usage
    || str_eq k kind_bonus
    || str_eq k kind_single_use
    || str_eq k kind_adjustment

-- `contractDTO.toContract`
unfoldable pub to_contract : ContractDto → Validated Contract
to_contract dto = do
  none_blank ← refuse_if (is_blank dto.name) name_required
  some_points ← refuse_if (eqb_ℤ dto.annual_points (pos 0)) annual_points_required
  some_month ← refuse_if (is_blank dto.use_year_month) use_year_month_required
  month ← or_refuse invalid_month (parse_month (codes dto.use_year_month))
  accepted (record {
    id = 0;
    name = dto.name;
    number = dto.number;
    home_resort = dto.home_resort;
    annual_points = dto.annual_points;
    use_year_month = month;
    term_years = pos 0;
    purchase_price = pos 0;
    closing_costs = pos 0;
  })

-- `summaryDTOFrom`
unfoldable pub summary_dto_from : UseYearSummary → SummaryDto
summary_dto_from s = record {
  use_year = s.use_year;
  allotted = s.allotted;
  used = s.used;
  net = s.net;
  over_borrowed = s.over_borrowed;
}

-- The reply to a request that a handler refuses, and to an error of the store.
unfoldable pub answered : {A : Type 0} → Validated A → (A → Db → Reply × Db) → Db → Reply × Db
answered (refused e) f db = (reply 400 (error_body e), db)
answered (accepted a) f db = f a db

unfoldable pub stored : {A : Type 0} → (A → Reply) → Db → Result (A × Db) → Reply × Db
stored f db (err e) = (reply 500 (error_body (store_failed e)), db)
stored f db (ok (a, db')) = (f a, db')

-- The reply to a method that keeps what it wrote before an error.
unfoldable pub replied : {A : Type 0} → (A → Reply) → Result A × Db → Reply × Db
replied f (err e, db) = (reply 500 (error_body (store_failed e)), db)
replied f (ok a, db) = (f a, db)

-- `apiPathID`
unfoldable pub api_path_id : String → Validated ℕ
api_path_id s = or_refuse invalid_id (path_id s)

-- `format_day` is `Format(ledger.DateLayout)`, and `month_name` is the `String` of a time.Month.
module _ (cal : Calendar) (format_day : Time → String) (month_name : ℕ → String) where
  -- `entryDTOFrom`
  unfoldable pub entry_dto_from : Entry → EntryDto
  entry_dto_from e = record {
    id = e.id;
    fields = record {
      use_year = e.use_year;
      date = format_day e.date;
      desc = e.desc;
      kind = e.kind;
      allotted = e.allotted;
      used = e.used;
      tag = e.tag;
      contract_id = e.contract_id;
    };
  }

  -- `entryListDTOFrom`
  unfoldable pub entry_list_dto_from : Entry → EntryDto × ℤ
  entry_list_dto_from e = (entry_dto_from e, e.running_balance)

  -- `contractDTOFrom`
  unfoldable pub contract_dto_from : Contract → ContractDto
  contract_dto_from c = record {
    id = c.id;
    name = c.name;
    number = c.number;
    home_resort = c.home_resort;
    annual_points = c.annual_points;
    use_year_month = month_name c.use_year_month;
  }

  -- `entryRequestDTO.toEntry`
  unfoldable pub to_entry : EntryRequestDto → ℕ → Validated Entry
  to_entry dto id = do
    dated ← refuse_if (is_blank dto.date) date_required
    d ← or_refuse invalid_date (cal.parse_day dto.date)
    described ← refuse_if (is_blank dto.desc) desc_required
    let kind = (if is_blank dto.kind then kind_usage else dto.kind)
    known ← refuse_if (not (valid_entry_kind kind)) invalid_kind
    accepted (record {
      id = id;
      use_year = if eqb_ℤ dto.use_year (pos 0) then cal.year d else dto.use_year;
      date = d;
      desc = dto.desc;
      kind = kind;
      allotted = dto.allotted;
      used = dto.used;
      tag = dto.tag;
      contract_id = dto.contract_id;
      running_balance = pos 0;
      cost = pos 0;
      cost_known = false;
      cost_projected = false;
    })

  -- `addEntry`
  unfoldable pub api_add_entry : Option EntryRequestDto → Db → Reply × Db
  api_add_entry body = answered (or_refuse invalid_json body >>= λ dto. to_entry dto 0) λ e db.
      stored (λ id. reply 201 (entry_body (entry_dto_from (record e { id = id })))) db
        (add_entry e db)

  -- `updateEntry`
  unfoldable pub api_update_entry : String → Option EntryRequestDto → Db → Reply × Db
  api_update_entry path body =
      answered (api_path_id path >>= λ id. or_refuse invalid_json body >>= λ dto. to_entry dto id)
        λ e db. stored (λ u. reply 200 (entry_body (entry_dto_from e))) db (update_entry e db)

  -- `deleteEntry`
  unfoldable pub api_delete_entry : String → Db → Reply × Db
  api_delete_entry path =
      answered (api_path_id path)
        λ id db. stored (λ u. reply 204 no_body) db (modify (delete_entry id) db)

  -- `addContract`
  unfoldable pub api_add_contract : Option ContractDto → Db → Reply × Db
  api_add_contract body = answered (or_refuse invalid_json body >>= to_contract) λ c db.
      stored (λ id. reply 201 (contract_body (contract_dto_from (record c { id = id })))) db
        (add_contract c db)

  -- `deleteContract`
  unfoldable pub api_delete_contract : String → Db → Reply × Db
  api_delete_contract path =
      answered (api_path_id path)
        λ id db. stored (λ u. reply 204 no_body) db (modify (delete_contract id) db)

  -- `listEntries`, `listContracts` and `summaries`
  unfoldable pub api_list_entries : Db → Reply × Db
  api_list_entries db = (reply 200 (balances_body (map entry_list_dto_from (list_entries db))), db)

  unfoldable pub api_list_contracts : Db → Reply × Db
  api_list_contracts db =
      (reply 200 (contracts_body (map contract_dto_from (list_contracts db))), db)

  unfoldable pub api_summaries : Db → Reply × Db
  api_summaries db = (reply 200 (summaries_body (map summary_dto_from (use_year_summaries db))), db)

  -- `distribute`, in the year `this_year`.
  unfoldable pub api_distribute : (ℤ → ℕ → Time) → ℤ → Db → Reply × Db
  api_distribute first_of this_year db =
      replied (λ created. reply 200 (entries_body (map entry_dto_from created)))
        (distribute_next_year first_of this_year db)
