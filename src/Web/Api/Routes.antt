-- ===== src/Web/Api/Routes.antt =====
-- internal/web/server.go: the routes of the JSON surface.
use lineleader.Base.{ℕ, Option, String}
use lineleader.Base.Int.{ℤ}
use lineleader.Calendar.{Time, Calendar}
use lineleader.Ledger.Store.Rows.{Db}
use lineleader.Web.Api.{
  ContractDto, EntryRequestDto, Reply, api_add_contract, api_add_entry, api_delete_contract,
  api_delete_entry, api_distribute, api_list_contracts, api_list_entries, api_summaries,
  api_update_entry,
}
use lineleader.Web.Api.Import.{ImportTripRequestDto, import_trip}

-- The requests of the JSON surface: the path value and the body, where there is one.
pub data ApiRequest : Type 0 where
  get_entries get_contracts get_summaries post_distribute : ApiRequest
  post_entry : Option EntryRequestDto → ApiRequest
  put_entry : String → Option EntryRequestDto → ApiRequest
  delete_entry_row : String → ApiRequest
  post_contract : Option ContractDto → ApiRequest
  delete_contract_row : String → ApiRequest
  post_import : Option ImportTripRequestDto → ApiRequest

module _ (cal : Calendar) (format_day : Time → String) (month_name : ℕ → String)
    (first_of : ℤ → ℕ → Time) (this_year : ℤ) where
  -- The handler of each route of the JSON surface.
  unfoldable pub api_serve : ApiRequest → Db → Reply × Db
  api_serve get_entries = api_list_entries cal format_day month_name
  api_serve get_contracts = api_list_contracts cal format_day month_name
  api_serve get_summaries = api_summaries cal format_day month_name
  api_serve post_distribute = api_distribute cal format_day month_name first_of this_year
  api_serve (post_entry b) = api_add_entry cal format_day month_name b
  api_serve (put_entry p b) = api_update_entry cal format_day month_name p b
  api_serve (delete_entry_row p) = api_delete_entry cal format_day month_name p
  api_serve (post_contract b) = api_add_contract cal format_day month_name b
  api_serve (delete_contract_row p) = api_delete_contract cal format_day month_name p
  api_serve (post_import b) = import_trip cal b
