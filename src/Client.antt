-- ===== src/Client.antt =====
-- internal/ledgerclient: the client of the JSON surface. `send` carries a request to the server and
-- its reply back, or finds no server; `id_text` is `%d` of an id. A call decodes the bodies that the
-- server sends it; any other counts as not decoded. The types of types.go have the fields of the
-- records of Web/Api, which stand for them here; `id` is 0 in what is sent.
mod Tests
pub mod Reports
pub mod Commands
pub mod Editing
use lineleader.Base.{
  ℕ, ◌&&◌, ◌||◌, Bool, true, false, Option, none, some, List, [], ◌∷◌, String, str_eq, leb, ltb,
  map, if◌then◌else◌,
}
use lineleader.Base.Int.{ℤ, pos}
use lineleader.Web.Api.{
  ApiError, Body, ContractDto, EntryDto, EntryRequestDto, Reply, SummaryDto, balances_body,
  contract_body, contracts_body, entries_body, entry_body, error_body, id_body, no_body,
  summaries_body,
}
use lineleader.Web.Api.Routes.{
  ApiRequest, delete_contract_row, delete_entry_row, get_contracts, get_entries, get_summaries,
  post_contract, post_distribute, post_entry, post_import, put_entry,
}
use lineleader.Web.Api.Import.{ImportTripRequestDto}

-- `Config` of config.go, and what the file holds.
pub record ClientConfig : Type 0 where
  pub server_url : String
  pub token : String

-- `firstNonEmpty`
unfoldable pub first_non_empty : List String → String
first_non_empty [] = ""
first_non_empty (v ∷ vals) = let rest = first_non_empty vals in if str_eq v "" then rest else v

abbrev file_or_empty : Option ClientConfig → ClientConfig
file_or_empty none = record { server_url = ""; token = "" }
file_or_empty (some fc) = fc

-- `ResolveConfig`; none is its error. `trim_slash` is `strings.TrimSuffix(s, "/")`, and a file that is
-- missing or malformed is none.
unfoldable pub resolve_config :
    (String → String) → ClientConfig → ClientConfig → Option ClientConfig → Option ClientConfig
resolve_config trim_slash flags env file =
    let fc = file_or_empty file in
    let server = first_non_empty (flags.server_url ∷ env.server_url ∷ fc.server_url ∷ []) in
    let token = first_non_empty (flags.token ∷ env.token ∷ fc.token ∷ []) in
    if str_eq server ""
    then none
    else some (record { server_url = trim_slash server; token = token })

-- `APIError`, and the other errors of `do`. The message is the server's, where its body has one.
pub data ClientError : Type 0 where
  no_server : ClientError
  api_error : ℕ → Option ApiError → ClientError
  not_decoded : ClientError

pub data Answer (A : Type 0) : Type 0 where
  answer : A → Answer A
  failure : ClientError → Answer A

-- `apiErrorFrom`
unfoldable pub api_error_from : Reply → ClientError
api_error_from r = elim r.body [
  | error_body e ↦ api_error r.status (some e)
  | _ ↦ api_error r.status none
]

unfoldable pub decoded : {A : Type 0} → Option A → Answer A
decoded none = failure not_decoded
decoded (some a) = answer a

-- `do` behind the request.
unfoldable pub received : {A : Type 0} → (Body → Option A) → Option Reply → Answer A
received decode none = failure no_server
received decode (some r) =
    if ltb r.status 200 || leb 300 r.status
    then failure (api_error_from r)
    else decoded (decode r.body)

-- The shapes that the calls decode.
abbrev pub an_entry : Body → Option EntryDto
an_entry (entry_body e) = some e
an_entry b = none

abbrev pub entries_with_balances : Body → Option (List (EntryDto × ℤ))
entries_with_balances (balances_body es) = some es
entries_with_balances b = none

abbrev pub new_entries : Body → Option (List EntryDto)
new_entries (entries_body es) = some es
new_entries b = none

abbrev pub a_contract : Body → Option ContractDto
a_contract (contract_body c) = some c
a_contract b = none

abbrev pub all_contracts : Body → Option (List ContractDto)
all_contracts (contracts_body cs) = some cs
all_contracts b = none

abbrev pub all_summaries : Body → Option (List SummaryDto)
all_summaries (summaries_body ss) = some ss
all_summaries b = none

abbrev pub an_id : Body → Option ℕ
an_id (id_body id) = some id
an_id b = none

-- No body is read.
abbrev pub nothing : Body → Option (Unit {0})
nothing b = some tt

module _ {S : Type 0} (send : ApiRequest → S → Option Reply × S) (id_text : ℕ → String) where
  unfoldable pub call : {A : Type 0} → (Body → Option A) → ApiRequest → S → Answer A × S
  call decode req s = let r = send req s in (received decode r.0, r.1)

  -- `ListEntries`
  unfoldable pub client_list_entries : S → Answer (List (EntryDto × ℤ)) × S
  client_list_entries = call entries_with_balances get_entries

  -- `AddEntry`
  unfoldable pub client_add_entry : EntryRequestDto → S → Answer EntryDto × S
  client_add_entry input = call an_entry (post_entry (some input))

  -- `UpdateEntry`
  unfoldable pub client_update_entry : ℕ → EntryRequestDto → S → Answer EntryDto × S
  client_update_entry id input = call an_entry (put_entry (id_text id) (some input))

  -- `DeleteEntry`
  unfoldable pub client_delete_entry : ℕ → S → Answer (Unit {0}) × S
  client_delete_entry id = call nothing (delete_entry_row (id_text id))

  -- `ListContracts`
  unfoldable pub client_list_contracts : S → Answer (List ContractDto) × S
  client_list_contracts = call all_contracts get_contracts

  -- `AddContract`
  unfoldable pub client_add_contract : ContractDto → S → Answer ContractDto × S
  client_add_contract input = call a_contract (post_contract (some input))

  -- `DeleteContract`
  unfoldable pub client_delete_contract : ℕ → S → Answer (Unit {0}) × S
  client_delete_contract id = call nothing (delete_contract_row (id_text id))

  -- `Summaries`
  unfoldable pub client_summaries : S → Answer (List SummaryDto) × S
  client_summaries = call all_summaries get_summaries

  -- `Distribute`
  unfoldable pub client_distribute : S → Answer (List EntryDto) × S
  client_distribute = call new_entries post_distribute

  -- `ImportTrip`
  unfoldable pub client_import_trip : ImportTripRequestDto → S → Answer ℕ × S
  client_import_trip input = call an_id (post_import (some input))
