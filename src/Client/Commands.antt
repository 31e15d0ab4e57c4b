-- ===== src/Client/Commands.antt =====
-- cmd/dvc/ledger.go: the commands of `dvc ledger`, from their parsed flags on. A flag that is not
-- given is none. What a command prints is its rows, before they are aligned. An id is a number from
-- 1 on, and 0 is none. The config is resolved before any request.
use lineleader.Base.{
  ℕ, ◌==◌, ◌||◌, Bool, false, Option, none, some, List, [], ◌∷◌, String, str_eq, map, if◌then◌else◌,
}
use lineleader.Base.Int.{ℤ, pos, eqb_ℤ}
use lineleader.Ledger.Types.{kind_usage}
use lineleader.Web.Api.{ContractDto, EntryDto, EntryRequestDto}
use lineleader.Web.Api.Routes.{ApiRequest}
use lineleader.Web.Api.{Reply}
use lineleader.Client.Reports.{
  CommandOutcome, added_contract, added_entry, client_failed, deleted_entry, distributed, done,
  flags_required, ledger_line, ledger_rows, listed_contracts, no_config, not_found, stopped,
  updated_entry, year_line,
}
use lineleader.Client.{
  Answer, ClientConfig, answer, client_add_contract, client_add_entry, client_delete_entry,
  client_distribute, client_list_contracts, client_list_entries, client_summaries,
  client_update_entry, failure,
}

-- `entryFields`: the flags of `add` and `edit`.
pub record EntryFlags : Type 0 where
  pub year : Option ℤ
  pub date : Option String
  pub desc : Option String
  pub kind : Option String
  pub allotted : Option ℤ
  pub used : Option ℤ
  pub tag : Option String
  pub contract : Option ℕ

abbrev pub given {ℓ} : {A : Type ℓ} → Option A → A → A
given none default = default
given (some a) default = a

-- The contract of `toEntryInput`: 0 is the flag's default.
abbrev pub linked : Option ℕ → Option ℕ
linked none = none
linked (some id) = if id == 0 then none else some id

-- `toEntryInput`
unfoldable pub to_entry_input : EntryFlags → EntryRequestDto
to_entry_input f = record {
  use_year = given f.year (pos 0);
  date = given f.date "";
  desc = given f.desc "";
  kind = given f.kind kind_usage;
  allotted = given f.allotted (pos 0);
  used = given f.used (pos 0);
  tag = given f.tag "";
  contract_id = linked f.contract;
}

abbrev pub linked_or : Option ℕ → Option ℕ → Option ℕ
linked_or none old = old
linked_or (some id) old = some id

-- The input of `runLedgerEdit`: the entry as it is, with the flags that are given.
unfoldable pub edited_input : EntryFlags → EntryRequestDto → EntryRequestDto
edited_input f old = record {
  use_year = given f.year old.use_year;
  date = given f.date old.date;
  desc = given f.desc old.desc;
  kind = given f.kind old.kind;
  allotted = given f.allotted old.allotted;
  used = given f.used old.used;
  tag = given f.tag old.tag;
  contract_id = linked_or f.contract old.contract_id;
}

-- The commands, with their flags.
pub data Command : Type 0 where
  show_ledger list_contracts distribute_points : Command
  new_contract : String → String → String → ℤ → String → Command
  add : EntryFlags → Command
  edit : ℕ → EntryFlags → Command
  delete : ℕ → Command

-- The entry with an id.
unfoldable pub entry_with_id : ℕ → List (EntryDto × ℤ) → Option EntryDto
entry_with_id id [] = none
entry_with_id id ((e, balance) ∷ es) =
    let rest = entry_with_id id es in if e.id == id then some e else rest

-- The checks of the flags that a command needs.
abbrev pub contract_lacks : String → ℤ → String → Bool
contract_lacks name points month = str_eq name "" || eqb_ℤ points (pos 0) || str_eq month ""

abbrev pub entry_lacks : EntryFlags → Bool
entry_lacks f = str_eq (given f.date "") "" || str_eq (given f.desc "") ""

unfoldable pub lacks_flags : Command → Bool
lacks_flags (new_contract name number resort points month) = contract_lacks name points month
lacks_flags (add f) = entry_lacks f
lacks_flags (edit id f) = id == 0
lacks_flags (delete id) = id == 0
lacks_flags c = false

module _ {S : Type 0} (send : ApiRequest → S → Option Reply × S) (id_text : ℕ → String) where
  -- What follows a call; its error ends the command.
  unfoldable pub after_call :
      {A : Type 0} → Answer A × S → (A → S → CommandOutcome × S) → CommandOutcome × S
  after_call (failure e, s) f = (stopped (client_failed e), s)
  after_call (answer a, s) f = f a s

  -- `runLedgerShow`. Where only the second request fails, the first table is on the screen already.
  unfoldable pub run_ledger_show : S → CommandOutcome × S
  run_ledger_show s = after_call (client_list_entries send id_text s) λ entries s'.
      after_call (client_summaries send id_text s') λ summaries s''.
        (done (ledger_rows (map ledger_line entries) (map year_line summaries)), s'')

  -- `runLedgerContracts`
  unfoldable pub run_contracts_list : S → CommandOutcome × S
  run_contracts_list s =
      after_call (client_list_contracts send id_text s)
        λ contracts s'. (done (listed_contracts contracts), s')

  unfoldable pub run_contracts_add : ContractDto → S → CommandOutcome × S
  run_contracts_add c s =
      if contract_lacks c.name c.annual_points c.use_year_month
      then (stopped flags_required, s)
      else after_call (client_add_contract send id_text c s) λ c' s'. (done (added_contract c'), s')

  -- `runLedgerAdd`
  unfoldable pub run_ledger_add : EntryFlags → S → CommandOutcome × S
  run_ledger_add f s =
      if entry_lacks f
      then (stopped flags_required, s)
      else after_call (client_add_entry send id_text (to_entry_input f) s)
          λ e s'. (done (added_entry e.id), s')

  -- The steps of `runLedgerEdit` from the listing on.
  unfoldable pub edit_found : ℕ → EntryFlags → Option EntryDto → S → CommandOutcome × S
  edit_found id f none s = (stopped not_found, s)
  edit_found id f (some e) s =
      after_call (client_update_entry send id_text id (edited_input f e.fields) s)
        λ e' s'. (done (updated_entry e'.id), s')

  -- `runLedgerEdit`
  unfoldable pub run_ledger_edit : ℕ → EntryFlags → S → CommandOutcome × S
  run_ledger_edit id f s =
      if id == 0
      then (stopped flags_required, s)
      else after_call (client_list_entries send id_text s)
          λ entries s'. edit_found id f (entry_with_id id entries) s'

  -- `runLedgerDelete`
  unfoldable pub run_ledger_delete : ℕ → S → CommandOutcome × S
  run_ledger_delete id s =
      if id == 0
      then (stopped flags_required, s)
      else after_call (client_delete_entry send id_text id s) λ u s'. (done (deleted_entry id), s')

  -- `runLedgerDistribute`
  unfoldable pub run_ledger_distribute : S → CommandOutcome × S
  run_ledger_distribute s =
      after_call (client_distribute send id_text s) λ created s'. (done (distributed created), s')

  -- `runLedger` with its flags parsed.
  unfoldable pub run_command : Command → S → CommandOutcome × S
  run_command show_ledger = run_ledger_show
  run_command list_contracts = run_contracts_list
  run_command distribute_points = run_ledger_distribute
  run_command (new_contract name number resort points month) = run_contracts_add (record {
    id = 0;
    name = name;
    number = number;
    home_resort = resort;
    annual_points = points;
    use_year_month = month;
  })
  run_command (add f) = run_ledger_add f
  run_command (edit id f) = run_ledger_edit id f
  run_command (delete id) = run_ledger_delete id

  -- With `newLedgerClient`, whose config is resolved behind the checks of the flags: a command
  -- without a server makes no request.
  unfoldable pub run_ledger : Option ClientConfig → Command → S → CommandOutcome × S
  run_ledger none c s = (stopped (if lacks_flags c then flags_required else no_config), s)
  run_ledger (some config) c s = run_command c s
