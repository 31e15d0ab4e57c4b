-- ===== src/Client/Editing.antt =====
-- `dvc ledger edit` against the handlers of the JSON surface: only the flags that are given change.
use lineleader.Base.{
  Bool, ℕ, ◌==◌, true, false, Option, none, some, List, [], ◌∷◌, String, if◌then◌else◌,
}
use lineleader.Base.Int.{ℤ}
use lineleader.Calendar.{Calendar, Time}
use lineleader.Ledger.Store.Queries.{update_rows}
use lineleader.Ledger.Store.Rows.{Db, Result, err, foreign_key_violation, ok}
use lineleader.Ledger.Types.{Entry}
use lineleader.Web.Api.{EntryDto, Reply, entry_dto_from, store_failed}
use lineleader.Web.Api.Routes.{ApiRequest, api_serve}
use lineleader.Web.Api.RoundTrip.{row_of}
use lineleader.Client.{Answer, answer, api_error, failure}
use lineleader.Client.Reports.{CommandOutcome, client_failed, done, stopped, updated_entry}
use lineleader.Client.Commands.{EntryFlags, given, linked_or}

-- The first entry of a listing with an id.
abbrev pub first_entry : ℕ → List Entry → Option Entry
first_entry id [] = none
first_entry id (e ∷ es) = let rest = first_entry id es in if e.id == id then some e else rest

-- The entry with the flags that are given, on the day of its date.
abbrev pub edited_entry : ℕ → EntryFlags → Time → Entry → Entry
edited_entry id f day e = record (row_of e) {
  id = id;
  use_year = given f.year e.use_year;
  date = day;
  desc = given f.desc e.desc;
  kind = given f.kind e.kind;
  allotted = given f.allotted e.allotted;
  used = given f.used e.used;
  tag = given f.tag e.tag;
  contract_id = linked_or f.contract e.contract_id;
}

-- The end of the command, where the contract of the edited entry is in the table and where it
-- is not.
abbrev pub edit_end : ℕ → Entry → Db → Bool → CommandOutcome × Db
edit_end id e db true = (done (updated_entry id), update_rows e db)
edit_end id e db false =
    (stopped (client_failed (api_error 500 (some (store_failed foreign_key_violation)))), db)

module _ (cal : Calendar) (format_day : Time → String) (month_name : ℕ → String) where
  module _ (first_of : ℤ → ℕ → Time) (this_year : ℤ) (id_text : ℕ → String) where
    -- The server, as the client reaches it.
    abbrev pub served : ApiRequest → Db → Option Reply × Db
    served req db =
        let r = api_serve cal format_day month_name first_of this_year req db in (some r.0, r.1)

    -- The answer of the update, by what the store makes of it.
    update_answer : Entry → Db → Result (Unit {0} × Db) → Answer EntryDto × Db
    update_answer e db (ok (u, db')) = (answer (entry_dto_from cal format_day month_name e), db')
    update_answer e db (err x) = (failure (api_error 500 (some (store_failed x))), db)
