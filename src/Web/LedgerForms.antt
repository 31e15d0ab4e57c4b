-- ===== src/Web/LedgerForms.antt =====
-- internal/web/ledger_handlers.go: what the forms of the ledger pages mean, and what each handler
-- does to the ledger and to the cached pricing. A handler holds the mutex while it works, so it is
-- one step. An id below 1 names no row; 0 stands for all of these.
mod Tests
pub mod Pricing
use lineleader.Base.{ℕ, Bool, true, false, Option, none, some, List, String, str_eq, if◌then◌else◌}
use lineleader.Base.Int.{ℤ, pos, pos_part, eqb_ℤ}
use lineleader.Base.Text.{Text, codes, parse_int}
use lineleader.Calendar.{Time, Calendar}
use lineleader.Ledger.Cost.{CostBasis}
use lineleader.Ledger.Distribute.{distribute_next_year}
use lineleader.Ledger.Money.Text.{parse_cents, parse_micros}
use lineleader.Ledger.Months.{parse_month}
use lineleader.Ledger.Store.Queries.{
  add_contract, add_entry, delete_contract, delete_dues_rate, delete_entry, update_contract,
  update_entry, upsert_dues_rate,
}
use lineleader.Ledger.Store.Rows.{Action, Db, Error, Result, err, modify, ok}
use lineleader.Ledger.Types.{Contract, DuesRate, Entry}
use lineleader.Web.Costs.{CostProvider, invalidate}

-- `ledgerViewKind`
pub data LedgerView : Type 0 where
  recent history contracts : LedgerView

-- `parseLedgerViewKind`
unfoldable pub parse_ledger_view_kind : String → LedgerView
parse_ledger_view_kind s =
    if str_eq s "history" then history else if str_eq s "contracts" then contracts else recent

-- The errors that a body is rendered with.
pub data FormError : Type 0 where
  unreadable_form invalid_date invalid_month invalid_money : FormError
  store_error : Error → FormError

-- A value that is read from a form.
pub data Checked (A : Type 0) : Type 0 where
  valid : A → Checked A
  invalid : FormError → Checked A

infixl 5 ◌>>=◌
abbrev pub ◌>>=◌ : {A B : Type 0} → Checked A → (A → Checked B) → Checked B
◌>>=◌ c f = elim c [ valid a ↦ f a | invalid e ↦ invalid e ]

abbrev pub or_error : {A : Type 0} → FormError → Option A → Checked A
or_error e none = invalid e
or_error e (some a) = valid a

-- `r.FormValue`; a request whose `ParseForm` fails has none.
abbrev pub Form : Type 0
Form = String → String

-- `atoiOr` and `atoi64Or`: `int` has 64 bits.
unfoldable pub atoi_or : String → ℤ → ℤ
atoi_or s def = elim (parse_int (codes s)) [ none ↦ def | some n ↦ n ]

-- `pathID` and `pathYear`: none is the reply 400.
unfoldable pub path_id : String → Option ℕ
path_id s = elim (parse_int (codes s)) [ none ↦ none | some n ↦ some (pos_part n) ]

unfoldable pub path_year : String → Option ℤ
path_year s = parse_int (codes s)

-- The contract that an entry form names: none for a blank or a zero.
unfoldable pub form_contract : Form → Option ℕ
form_contract f =
    let cid = atoi_or (f "contract") (pos 0) in
    if eqb_ℤ cid (pos 0) then none else some (pos_part cid)

-- `parseEntryForm`
unfoldable pub parse_entry_form : Calendar → Option Form → ℕ → Checked Entry
parse_entry_form cal form id = do
  f ← or_error unreadable_form form
  d ← or_error invalid_date (cal.parse_day (f "date"))
  valid (
      let year = atoi_or (f "year") (pos 0) in
      record {
        id = id;
        use_year = if eqb_ℤ year (pos 0) then cal.year d else year;
        date = d;
        desc = f "desc";
        kind = f "kind";
        allotted = atoi_or (f "allotted") (pos 0);
        used = atoi_or (f "used") (pos 0);
        tag = f "tag";
        contract_id = form_contract f;
        running_balance = pos 0;
        cost = pos 0;
        cost_known = false;
        cost_projected = false;
      })

-- `parseContractForm`
unfoldable pub parse_contract_form : Option Form → ℕ → Checked Contract
parse_contract_form form id = do
  f ← or_error unreadable_form form
  month ← or_error invalid_month (parse_month (codes (f "use_year_month")))
  price ← or_error invalid_money (parse_cents (codes (f "price")))
  closing ← or_error invalid_money (parse_cents (codes (f "closing")))
  valid (record {
    id = id;
    name = f "name";
    number = f "number";
    home_resort = f "resort";
    annual_points = atoi_or (f "points") (pos 0);
    use_year_month = month;
    term_years = atoi_or (f "term_years") (pos 0);
    purchase_price = price;
    closing_costs = closing;
  })

-- What the handlers work on.
pub record Desk : Type 0 where
  pub tables : Db
  pub costs : CostProvider CostBasis

-- `ledger_body`: `renderBody` with its view, the entry and the contract in edit mode (0 for none),
-- and the error to show. `unreadable` is its reply 500, where a read of the store for the body
-- fails.
pub data LedgerReply : Type 0 where
  bad_request unreadable : LedgerReply
  ledger_body : LedgerView → ℕ → ℕ → Option FormError → LedgerReply

-- `renderBody`
unfoldable pub rendered : Bool → LedgerReply → LedgerReply
rendered true r = r
rendered false (ledger_body view entry contract e) = unreadable
rendered false r = r

-- What a handler does with the result of a method of the store: an error is rendered, and changes
-- nothing; a success forgets the cached pricing where the handler calls `Invalidate`.
unfoldable pub stored :
    {A : Type 0}
    → Bool
    → (FormError → LedgerReply)
    → LedgerReply
    → Desk
    → Result (A × Db)
    → LedgerReply × Desk
stored stale failure success d (err e) = (failure (store_error e), d)
stored stale failure success d (ok (a, db)) =
    (success, record { tables = db; costs = if stale then invalidate d.costs else d.costs })

unfoldable pub store_step :
    {A : Type 0}
    → Bool
    → (FormError → LedgerReply)
    → LedgerReply
    → Action A
    → Desk
    → LedgerReply × Desk
store_step stale failure success m d = stored stale failure success d (m d.tables)

-- What `distribute` does with the result, an error of which leaves what was created before it.
unfoldable pub distribution_shown :
    LedgerView → Desk → Result (List Entry) × Db → LedgerReply × Desk
distribution_shown view d (err e, db) =
    (ledger_body view 0 0 (some (store_error e)), record d { tables = db })
distribution_shown view d (ok created, db) = (ledger_body view 0 0 none, record d { tables = db })

-- The two tests that a handler starts with: of a path value, and of what the form means.
unfoldable pub if_parsed : {A B : Type 0} → Option A → B → (A → B) → B
if_parsed none b f = b
if_parsed (some a) b f = f a

unfoldable pub if_valid : {A B : Type 0} → Checked A → (FormError → B) → (A → B) → B
if_valid (invalid e) f g = f e
if_valid (valid a) f g = g a

-- The requests that change the ledger: the `view` and, in this order, the path value and the form.
pub data LedgerRequest : Type 0 where
  post_entry : LedgerView → Option Form → LedgerRequest
  post_entry_update : LedgerView → String → Option Form → LedgerRequest
  delete_entry_row : LedgerView → String → LedgerRequest
  post_contract : LedgerView → Option Form → LedgerRequest
  post_contract_update : LedgerView → String → Option Form → LedgerRequest
  delete_contract_row : LedgerView → String → LedgerRequest
  post_dues : LedgerView → Option Form → LedgerRequest
  delete_dues_row : LedgerView → String → LedgerRequest
  post_distribute : LedgerView → LedgerRequest

module _ (cal : Calendar) (first_of : ℤ → ℕ → Time) (this_year : ℤ) where
  -- `addEntry`
  unfoldable pub add_entry_form : LedgerView → Option Form → Desk → LedgerReply × Desk
  add_entry_form view form d =
      if_valid (parse_entry_form cal form 0) (λ e. (ledger_body view 0 0 (some e), d))
        λ e.
          store_step false (λ x. ledger_body view 0 0 (some x)) (ledger_body view 0 0 none)
            (add_entry e) d

  -- `updateEntry`
  unfoldable pub update_entry_form : LedgerView → String → Option Form → Desk → LedgerReply × Desk
  update_entry_form view path form d =
      if_parsed (path_id path) (bad_request, d)
        λ id.
          if_valid (parse_entry_form cal form id) (λ e. (ledger_body view id 0 (some e), d))
            λ e.
              store_step false (λ x. ledger_body view id 0 (some x)) (ledger_body view 0 0 none)
                (update_entry e) d

  -- `deleteEntry`
  unfoldable pub delete_entry_form : LedgerView → String → Desk → LedgerReply × Desk
  delete_entry_form view path d =
      if_parsed (path_id path) (bad_request, d)
        λ id.
          store_step false (λ x. ledger_body view 0 0 (some x)) (ledger_body view 0 0 none)
            (modify (delete_entry id)) d

  -- `addContract`
  unfoldable pub add_contract_form : LedgerView → Option Form → Desk → LedgerReply × Desk
  add_contract_form view form d =
      if_valid (parse_contract_form form 0) (λ e. (ledger_body view 0 0 (some e), d))
        λ c.
          store_step true (λ x. ledger_body view 0 0 (some x)) (ledger_body view 0 0 none)
            (add_contract c) d

  -- `updateContract`
  unfoldable pub update_contract_form :
      LedgerView → String → Option Form → Desk → LedgerReply × Desk
  update_contract_form view path form d =
      if_parsed (path_id path) (bad_request, d)
        λ id.
          if_valid (parse_contract_form form id) (λ e. (ledger_body view 0 id (some e), d))
            λ c.
              store_step true (λ x. ledger_body view 0 id (some x)) (ledger_body view 0 0 none)
                (modify (update_contract c)) d

  -- `deleteContract`
  unfoldable pub delete_contract_form : LedgerView → String → Desk → LedgerReply × Desk
  delete_contract_form view path d =
      if_parsed (path_id path) (bad_request, d)
        λ id.
          store_step true (λ x. ledger_body view 0 0 (some x)) (ledger_body view 0 0 none)
            (modify (delete_contract id)) d

  -- `upsertDues`
  unfoldable pub upsert_dues : LedgerView → Option Form → Desk → LedgerReply × Desk
  upsert_dues view none d = (bad_request, d)
  upsert_dues view (some f) d =
      if_parsed (parse_micros (codes (f "rate"))) (ledger_body view 0 0 (some invalid_money), d)
        λ rate.
          store_step true (λ x. ledger_body view 0 0 (some x)) (ledger_body view 0 0 none)
            (upsert_dues_rate (record { use_year = atoi_or (f "year") (pos 0); rate = rate })) d

  -- `deleteDues`
  unfoldable pub delete_dues : LedgerView → String → Desk → LedgerReply × Desk
  delete_dues view path d =
      if_parsed (path_year path) (bad_request, d)
        λ year.
          store_step true (λ x. ledger_body view 0 0 (some x)) (ledger_body view 0 0 none)
            (modify (delete_dues_rate year)) d

  -- `distribute`
  unfoldable pub distribute : LedgerView → Desk → LedgerReply × Desk
  distribute view d = distribution_shown view d (distribute_next_year first_of this_year d.tables)

  -- The handler of each route, up to the rendering.
  unfoldable pub ledger_step : LedgerRequest → Desk → LedgerReply × Desk
  ledger_step (post_entry v f) = add_entry_form v f
  ledger_step (post_entry_update v p f) = update_entry_form v p f
  ledger_step (delete_entry_row v p) = delete_entry_form v p
  ledger_step (post_contract v f) = add_contract_form v f
  ledger_step (post_contract_update v p f) = update_contract_form v p f
  ledger_step (delete_contract_row v p) = delete_contract_form v p
  ledger_step (post_dues v f) = upsert_dues v f
  ledger_step (delete_dues_row v p) = delete_dues v p
  ledger_step (post_distribute v) = distribute v

  -- The handlers with `renderBody`; `readable` says whether the store can be read for the body, which
  -- is after the request has done its work.
  unfoldable pub ledger_serve : Bool → LedgerRequest → Desk → LedgerReply × Desk
  ledger_serve readable req d = let r = ledger_step req d in (rendered readable r.0, r.1)
