-- ===== src/Web/LedgerForms/Pricing.antt =====
-- internal/web/ledger_handlers.go: the cached pricing stays that of the ledger, whatever
-- the requests.
use lineleader.Base.{
  ℕ, ◌≡◌, inl, inr, refl, sym, ◌∙◌, Bool, true, false, Option, none, some, List, [], ◌∷◌,
  Bool-cases, ◌&&◌, not,
}
use lineleader.Base.Int.{ℤ, pos, ◌+ℤ◌, ltb_ℤ}
use lineleader.Calendar.{Time, Calendar}
use lineleader.Ledger.Cost.{cost_basis}
use lineleader.Ledger.Distribute.{
  allocation_entry, also_created, distribute_after, distribute_contract, distribute_contracts,
  distribute_next_year, distribute_up_to, has_allocation_for, latest_allocation_year,
}
use lineleader.Base.Text.{codes}
use lineleader.Ledger.Money.Text.{parse_micros}
use lineleader.Ledger.Store.Queries.{
  add_contract, add_entry, delete_contract, delete_dues_rate, delete_entry, list_contracts,
  list_dues_rates, contract_known, has_entry, insert_entry, update_rows, update_contract,
  update_entry, upsert_dues_rate, delete_entries,
}
use lineleader.Ledger.Store.Rows.{Action, Db, Result, err, modify, ok, pure, ◌>>=◌}
use lineleader.Ledger.Types.{Contract, Entry}
use lineleader.Web.Costs.{invalidate}
use lineleader.Web.LedgerForms.{
  Checked, Desk, FormError, LedgerReply, LedgerRequest, LedgerView, add_contract_form,
  add_entry_form, bad_request, delete_contract_form, delete_dues, delete_entry_form, distribute,
  distribution_shown, ledger_step, invalid, ledger_body, ledger_serve, parse_contract_form,
  parse_entry_form, path_id, path_year, store_step, stored, if_parsed, if_valid, atoi_or,
  invalid_money, post_entry, post_entry_update, delete_entry_row, post_contract,
  post_contract_update, delete_contract_row, post_dues, delete_dues_row, post_distribute,
  update_contract_form, update_entry_form, upsert_dues, valid,
}

-- The tables that the pricing is computed from.
abbrev pub SamePrices : Db → Db → Type 0
SamePrices db db' = (db'.contracts ≡ db.contracts) × (db'.dues ≡ db.dues)

-- A result that leaves them as they are.
abbrev pub KeepsPrices : {A : Type 0} → Db → Result (A × Db) → Type 0
KeepsPrices db (err e) = Unit
KeepsPrices db (ok (a, db')) = SamePrices db db'

KeepsPrices-pure :
    {A B : Type 0} (db : Db) (f : A → B) (r : Result (A × Db))
    → KeepsPrices db r
    → KeepsPrices db (((λ (d : Db). r) >>= λ a. pure (f a)) db)
KeepsPrices-pure db f (err e) k = tt
KeepsPrices-pure db f (ok (a, db')) k = k

pub cost_basis-SamePrices : (db db' : Db) → SamePrices db db' → cost_basis db' ≡ cost_basis db
unfolding cost_basis list_contracts list_dues_rates
cost_basis-SamePrices db db' h = rw (h.0, h.1) refl

add_entry-KeepsPrices : (e : Entry) (db : Db) → KeepsPrices db (add_entry e db)
unfolding add_entry insert_entry
add_entry-KeepsPrices e db = elim (Bool-cases (contract_known e.contract_id db)) [
  | inl h ↦ rw h (refl, refl)
  | inr h ↦ rw h tt
]

update_entry-KeepsPrices : (e : Entry) (db : Db) → KeepsPrices db (update_entry e db)
unfolding update_entry update_rows
update_entry-KeepsPrices e db =
    elim (Bool-cases (has_entry e.id db && not (contract_known e.contract_id db))) [
      | inl h ↦ rw h tt
      | inr h ↦ rw h (refl, refl)
    ]

module _ (first_of : ℤ → ℕ → Time) (max_year : ℤ) where
  distribute_after-KeepsPrices :
      (c : Contract) (latest : ℤ) (db : Db)
      → KeepsPrices db (distribute_after first_of max_year c latest db)
  unfolding distribute_after
  distribute_after-KeepsPrices c latest db = elim (Bool-cases (ltb_ℤ max_year (latest +ℤ pos 1))) [
    | inl e ↦ rw e (refl, refl)
    | inr e ↦ rw e (elim (Bool-cases (has_allocation_for c.id (latest +ℤ pos 1) db)) [
      | inl g ↦ rw g (refl, refl)
      | inr g ↦ rw g (
          KeepsPrices-pure db _ (add_entry (allocation_entry first_of c (latest +ℤ pos 1)) db)
            (add_entry-KeepsPrices (allocation_entry first_of c (latest +ℤ pos 1)) db))
    ])
  ]

  distribute_contract-KeepsPrices :
      (c : Contract) (db : Db) → KeepsPrices db (distribute_contract first_of max_year c db)
  unfolding distribute_contract
  distribute_contract-KeepsPrices c db = by_latest (latest_allocation_year c.id db)
    where
      by_latest :
          (o : Option ℤ)
          → KeepsPrices db (
              let r : Result (List Entry × Db) = elim o [
                | none ↦ ok ([], db)
                | some latest ↦ distribute_after first_of max_year c latest db
              ] in
              r)
      by_latest none = (refl, refl)
      by_latest (some latest) = distribute_after-KeepsPrices c latest db

  also_created-SamePrices :
      (db : Db) (created : List Entry) (r : Result (List Entry) × Db)
      → SamePrices db r.1
      → SamePrices db (also_created created r).1
  also_created-SamePrices db created (err e, db') h = h
  also_created-SamePrices db created (ok rest, db') h = h

  after_one :
      (db : Db) (cs : List Contract) (r : Result (List Entry × Db))
      → KeepsPrices db r
      → ((db' : Db) → SamePrices db' (distribute_contracts first_of max_year cs db').1)
      → SamePrices db
          (let s : Result (List Entry) × Db = elim r [
            | err e ↦ (err e, db)
            | ok (created, db') ↦
                also_created created (distribute_contracts first_of max_year cs db')
          ] in
            s).1
  after_one db cs (err e) k h = (refl, refl)
  after_one db cs (ok (created, db')) k h =
      also_created-SamePrices db created (distribute_contracts first_of max_year cs db')
        ((h db').0 ∙ k.0, (h db').1 ∙ k.1)

  distribute_contracts-SamePrices :
      (cs : List Contract) (db : Db)
      → SamePrices db (distribute_contracts first_of max_year cs db).1
  unfolding distribute_contracts
  distribute_contracts-SamePrices [] db = (refl, refl)
  distribute_contracts-SamePrices (c ∷ cs) db =
      after_one db cs (distribute_contract first_of max_year c db)
        (distribute_contract-KeepsPrices c db) (distribute_contracts-SamePrices cs)

-- The cached pricing, if it is valid, is that of the ledger.
abbrev pub IsPriced : Desk → Type 0
IsPriced d = d.costs.valid ≡ true → d.costs.cached ≡ cost_basis d.tables

-- What each handler keeps: the cached pricing stays that of the ledger.
abbrev pub Keeps : Desk → LedgerReply × Desk → Type 0
Keeps d r = IsPriced d → IsPriced r.1

IsPriced-SamePrices :
    (d : Desk) (db : Db) → SamePrices d.tables db → IsPriced d → IsPriced (record d { tables = db })
IsPriced-SamePrices d db h p v = p v ∙ sym (cost_basis-SamePrices d.tables db h)

stored-Keeps :
    {A : Type 0} (stale : Bool) (failure : FormError → LedgerReply) (view : LedgerView) (d : Desk)
    (r : Result (A × Db))
    → (stale ≡ false → KeepsPrices d.tables r)
    → Keeps d (stored stale failure (ledger_body view 0 0 none) d r)
unfolding stored invalidate
stored-Keeps stale failure view d (err e) h p = p
stored-Keeps true failure view d (ok (a, db)) h p = λ v. absurd (no_longer v)
  where
    no_longer : (invalidate d.costs).valid ≡ true → ⊥
    no_longer v = cc
stored-Keeps false failure view d (ok (a, db)) h p = IsPriced-SamePrices d db (h refl) p

distribution_shown-Keeps :
    (view : LedgerView) (d : Desk) (r : Result (List Entry) × Db)
    → SamePrices d.tables r.1
    → Keeps d (distribution_shown view d r)
unfolding distribution_shown
distribution_shown-Keeps view d (err e, db) h = IsPriced-SamePrices d db h
distribution_shown-Keeps view d (ok created, db) h = IsPriced-SamePrices d db h

store_step-Keeps :
    {A : Type 0} (failure : FormError → LedgerReply) (view : LedgerView) (d : Desk) (m : Action A)
    → Keeps d (store_step true failure (ledger_body view 0 0 none) m d)
unfolding store_step
store_step-Keeps failure view d m =
    stored-Keeps true failure view d (m d.tables) λ e. absurd (true_false e)
  where
    true_false : true ≡ false → ⊥
    true_false h = cc

store_step-Keeps_prices :
    {A : Type 0} (failure : FormError → LedgerReply) (view : LedgerView) (d : Desk) (m : Action A)
    → KeepsPrices d.tables (m d.tables)
    → Keeps d (store_step false failure (ledger_body view 0 0 none) m d)
unfolding store_step
store_step-Keeps_prices failure view d m h = stored-Keeps false failure view d (m d.tables) λ e. h

if_parsed-Keeps :
    {A : Type 0} (d : Desk) (o : Option A) (b : LedgerReply × Desk) (f : A → LedgerReply × Desk)
    → Keeps d b
    → ((a : A) → Keeps d (f a))
    → Keeps d (if_parsed o b f)
unfolding if_parsed
if_parsed-Keeps d none b f h k = h
if_parsed-Keeps d (some a) b f h k = k a

if_valid-Keeps :
    {A : Type 0} (d : Desk) (c : Checked A) (reply : FormError → LedgerReply)
    (g : A → LedgerReply × Desk)
    → ((a : A) → Keeps d (g a))
    → Keeps d (if_valid c (λ e. (reply e, d)) g)
unfolding if_valid
if_valid-Keeps d (invalid e) reply g k = λ p. p
if_valid-Keeps d (valid a) reply g k = k a

module _ (cal : Calendar) (first_of : ℤ → ℕ → Time) (this_year : ℤ) where
  handler-Keeps :
      (req : LedgerRequest) (d : Desk) → Keeps d (ledger_step cal first_of this_year req d)
  unfolding ledger_step add_entry_form update_entry_form delete_entry_form add_contract_form
      update_contract_form delete_contract_form upsert_dues delete_dues distribute delete_entry
      delete_entries distribute_next_year distribute_up_to
  handler-Keeps (post_entry v f) d =
      if_valid-Keeps d (parse_entry_form cal f 0) (λ e. ledger_body v 0 0 (some e)) _
        λ e.
          store_step-Keeps_prices (λ x. ledger_body v 0 0 (some x)) v d (add_entry e)
            (add_entry-KeepsPrices e d.tables)
  handler-Keeps (post_entry_update v p f) d =
      if_parsed-Keeps d (path_id p) (bad_request, d) _ (λ p. p)
        λ id.
          if_valid-Keeps d (parse_entry_form cal f id) (λ e. ledger_body v id 0 (some e)) _
            λ e.
              store_step-Keeps_prices (λ x. ledger_body v id 0 (some x)) v d (update_entry e)
                (update_entry-KeepsPrices e d.tables)
  handler-Keeps (delete_entry_row v p) d =
      if_parsed-Keeps d (path_id p) (bad_request, d) _ (λ p. p)
        λ id.
          store_step-Keeps_prices (λ x. ledger_body v 0 0 (some x)) v d (modify (delete_entry id))
            (refl, refl)
  handler-Keeps (post_contract v f) d =
      if_valid-Keeps d (parse_contract_form f 0) (λ e. ledger_body v 0 0 (some e)) _
        λ c. store_step-Keeps (λ x. ledger_body v 0 0 (some x)) v d (add_contract c)
  handler-Keeps (post_contract_update v p f) d =
      if_parsed-Keeps d (path_id p) (bad_request, d) _ (λ p. p)
        λ id.
          if_valid-Keeps d (parse_contract_form f id) (λ e. ledger_body v 0 id (some e)) _
            λ c.
              store_step-Keeps (λ x. ledger_body v 0 id (some x)) v d (modify (update_contract c))
  handler-Keeps (delete_contract_row v p) d =
      if_parsed-Keeps d (path_id p) (bad_request, d) _ (λ p. p)
        λ id. store_step-Keeps (λ x. ledger_body v 0 0 (some x)) v d (modify (delete_contract id))
  handler-Keeps (post_dues v none) d = λ p. p
  handler-Keeps (post_dues v (some f)) d =
      if_parsed-Keeps d (parse_micros (codes (f "rate")))
        (ledger_body v 0 0 (some invalid_money), d) _ (λ p. p)
        λ rate.
          store_step-Keeps (λ x. ledger_body v 0 0 (some x)) v d
            (upsert_dues_rate (record { use_year = atoi_or (f "year") (pos 0); rate = rate }))
  handler-Keeps (delete_dues_row v p) d =
      if_parsed-Keeps d (path_year p) (bad_request, d) _ (λ p. p)
        λ year.
          store_step-Keeps (λ x. ledger_body v 0 0 (some x)) v d (modify (delete_dues_rate year))
  handler-Keeps (post_distribute v) d = distribution_shown-Keeps v d _ (
      distribute_contracts-SamePrices first_of (this_year +ℤ pos 1) (list_contracts d.tables)
        d.tables)

  -- Rendering changes nothing.
  pub ledger_serve-IsPriced :
      (readable : Bool) (req : LedgerRequest) (d : Desk)
      → IsPriced d
      → IsPriced (ledger_serve cal first_of this_year readable req d).1
  unfolding ledger_serve
  ledger_serve-IsPriced readable req d = handler-Keeps req d
