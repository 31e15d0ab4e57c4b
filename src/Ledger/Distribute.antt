-- ===== src/Ledger/Distribute.antt =====
-- internal/ledger/distribute.go: the allocations of the next use year.
pub mod Laws
use lineleader.Base.{
  ℕ, ◌+◌, Bool, ◌&&◌, Option, none, some, List, [], ◌∷◌, ◌++◌, length, keep, ltb, ◌==◌, str_eq,
  if◌then◌else◌,
}
use lineleader.Base.Int.{ℤ, pos, ◌+ℤ◌, ltb_ℤ, eqb_ℤ}
use lineleader.Calendar.{Time}
use lineleader.Ledger.Types.{Contract, Entry, kind_allocation}
use lineleader.Ledger.Store.Rows.{Db, Result, ok, err, Action, pure, to_int32, ◌>>=◌}
use lineleader.Ledger.Store.Queries.{list_contracts, add_entry}

-- WHERE contract_id = $1 AND kind = $2
abbrev pub allocates_for : ℕ → Entry → Bool
allocates_for id e =
    str_eq e.kind kind_allocation && elim e.contract_id [ none ↦ Bool.false | some c ↦ c == id ]

abbrev pub later_year : ℤ → Option ℤ → ℤ
later_year y none = y
later_year y (some z) = if ltb_ℤ y z then z else y

-- The greatest use year of a contract's allocations.
unfoldable pub latest_year_of : ℕ → List Entry → Option ℤ
latest_year_of id [] = none
latest_year_of id (e ∷ es) =
    let rest = latest_year_of id es in
    if allocates_for id e then some (later_year e.use_year rest) else rest

-- `latestAllocationYear`: ORDER BY use_year DESC LIMIT 1
unfoldable pub latest_allocation_year : ℕ → Db → Option ℤ
latest_allocation_year id db = latest_year_of id db.entries

-- `CountAllocationFor`
unfoldable pub count_allocation_for : ℕ → ℤ → Db → ℕ
count_allocation_for id y db =
    length (keep (λ (e : Entry). allocates_for id e && eqb_ℤ e.use_year y) db.entries)

-- `hasAllocationFor`
unfoldable pub has_allocation_for : ℕ → ℤ → Db → Bool
has_allocation_for id y db = ltb 0 (count_allocation_for id (to_int32 y) db)

-- The entry that the loop makes; `first_of` is `time.Date` at the first day of a month.
unfoldable pub allocation_entry : (ℤ → ℕ → Time) → Contract → ℤ → Entry
allocation_entry first_of c target = record {
  id = 0;
  use_year = target;
  date = first_of target c.use_year_month;
  desc = c.name;
  kind = kind_allocation;
  allotted = c.annual_points;
  used = pos 0;
  tag = "";
  contract_id = some c.id;
  running_balance = pos 0;
  cost = pos 0;
  cost_known = Bool.false;
  cost_projected = Bool.false;
}

-- The rest of the loop's body, for a contract whose latest allocation is known.
unfoldable pub distribute_after : (ℤ → ℕ → Time) → ℤ → Contract → ℤ → Action (List Entry)
distribute_after first_of max_year c latest db =
    let target = latest +ℤ pos 1 in
    let e = allocation_entry first_of c target in
    if ltb_ℤ max_year target
    then ok ([], db)
    else (if has_allocation_for c.id target db
        then ok ([], db)
        else (add_entry e >>= λ new_id. pure (record e { id = new_id } ∷ [])) db)

-- The loop's body.
unfoldable pub distribute_contract : (ℤ → ℕ → Time) → ℤ → Contract → Action (List Entry)
distribute_contract first_of max_year c db = elim (latest_allocation_year c.id db) [
  | none ↦ ok ([], db)
  | some latest ↦ distribute_after first_of max_year c latest db
]

-- The entries of one contract before those of the others.
abbrev pub also_created : List Entry → Result (List Entry) × Db → Result (List Entry) × Db
also_created created (err e, db) = (err e, db)
also_created created (ok rest, db) = (ok (created ++ rest), db)

-- The loop is no transaction: what was created before an error stays.
unfoldable pub distribute_contracts :
    (ℤ → ℕ → Time) → ℤ → List Contract → Db → Result (List Entry) × Db
distribute_contracts first_of max_year [] db = (ok [], db)
distribute_contracts first_of max_year (c ∷ cs) db =
    elim (distribute_contract first_of max_year c db) [
      | err e ↦ (err e, db)
      | ok (created, db') ↦ also_created created (distribute_contracts first_of max_year cs db')
    ]

-- `distributeUpTo`
unfoldable pub distribute_up_to : (ℤ → ℕ → Time) → ℤ → Db → Result (List Entry) × Db
distribute_up_to first_of max_year db =
    distribute_contracts first_of max_year (list_contracts db) db

-- `DistributeNextYear`, in the year `this_year`.
unfoldable pub distribute_next_year : (ℤ → ℕ → Time) → ℤ → Db → Result (List Entry) × Db
distribute_next_year first_of this_year = distribute_up_to first_of (this_year +ℤ pos 1)
