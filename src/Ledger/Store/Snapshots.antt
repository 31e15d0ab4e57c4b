-- ===== src/Ledger/Store/Snapshots.antt =====
-- The reads of trip_accounting.go: `lotSnapshot` and `unattributedUsage`.
use lineleader.Base.{
  ℕ, Bool, Option, none, some, List, [], ◌∷◌, map, ltb, ◌==◌, if◌then◌else◌, sum_of,
}
use lineleader.Base.Int.{ℤ, pos, ◌+ℤ◌, ltb_ℤ}
use lineleader.Base.Sort.{sort_slice}
use lineleader.Ledger.Types.{Contract, Entry, PointLot, PointDraw, blank}
use lineleader.Ledger.Allocation.{same_key}
use lineleader.Ledger.Accounting.{Snapshot}
use lineleader.Ledger.Store.Rows.{Db}

-- `lotSnapshotContracts`: only the id and the month are read.
unfoldable pub snapshot_contracts : Db → List Contract
snapshot_contracts db =
    map
      (λ (c : Contract). record {
        id = c.id;
        name = "";
        number = "";
        home_resort = "";
        annual_points = pos 0;
        use_year_month = c.use_year_month;
        term_years = pos 0;
        purchase_price = pos 0;
        closing_costs = pos 0;
      })
      (sort_slice (λ (a b : Contract). ltb a.id b.id) db.contracts)

-- One row of GROUP BY contract_id, use_year more.
unfoldable pub add_to_lot : ℕ → ℤ → ℤ → List PointLot → List PointLot
add_to_lot i y p [] = record { contract_id = i; use_year = y; points = p } ∷ []
add_to_lot i y p (lot ∷ lots) =
    if same_key lot.contract_id lot.use_year i y
    then record lot { points = lot.points +ℤ p } ∷ lots
    else lot ∷ add_to_lot i y p lots

-- WHERE contract_id IS NOT NULL and the column is positive.
unfoldable pub add_counted : Option ℕ → ℤ → ℤ → List PointLot → List PointLot
add_counted none y p lots = lots
add_counted (some c) y p lots = if ltb_ℤ (pos 0) p then add_to_lot c y p lots else lots

-- SUM of a column, GROUP BY contract_id, use_year.
unfoldable pub group_points : (Entry → ℤ) → List Entry → List PointLot
group_points column [] = []
group_points column (e ∷ es) =
    add_counted e.contract_id e.use_year (column e) (group_points column es)

lot_before : PointLot → PointLot → Bool
lot_before a b =
    if a.contract_id == b.contract_id
    then ltb_ℤ a.use_year b.use_year
    else ltb a.contract_id b.contract_id

-- `lotSnapshotLots`
unfoldable pub snapshot_lots : Db → List PointLot
unfolding lot_before
snapshot_lots db = sort_slice lot_before (group_points (λ (e : Entry). e.allotted) db.entries)

-- `lotSnapshotConsumed`
unfoldable pub snapshot_consumed : Db → List PointDraw
unfolding lot_before
snapshot_consumed db =
    map
      (λ (lot : PointLot). record {
        contract_id = lot.contract_id;
        use_year = lot.use_year;
        disposition = blank;
        points = lot.points;
      })
      (sort_slice lot_before (group_points (λ (e : Entry). e.used) db.entries))

-- `unattributedUsage`
unfoldable pub unattributed_usage : Db → ℤ
unattributed_usage db =
    sum_of
      (λ (e : Entry). elim e.contract_id [
        | none ↦ if ltb_ℤ (pos 0) e.used then e.used else pos 0
        | some c ↦ pos 0
      ])
      db.entries

-- `lotSnapshot` with `unattributedUsage`; locking changes no result.
unfoldable pub snapshot : Db → Snapshot
snapshot db = record {
  contracts = snapshot_contracts db;
  lots = snapshot_lots db;
  consumed = snapshot_consumed db;
  legacy_used = unattributed_usage db;
}
