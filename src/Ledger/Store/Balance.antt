-- ===== src/Ledger/Store/Balance.antt =====
-- The balance of a lot, read off the entries: what the grouped queries of the snapshot sum up to.
use lineleader.Base.{
  ℕ, ◌≡◌, refl, ap, ◌∙◌, inl, inr, Bool, true, false, Option, none, some, List, [], ◌∷◌, map,
  Bool-cases, if◌then◌else◌, sum_of, All,
}
use mathlib.Core.Path.{ap₂}
use lineleader.Base.Int.{ℤ, pos, ◌+ℤ◌, ◌-ℤ◌, ltb_ℤ, int_laws}
use lineleader.Base.Sort.{sum_of-sort_slice, All-sort_slice}
use lineleader.Ledger.Types.{Entry, PointLot, blank}
use lineleader.Ledger.Allocation.{same_key, remaining_of}
use lineleader.Ledger.Allocation.Draws.{drawn_from, eq_of_same_key}
use lineleader.Ledger.Allocation.Remaining.{lotted_to, remaining_of_lem}
use lineleader.Ledger.Store.Rows.{Db}
use lineleader.Ledger.Store.Snapshots.{
  add_to_lot, add_counted, group_points, snapshot_lots, snapshot_consumed,
}

-- What one entry counts for the lot (i, y), if its measure is positive.
abbrev pub counted_points : Option ℕ → ℤ → ℤ → ℕ → ℤ → ℤ
counted_points none z p i y = pos 0
counted_points (some c) z p i y =
    if ltb_ℤ (pos 0) p then (if same_key c z i y then p else pos 0) else pos 0

abbrev pub counted_for : (Entry → ℤ) → ℕ → ℤ → Entry → ℤ
counted_for f i y e = counted_points e.contract_id e.use_year (f e) i y

abbrev pub tallied : (Entry → ℤ) → ℕ → ℤ → List Entry → ℤ
tallied f i y = sum_of (counted_for f i y)

-- The balance of the lot (i, y): allotted less used.
abbrev pub balance_in : ℕ → ℤ → Db → ℤ
balance_in i y db = tallied (λ e. e.allotted) i y db.entries -ℤ tallied (λ e. e.used) i y db.entries

lotted-add_to_lot :
    (i : ℕ) (y : ℤ) (j : ℕ) (z p : ℤ) (lots : List PointLot)
    → lotted_to i y (add_to_lot j z p lots)
      ≡ (if same_key j z i y then p else pos 0) +ℤ lotted_to i y lots
unfolding add_to_lot
lotted-add_to_lot i y j z p [] = refl
lotted-add_to_lot i y j z p (lot ∷ lots) =
    elim (Bool-cases (same_key lot.contract_id lot.use_year j z)) [
      | inl e ↦
          let (a, b) = eq_of_same_key lot.contract_id lot.use_year j z e in
          rw (e, ← a, ← b)
            (merged (same_key lot.contract_id lot.use_year i y) lot.points p (lotted_to i y lots))
      | inr e ↦ rw (e, lotted-add_to_lot i y j z p lots) (omega int_laws)
    ]
  where
    merged :
        (b : Bool) (q p rest : ℤ)
        → (if b then q +ℤ p else pos 0) +ℤ rest
          ≡ (if b then p else pos 0) +ℤ ((if b then q else pos 0) +ℤ rest)
    merged true q p rest = omega int_laws
    merged false q p rest = omega int_laws

lotted-add_counted :
    (i : ℕ) (y : ℤ) (o : Option ℕ) (z p : ℤ) (lots : List PointLot)
    → lotted_to i y (add_counted o z p lots) ≡ counted_points o z p i y +ℤ lotted_to i y lots
unfolding add_counted
lotted-add_counted i y none z p lots = omega int_laws
lotted-add_counted i y (some c) z p lots = elim (Bool-cases (ltb_ℤ (pos 0) p)) [
  | inl h ↦ rw h (lotted-add_to_lot i y c z p lots)
  | inr h ↦ rw h (omega int_laws)
]

lotted-group_points :
    (f : Entry → ℤ) (i : ℕ) (y : ℤ) (es : List Entry)
    → lotted_to i y (group_points f es) ≡ tallied f i y es
unfolding group_points
lotted-group_points f i y [] = refl
lotted-group_points f i y (e ∷ es) =
    lotted-add_counted i y e.contract_id e.use_year (f e) (group_points f es)
    ∙ ap (λ z. counted_for f i y e +ℤ z) (lotted-group_points f i y es)

drawn-map :
    (i : ℕ) (y : ℤ) (lots : List PointLot)
    → drawn_from i y (
        map
          (λ (lot : PointLot). record {
            contract_id = lot.contract_id;
            use_year = lot.use_year;
            disposition = blank;
            points = lot.points;
          })
          lots)
      ≡ lotted_to i y lots
drawn-map i y [] = refl
drawn-map i y (lot ∷ lots) = rw (drawn-map i y lots)

pub lotted-snapshot_lots :
    (i : ℕ) (y : ℤ) (db : Db)
    → lotted_to i y (snapshot_lots db) ≡ tallied (λ e. e.allotted) i y db.entries
unfolding snapshot_lots
lotted-snapshot_lots i y db =
    sum_of-sort_slice _ _ _ ∙ lotted-group_points (λ e. e.allotted) i y db.entries

pub drawn-snapshot_consumed :
    (i : ℕ) (y : ℤ) (db : Db)
    → drawn_from i y (snapshot_consumed db) ≡ tallied (λ e. e.used) i y db.entries
unfolding snapshot_consumed
drawn-snapshot_consumed i y db =
    drawn-map i y _ ∙ sum_of-sort_slice _ _ _ ∙ lotted-group_points (λ e. e.used) i y db.entries

-- What the allocator reckons to remain from a snapshot, under any contract and use year, is the
-- sum of the positive allotments of its entries less the sum of their positive uses.
pub remaining_of-snapshot :
    (i : ℕ) (y : ℤ) (db : Db)
    → remaining_of (snapshot_lots db) (snapshot_consumed db) i y ≡ balance_in i y db
remaining_of-snapshot i y db =
    remaining_of_lem i y (snapshot_lots db) (snapshot_consumed db)
    ∙ ap₂ ◌-ℤ◌ (lotted-snapshot_lots i y db) (drawn-snapshot_consumed i y db)

module _ (Q : ℤ → Type 0) where
  All-add_to_lot :
      (c : ℕ) (z p : ℤ) (lots : List PointLot)
      → Q z
      → All (λ (lot : PointLot). Q lot.use_year) lots
      → All (λ (lot : PointLot). Q lot.use_year) (add_to_lot c z p lots)
  unfolding add_to_lot
  All-add_to_lot c z p [] q a = (q, tt)
  All-add_to_lot c z p (lot ∷ lots) q a =
      elim (Bool-cases (same_key lot.contract_id lot.use_year c z)) [
        | inl h ↦ rw h a
        | inr h ↦ rw h (a.0, All-add_to_lot c z p lots q a.1)
      ]

  All-add_counted :
      (o : Option ℕ) (z p : ℤ) (lots : List PointLot)
      → Q z
      → All (λ (lot : PointLot). Q lot.use_year) lots
      → All (λ (lot : PointLot). Q lot.use_year) (add_counted o z p lots)
  unfolding add_counted
  All-add_counted none z p lots q a = a
  All-add_counted (some c) z p lots q a = elim (Bool-cases (ltb_ℤ (pos 0) p)) [
    | inl h ↦ rw h (All-add_to_lot c z p lots q a)
    | inr h ↦ rw h a
  ]

  All-group_points :
      (column : Entry → ℤ) (es : List Entry)
      → All (λ (e : Entry). Q e.use_year) es
      → All (λ (lot : PointLot). Q lot.use_year) (group_points column es)
  unfolding group_points
  All-group_points column [] a = tt
  All-group_points column (e ∷ es) a =
      All-add_counted e.contract_id e.use_year (column e) (group_points column es) a.0
        (All-group_points column es a.1)

  -- The lots of a snapshot have use years of entries.
  pub All-snapshot_lots :
      (db : Db)
      → All (λ (e : Entry). Q e.use_year) db.entries
      → All (λ (lot : PointLot). Q lot.use_year) (snapshot_lots db)
  unfolding snapshot_lots
  All-snapshot_lots db a = All-sort_slice _ _ _ (All-group_points (λ e. e.allotted) db.entries a)
