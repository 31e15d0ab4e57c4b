-- ===== src/Ledger/Distribute/Laws.antt =====
-- internal/ledger/distribute.go: what one run of the distribution leaves for the next.
use lineleader.Base.{
  ℕ, ◌+◌, ◌≡◌, refl, sym, ap, ◌∙◌, inl, inr, true, false, ◌&&◌, Option, none, some, List, [], ◌∷◌,
  ◌++◌, length, keep, arith, ltb, ◌==◌, Bool-cases, Option-cases, is_some, All, All-map, any, Bool,
  ◌||◌,
}
use mathlib.Core.Path.{subst}
use lineleader.Base.Int.{ℤ, pos, ◌+ℤ◌, ◌-ℤ◌, ◌≤ℤ◌, ltb_ℤ, eqb_ℤ, ltb_ℤ→ge, int_laws, eq_of_eqb}
use lineleader.Calendar.{Time}
use lineleader.Ledger.Types.{Contract, Entry}
use lineleader.Ledger.Store.Rows.{Db, Result, ok, err, InInt32, to_int32, >>=-ok}
use lineleader.Base.Sort.{All-sort_slice}
use lineleader.Ledger.Store.Queries.{
  list_contracts, add_entry, contract_known, entry_row, insert_entry,
}
use lineleader.Ledger.Distribute.{
  allocates_for, also_created, later_year, latest_year_of, latest_allocation_year,
  count_allocation_for, has_allocation_for, allocation_entry, distribute_after, distribute_contract,
  distribute_contracts, distribute_up_to,
}

-- The year, if there is one, is `m` or later.
abbrev pub AtLeast : ℤ → Option ℤ → Type 0
AtLeast m none = Unit
AtLeast m (some n) = m ≤ℤ n

abbrev Reaches : ℤ → Option ℤ → Type 0
Reaches m none = ⊥
Reaches m (some n) = m ≤ℤ n

abbrev later : Option ℤ → Option ℤ → Option ℤ
later none o = o
later (some a) o = some (later_year a o)

later_year_assoc :
    (y : ℤ) (a b : Option ℤ) → later_year y (later a b) ≡ later_year (later_year y a) b
later_year_assoc y none b = refl
later_year_assoc y (some a) none = refl
later_year_assoc y (some a) (some b) = grind int_laws

latest_year_of-append :
    (i : ℕ) (es : List Entry) (e : Entry)
    → latest_year_of i (es ++ e ∷ []) ≡ later (latest_year_of i es) (latest_year_of i (e ∷ []))
unfolding latest_year_of
latest_year_of-append i [] e = refl
latest_year_of-append i (d ∷ es) e = elim (Bool-cases (allocates_for i d)) [
  | inl h ↦
      rw (h, latest_year_of-append i es e)
        (ap some (later_year_assoc d.use_year (latest_year_of i es) (latest_year_of i (e ∷ []))))
  | inr h ↦ rw (h, latest_year_of-append i es e) refl
]

AtLeast-later :
    (m : ℤ) (a b : Option ℤ)
    → AtLeast m a
    → (is_some b ≡ true → is_some a ≡ true)
    → AtLeast m (later a b)
AtLeast-later m none none h s = tt
AtLeast-later m none (some y) h s = let no = s refl in ground arith
AtLeast-later m (some n) none h s = h
AtLeast-later m (some n) (some y) h s = grind int_laws

AtLeast-later_right : (m y : ℤ) (a : Option ℤ) → m ≤ℤ y → AtLeast m (later a (some y))
AtLeast-later_right m y none h = h
AtLeast-later_right m y (some n) h = grind int_laws

later_year_right : (m y : ℤ) (a : Option ℤ) → Reaches m a → m ≤ℤ later_year y a
later_year_right m y none h = absurd h
later_year_right m y (some n) h = grind int_laws

later_year_left : (y : ℤ) (a : Option ℤ) → y ≤ℤ later_year y a
later_year_left y none = omega arith
later_year_left y (some n) = grind int_laws

-- A year with an allocation is not after the latest.
has_allocation_for-Reaches :
    (i : ℕ) (y : ℤ) (es : List Entry)
    → ltb 0 (length (keep (λ (e : Entry). allocates_for i e && eqb_ℤ e.use_year y) es)) ≡ true
    → Reaches y (latest_year_of i es)
unfolding latest_year_of
has_allocation_for-Reaches i y [] h = ground arith
has_allocation_for-Reaches i y (e ∷ es) h = elim (Bool-cases (allocates_for i e)) [
  | inl k ↦ elim (Bool-cases (eqb_ℤ e.use_year y)) [
    | inl l ↦ rw k (
        subst (λ x. x ≤ℤ later_year e.use_year (latest_year_of i es)) (eq_of_eqb e.use_year y l)
          (later_year_left e.use_year (latest_year_of i es)))
    | inr l ↦ rw k (
        later_year_right y e.use_year (latest_year_of i es)
          (has_allocation_for-Reaches i y es (rw (k, l) at h)))
  ]
  | inr k ↦ rw k (has_allocation_for-Reaches i y es (rw k at h))
]

module _ (first_of : ℤ → ℕ → Time) (max_year : ℤ) where
  -- The contract has no allocation, or one at the cap.
  abbrev pub UpToDate : Db → Contract → Type 0
  UpToDate db c = AtLeast max_year (latest_allocation_year c.id db)

  -- The contract has no allocation, or is at most one year behind the cap.
  abbrev pub OneBehind : Db → Contract → Type 0
  OneBehind db c = AtLeast (max_year -ℤ pos 1) (latest_allocation_year c.id db)

  -- A step that brings the contract `c` up to date and takes no contract's latest year back.
  record Advance (c : Contract) (db : Db) : Type 0 where
    created : List Entry
    after : Db
    runs : distribute_contract first_of max_year c db ≡ ok (created, after)
    caught_up : UpToDate after c
    keeps :
        (m : ℤ) (i : ℕ)
        → AtLeast m (latest_allocation_year i db)
        → AtLeast m (latest_allocation_year i after)
    contracts_kept : after.contracts ≡ db.contracts

  distribute_none :
      (c : Contract) (db : Db)
      → latest_allocation_year c.id db ≡ none
      → distribute_contract first_of max_year c db ≡ ok ([], db)
  unfolding distribute_contract
  distribute_none c db h = rw (h, distribute_contract) refl

  distribute_some :
      (c : Contract) (db : Db) (n : ℤ)
      → latest_allocation_year c.id db ≡ some n
      → distribute_contract first_of max_year c db ≡ distribute_after first_of max_year c n db
  unfolding distribute_contract
  distribute_some c db n h = rw (h, distribute_contract) refl

  past_cap : (n : ℤ) → max_year ≤ℤ n → ltb_ℤ max_year (n +ℤ pos 1) ≡ true
  past_cap n h = grind int_laws

  UpToDate-skip :
      (c : Contract) (db : Db)
      → UpToDate db c
      → distribute_contract first_of max_year c db ≡ ok ([], db)
  unfolding distribute_after
  UpToDate-skip c db u = elim (Option-cases (latest_allocation_year c.id db)) [
    | inl h ↦ distribute_none c db h
    | inr (n, h) ↦ distribute_some c db n h ∙ rw (past_cap n (rw h at u)) refl
  ]

  -- A contract that is up to date is left as it is.
  stay : (c : Contract) (db : Db) → UpToDate db c → Advance c db
  stay c db u = record {
    created = [];
    after = db;
    runs = UpToDate-skip c db u;
    caught_up = u;
    keeps = λ m i a. a;
    contracts_kept = refl;
  }

  module _ (c : Contract) (db : Db) (latest : ℤ) (fits : InInt32 max_year)
      (listed : contract_known (some c.id) db ≡ true)
      (h : latest_allocation_year c.id db ≡ some latest) (n : (max_year -ℤ pos 1) ≤ℤ latest) where
    abbrev stored : Entry
    stored = entry_row db.next_entry (allocation_entry first_of c (latest +ℤ pos 1))

    abbrev after_adding : Db
    after_adding = record db { entries = db.entries ++ stored ∷ []; next_entry = db.next_entry + 1 }

    latest_stored : latest_year_of c.id (stored ∷ []) ≡ some (to_int32 (latest +ℤ pos 1))
    unfolding latest_year_of allocation_entry
    latest_stored = rw (same c.id) refl
      where
        same : (i : ℕ) → (i == i) ≡ true
        same i = ground arith

    stored_year : ltb_ℤ max_year (latest +ℤ pos 1) ≡ false → max_year ≤ℤ to_int32 (latest +ℤ pos 1)
    stored_year near =
        let target : max_year ≡ latest +ℤ pos 1 = grind int_laws in
        subst (λ x. max_year ≤ℤ to_int32 x) target (rw fits (omega arith))

    allocates_only_for :
        (i : ℕ)
        → is_some (latest_year_of i (stored ∷ [])) ≡ true
        → is_some (latest_allocation_year i db) ≡ true
    unfolding latest_year_of allocation_entry
    allocates_only_for i s = elim (Bool-cases (c.id == i)) [
      | inl e ↦ rw (sym (same_id c.id i e), h) refl
      | inr e ↦ let no = rw e at s in ground arith
    ]
      where
        same_id : (i j : ℕ) → (i == j) ≡ true → i ≡ j
        same_id i j e = ground arith

    added_row :
        add_entry (allocation_entry first_of c (latest +ℤ pos 1)) db
        ≡ ok (db.next_entry, after_adding)
    unfolding add_entry insert_entry allocation_entry
    added_row = rw listed refl

    add_allocation :
        ltb_ℤ max_year (latest +ℤ pos 1) ≡ false
        → has_allocation_for c.id (latest +ℤ pos 1) db ≡ false
        → Advance c db
    unfolding distribute_after latest_allocation_year
    add_allocation near new = record {
      created = record (allocation_entry first_of c (latest +ℤ pos 1)) { id = db.next_entry } ∷ [];
      after = after_adding;
      runs =
          distribute_some c db latest h
          ∙ rw (near, new)
              (>>=-ok (add_entry (allocation_entry first_of c (latest +ℤ pos 1))) _ db added_row);
      caught_up =
          rw (latest_year_of-append c.id db.entries stored, latest_stored)
            (AtLeast-later_right max_year _ (latest_year_of c.id db.entries) (stored_year near));
      keeps = λ m i a.
          rw (latest_year_of-append i db.entries stored)
            (AtLeast-later m (latest_year_of i db.entries) _ a (allocates_only_for i));
      contracts_kept = refl;
    }

    too_late : (y : ℤ) → (latest +ℤ pos 1) ≤ℤ max_year → max_year ≤ℤ y → y ≤ℤ latest → ⊥
    too_late y k l m = omega int_laws

    not_posted :
        ltb_ℤ max_year (latest +ℤ pos 1) ≡ false
        → has_allocation_for c.id (latest +ℤ pos 1) db ≡ true
        → ⊥
    unfolding has_allocation_for count_allocation_for latest_allocation_year
    not_posted near old =
        too_late (to_int32 (latest +ℤ pos 1)) (ltb_ℤ→ge max_year (latest +ℤ pos 1) near)
          (stored_year near)
          (rw h at (has_allocation_for-Reaches c.id (to_int32 (latest +ℤ pos 1)) db.entries old))

    Advance-known : Advance c db
    Advance-known = elim (Bool-cases (ltb_ℤ max_year (latest +ℤ pos 1))) [
      | inl past ↦ stay c db (rw h (at_cap past))
      | inr near ↦ elim (Bool-cases (has_allocation_for c.id (latest +ℤ pos 1) db)) [
        | inl old ↦ absurd (not_posted near old)
        | inr new ↦ add_allocation near new
      ]
    ]
      where
        at_cap : ltb_ℤ max_year (latest +ℤ pos 1) ≡ true → max_year ≤ℤ latest
        at_cap past = grind int_laws

  advance :
      (c : Contract) (db : Db)
      → InInt32 max_year
      → contract_known (some c.id) db ≡ true
      → OneBehind db c
      → Advance c db
  advance c db fits l u = elim (Option-cases (latest_allocation_year c.id db)) [
    | inl h ↦ stay c db (rw h tt)
    | inr (n, h) ↦ Advance-known c db n fits l h (rw h at u)
  ]

  -- A run over contracts, after which they are up to date.
  record Run (cs : List Contract) (db : Db) : Type 0 where
    created : List Entry
    after : Db
    runs : distribute_contracts first_of max_year cs db ≡ (ok created, after)
    caught_up : All (UpToDate after) cs
    keeps :
        (m : ℤ) (i : ℕ)
        → AtLeast m (latest_allocation_year i db)
        → AtLeast m (latest_allocation_year i after)
    contracts_kept : after.contracts ≡ db.contracts

  distributed_one :
      (c : Contract) (cs : List Contract) (db : Db) {created : List Entry} {after : Db}
      → distribute_contract first_of max_year c db ≡ ok (created, after)
      → distribute_contracts first_of max_year (c ∷ cs) db
        ≡ also_created created (distribute_contracts first_of max_year cs after)
  unfolding distribute_contracts
  distributed_one c cs db e =
      ap
        (λ (r : Result (List Entry × Db)).
          let s : Result (List Entry) × Db = elim r [
            | err x ↦ (err x, db)
            | ok (new, d) ↦ also_created new (distribute_contracts first_of max_year cs d)
          ] in
          s)
        e

  -- The contract is in the table.
  abbrev Listed : Db → Contract → Type 0
  Listed db c = contract_known (some c.id) db ≡ true

  Listed-kept :
      (db after : Db)
      → after.contracts ≡ db.contracts
      → (c : Contract) → Listed db c
      → Listed after c
  unfolding contract_known
  Listed-kept db after k c h = rw k h

  run :
      (cs : List Contract) (db : Db)
      → InInt32 max_year
      → All (OneBehind db) cs
      → All (Listed db) cs
      → Run cs db
  unfolding distribute_contracts
  run [] db fits a l = record {
    created = [];
    after = db;
    runs = refl;
    caught_up = tt;
    keeps = λ m i a. a;
    contracts_kept = refl;
  }
  run (c ∷ cs) db fits a l =
      let first = advance c db fits l.0 a.0 in
      let rest =
        run cs first.after fits
          (All-map (OneBehind db) (OneBehind first.after)
            (λ d. first.keeps (max_year -ℤ pos 1) d.id) cs a.1)
          (All-map (Listed db) (Listed first.after)
            (Listed-kept db first.after first.contracts_kept) cs l.1) in
      record {
        created = first.created ++ rest.created;
        after = rest.after;
        runs = distributed_one c cs db first.runs ∙ ap (also_created first.created) rest.runs;
        caught_up = (rest.keeps max_year c.id first.caught_up, rest.caught_up);
        keeps = λ m i h. rest.keeps m i (first.keeps m i h);
        contracts_kept = rest.contracts_kept ∙ first.contracts_kept;
      }

  skip-All :
      (cs : List Contract) (db : Db)
      → All (UpToDate db) cs
      → distribute_contracts first_of max_year cs db ≡ (ok [], db)
  unfolding distribute_contracts
  skip-All [] db a = refl
  skip-All (c ∷ cs) db a =
      distributed_one c cs db (UpToDate-skip c db a.0) ∙ ap (also_created []) (skip-All cs db a.1)

-- Every contract of a list is found in it by its id.
ids_found :
    (cs : List Contract) → All (λ (c : Contract). any (λ (d : Contract). d.id == c.id) cs ≡ true) cs
ids_found [] = tt
ids_found (c ∷ cs) = (
  ground arith,
  All-map _ _
      (λ (d : Contract) (h : any (λ (e : Contract). e.id == d.id) cs ≡ true).
        or_right (c.id == d.id) (any (λ (e : Contract). e.id == d.id) cs) h)
      cs (ids_found cs),
)
  where
    or_right : (a b : Bool) → b ≡ true → (a || b) ≡ true
    or_right true b h = refl
    or_right false b h = h

contract_known-list_contracts :
    (db : Db) → All (λ (c : Contract). contract_known (some c.id) db ≡ true) (list_contracts db)
unfolding contract_known list_contracts
contract_known-list_contracts db = All-sort_slice _ _ db.contracts (ids_found db.contracts)

-- Where every contract has no allocation or is at most one use year behind the cap, and the cap
-- fits the column, a run to the cap succeeds, every contract then has no allocation or one at the
-- cap or later, and a second run to the same cap creates nothing and changes nothing.
pub distribute_up_to_twice :
    (first_of : ℤ → ℕ → Time) (max_year : ℤ) (db : Db)
    → InInt32 max_year
    → All (OneBehind first_of max_year db) (list_contracts db)
    → (created : List Entry) × (after : Db) × (distribute_up_to first_of max_year db
        ≡ (ok created, after))
      × All (UpToDate first_of max_year after) (list_contracts after)
      × (distribute_up_to first_of max_year after ≡ (ok [], after))
unfolding distribute_up_to list_contracts
distribute_up_to_twice first_of max_year db fits a =
    let r =
      run first_of max_year (list_contracts db) db fits a (contract_known-list_contracts db) in
    let done : All (UpToDate first_of max_year r.after) (list_contracts r.after) =
      rw r.contracts_kept r.caught_up in
    (
      r.created,
      r.after,
      r.runs,
      done,
      skip-All first_of max_year (list_contracts r.after) r.after done,
    )
