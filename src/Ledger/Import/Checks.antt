-- ===== src/Ledger/Import/Checks.antt =====
-- internal/ledger/trip_import.go: what the checks of an import establish.
use lineleader.Base.{
  ℕ, ◌≤◌, ◌⊎◌, ◌≡◌, refl, sym, ap, ◌∙◌, inl, inr, Bool, true, false, not, ◌||◌, Option, none, some,
  List, [], ◌∷◌, any, arith, ltb, ◌==◌, str_eq, length, Bool-cases, sum_of, All,
}
use lineleader.Base.Int.{ℤ, pos, ◌+ℤ◌, ◌<ℤ◌, leb_ℤ, eqb_ℤ, int_laws, eq_of_eqb, leb_ℤ→gt}
use lineleader.Ledger.Types.{Entry, Trip, kind_usage}
use lineleader.Ledger.Store.Rows.{Link, Db, Result, ok, err, Error}
use lineleader.Ledger.Import.{
  ImportedStay, find_entry, Tally, check_found, check_entry, check_entries, check_stays,
  stay_is_invalid, import_booked_trip,
}

abbrev pub used_of : Option Entry → ℤ
used_of none = pos 0
used_of (some e) = e.used

-- The points that the entry with an id uses, if there is one.
abbrev pub used_points : Db → ℕ → ℤ
used_points db id = used_of (find_entry id db.entries)

-- An entry that an import may link: a usage of points that no stay has.
abbrev pub Importable : Db → ℕ → Type 0
Importable db id =
    (e : Entry) × (find_entry id db.entries ≡ some e)
    × (str_eq e.kind kind_usage ≡ true)
    × (pos 0 <ℤ e.used)
    × (any (λ (l : Link). l.entry_id == id) db.links ≡ false)

-- What the check of one entry has established.
record EntryChecked (db : Db) (id : ℕ) (t t' : Tally) : Type 0 where
  importable : Importable db id
  new : any (λ i. i == id) t.seen ≡ false
  seen_is : t'.seen ≡ id ∷ t.seen
  sum_is : t'.sum ≡ t.sum +ℤ used_points db id

not_ok : {A : Type 0} {x : Error} {a : A} → err x ≡ ok a → ⊥
not_ok h = cc

or_left : (a b : Bool) → (a || b) ≡ false → a ≡ false
or_left a b h = ground arith

or_right : (a b : Bool) → (a || b) ≡ false → b ≡ false
or_right a b h = ground arith

of_not : (a : Bool) → not a ≡ false → a ≡ true
of_not a h = ground arith

ok-injective : {A : Type 0} {a b : A} → ok a ≡ ok b → a ≡ b
ok-injective h = cc

check_found-checked :
    (db : Db) (id : ℕ) (t t' : Tally) (o : Option Entry)
    → find_entry id db.entries ≡ o
    → any (λ i. i == id) t.seen ≡ false
    → check_found db id t o ≡ ok t'
    → EntryChecked db id t t'
unfolding check_found
check_found-checked db id t t' none f n e = absurd (not_ok e)
check_found-checked db id t t' (some row) f n e =
    elim (Bool-cases (not (str_eq row.kind kind_usage) || leb_ℤ row.used (pos 0))) [
      | inl h ↦ absurd (not_ok (rw h at e))
      | inr h ↦
          let e1 = rw h at e in
          elim (Bool-cases (any (λ (l : Link). l.entry_id == id) db.links)) [
            | inl l ↦ absurd (not_ok (rw l at e1))
            | inr l ↦
                let same = ok-injective (rw l at e1) in
                record {
                  importable = (
                    row,
                    f,
                    of_not _ (or_left _ _ h),
                    leb_ℤ→gt row.used (pos 0) (or_right _ _ h),
                    l,
                  );
                  new = n;
                  seen_is = ap (λ (x : Tally). x.seen) (sym same);
                  sum_is =
                      ap (λ (x : Tally). x.sum) (sym same) ∙ ap (λ o. t.sum +ℤ used_of o) (sym f);
                }
          ]
    ]

check_entry-checked :
    (db : Db) (id : ℕ) (t t' : Tally) → check_entry db id t ≡ ok t' → EntryChecked db id t t'
unfolding check_entry
check_entry-checked db id t t' e = elim (Bool-cases (any (λ i. i == id) t.seen)) [
  | inl h ↦ absurd (not_ok (rw h at e))
  | inr h ↦ check_found-checked db id t t' (find_entry id db.entries) refl h (rw h at e)
]

Result-cases : {A : Type 0} (r : Result A) → ((x : Error) × (r ≡ err x)) ⊎ ((a : A) × (r ≡ ok a))
Result-cases (ok a) = inr (a, refl)
Result-cases (err x) = inl (x, refl)

-- What the checks of the entries of one stay have established.
record EntriesChecked (db : Db) (ids : List ℕ) (t t' : Tally) : Type 0 where
  importable : All (Importable db) ids
  sum_is : t'.sum ≡ t.sum +ℤ sum_of (used_points db) ids

check_entries-checked :
    (db : Db) (ids : List ℕ) (t t' : Tally)
    → check_entries db ids t ≡ ok t'
    → EntriesChecked db ids t t'
unfolding check_entries
check_entries-checked db [] t t' e = record {
  importable = tt;
  sum_is = ap (λ (x : Tally). x.sum) (sym (ok-injective e)) ∙ plus_zero _;
}
  where
    plus_zero : (a : ℤ) → a ≡ a +ℤ pos 0
    plus_zero a = omega int_laws
check_entries-checked db (id ∷ ids) t t' e = elim (Result-cases (check_entry db id t)) [
  | inl (x, h) ↦ absurd (not_ok (rw (h, check_entries) at e))
  | inr (t1, h) ↦
      let first = check_entry-checked db id t t1 h in
      let rest = check_entries-checked db ids t1 t' (rw (h, check_entries) at e) in
      record {
        importable = (first.importable, rest.importable);
        sum_is = rest.sum_is ∙ rw first.sum_is (omega int_laws);
      }
]

-- A stay of an import with the entries that pay for it.
abbrev pub IsPaid : Db → ImportedStay → Type 0
IsPaid db is =
    (1 ≤ length is.entry_ids)
    × All (Importable db) is.entry_ids
    × (sum_of (used_points db) is.entry_ids ≡ is.stay.points)

check_stays-IsPaid :
    (db : Db) (stays : List ImportedStay) (seen seen' : List ℕ)
    → check_stays db stays seen ≡ ok seen'
    → All (IsPaid db) stays
unfolding check_stays
check_stays-IsPaid db [] seen seen' e = tt
check_stays-IsPaid db (is ∷ rest) seen seen' e = elim (Bool-cases (length is.entry_ids == 0)) [
  | inl h ↦ absurd (not_ok (rw h at e))
  | inr h ↦
      let start : Tally = record { seen = seen; sum = pos 0 } in
      let e1 = rw h at e in
      elim (Result-cases (check_entries db is.entry_ids start)) [
        | inl (x, k) ↦ absurd (not_ok (rw k at e1))
        | inr (t, k) ↦
            let e2 = rw k at e1 in
            elim (Bool-cases (not (eqb_ℤ t.sum is.stay.points))) [
              | inl m ↦ absurd (not_ok (rw m at e2))
              | inr m ↦
                  let c = check_entries-checked db is.entry_ids start t k in
                  (
                    (
                      some_entry (length is.entry_ids) h,
                      c.importable,
                      zero_plus _ ∙ sym c.sum_is ∙ eq_of_eqb t.sum is.stay.points (of_not _ m),
                    ),
                    check_stays-IsPaid db rest t.seen seen' (rw m at e2),
                  )
            ]
      ]
]
  where
    some_entry : (n : ℕ) → (n == 0) ≡ false → 1 ≤ n
    some_entry n h = ground arith

    zero_plus : (a : ℤ) → a ≡ pos 0 +ℤ a
    zero_plus a = omega int_laws

-- An import that succeeds has a stay at least, and each of its stays lists entries, all of them
-- usages of a positive number of points that no stay had a link to, whose points add up to the
-- stay's.
pub import_booked_trip-IsPaid :
    (t : Trip) (stays : List ImportedStay) (db db' : Db) (id : ℕ)
    → import_booked_trip t stays db ≡ ok (id, db')
    → (1 ≤ length stays) × All (IsPaid db) stays
unfolding import_booked_trip
import_booked_trip-IsPaid t stays db db' id e =
    elim (Bool-cases (
      length stays == 0
      || ltb t.end_date t.start_date
      || any (λ (is : ImportedStay). stay_is_invalid is.stay) stays)) [
        | inl h ↦ absurd (not_ok (rw h at e))
        | inr h ↦
            let e1 = rw h at e in
            elim (Result-cases (check_stays db stays [])) [
              | inl (x, k) ↦ absurd (not_ok (rw k at e1))
              | inr (seen, k) ↦
                  (some_stay _ (or_left _ _ (or_left _ _ h)), check_stays-IsPaid db stays [] seen k)
            ]
      ]
  where
    some_stay : (n : ℕ) → (n == 0) ≡ false → 1 ≤ n
    some_stay n h = ground arith
