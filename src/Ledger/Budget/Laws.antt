-- ===== src/Ledger/Budget/Laws.antt =====
-- internal/ledger/budget.go: the budget of a trip against the entries of the ledger.
use lineleader.Base.{
  ℕ, leb, ◌≤◌, ◌<◌, Bool-cases, inl, inr, arith, ◌≡◌, refl, sym, ap, ◌∙◌, Bool, true, false, List,
  [], ◌∷◌, if◌then◌else◌, sum_of, All,
}
use lineleader.Base.Int.{ℤ, pos, ◌+ℤ◌, ◌-ℤ◌, ◌≤ℤ◌, ltb_ℤ, eqb_ℤ, int_laws, eq_of_eqb}
use lineleader.Base.Sort.{
  insert_sorted, sort_slice, All-insert_sorted, All-sort_slice, sum_of-sort_slice,
}
use lineleader.Calendar.{Time, Calendar}
use lineleader.Ledger.Types.{
  Contract, Entry, UseYearSummary, use_year_for_date, use_year_start_month,
}
use lineleader.Ledger.Store.Rows.{Db}
use lineleader.Ledger.Store.Queries.{
  summaries_of, use_year_summaries, with_balances, list_entries, list_contracts,
}
use lineleader.Ledger.Budget.{
  TripBudget, Years, put_years, zero_summary, budget_for_use_year, trip_budget,
}
use lineleader.Ledger.Budget.Summaries.{
  Measure, used, net, of_summary, in_year, rows_in_year, Distinct, summaries_of_lem,
  summaries_of-Distinct, summaries_of-net,
}

abbrev OtherYear : ℤ → UseYearSummary → Type 0
OtherYear y t = eqb_ℤ t.use_year y ≡ false

other_years :
    (by_year : Years) (y : ℤ) (ss : List UseYearSummary)
    → All (OtherYear y) ss
    → put_years by_year ss y ≡ by_year y
unfolding put_years
other_years by_year y [] a = refl
other_years by_year y (s ∷ ss) a =
    other_years (λ x. if eqb_ℤ s.use_year x then s else by_year x) y ss a.1 ∙ rw a.0 refl

rows_of_other_years :
    (m : Measure) (y : ℤ) (ss : List UseYearSummary)
    → All (OtherYear y) ss
    → rows_in_year m y ss ≡ pos 0
rows_of_other_years m y [] a = refl
rows_of_other_years m y (s ∷ ss) a = rw (a.0, rows_of_other_years m y ss a.1) (omega int_laws)

-- A read of the map is the sum over the rows with its key.
put_years_lem :
    (m : Measure) (by_year : Years) (y : ℤ) (ss : List UseYearSummary)
    → Distinct ss
    → of_summary m (by_year y) ≡ pos 0
    → of_summary m (put_years by_year ss y) ≡ rows_in_year m y ss
unfolding put_years
put_years_lem m by_year y [] u z = z
put_years_lem m by_year y (s ∷ ss) u z =
    let next : Years = λ x. if eqb_ℤ s.use_year x then s else by_year x in
    elim (Bool-cases (eqb_ℤ s.use_year y)) [
      | inl h ↦
          let others = rw (eq_of_eqb s.use_year y h) at u.0 in
          let here : next y ≡ s = rw h refl in
          ap (of_summary m) (other_years next y ss others ∙ here)
          ∙ rw (h, rows_of_other_years m y ss others) (omega int_laws)
      | inr h ↦ put_years_lem m next y ss u.1 (rw h z) ∙ rw h (omega int_laws)
    ]

insert_sorted-Distinct :
    (less : UseYearSummary → UseYearSummary → Bool) (s : UseYearSummary) (ss : List UseYearSummary)
    → All (OtherYear s.use_year) ss
    → Distinct ss
    → Distinct (insert_sorted less s ss)
unfolding insert_sorted
insert_sorted-Distinct less s [] a u = (tt, tt)
insert_sorted-Distinct less s (t ∷ ss) a u = elim (Bool-cases (less t s)) [
  | inl h ↦ rw h (
    All-insert_sorted less (OtherYear t.use_year) s ss (eqb_sym t.use_year s.use_year a.0) u.0,
    insert_sorted-Distinct less s ss a.1 u.1,
  )
  | inr h ↦ rw h (a, u)
]
  where
    eqb_sym : (a b : ℤ) → eqb_ℤ a b ≡ false → eqb_ℤ b a ≡ false
    eqb_sym a b h = ground arith

sort_slice-Distinct :
    (less : UseYearSummary → UseYearSummary → Bool) (ss : List UseYearSummary)
    → Distinct ss
    → Distinct (sort_slice less ss)
unfolding sort_slice
sort_slice-Distinct less [] u = tt
sort_slice-Distinct less (s ∷ ss) u =
    insert_sorted-Distinct less s (sort_slice less ss)
      (All-sort_slice less (OtherYear s.use_year) ss u.0) (sort_slice-Distinct less ss u.1)

use_year_summaries_lem :
    (m : Measure) (y : ℤ) (db : Db)
    → of_summary m (put_years (λ x. zero_summary) (use_year_summaries db) y)
      ≡ in_year m y db.entries
unfolding use_year_summaries
use_year_summaries_lem m y db =
    let less : UseYearSummary → UseYearSummary → Bool = λ a b. ltb_ℤ a.use_year b.use_year in
    put_years_lem m (λ x. zero_summary) y (sort_slice less (summaries_of db.entries))
      (sort_slice-Distinct less _ (summaries_of-Distinct db.entries)) (zero m)
    ∙ sum_of-sort_slice less _ (summaries_of db.entries)
    ∙ summaries_of_lem m y db.entries
  where
    zero : (m : Measure) → of_summary m zero_summary ≡ pos 0
    zero Measure.allotted = refl
    zero used = refl
    zero net = refl

-- `y` is the use year of `date`, where a use year starts in the month `month`: the year of the last
-- such month.
abbrev pub IsUseYear : Calendar → Time → ℕ → ℤ → Type 0
IsUseYear cal date month y =
    (month ≤ cal.month date → y ≡ cal.year date)
    × (cal.month date < month → y ≡ cal.year date -ℤ pos 1)

-- The month of the first contract, or January.
abbrev pub first_month : List Contract → ℕ
first_month [] = 1
first_month (c ∷ cs) = c.use_year_month

use_year_for_date-IsUseYear :
    (cal : Calendar) (date : Time) (month : ℕ)
    → IsUseYear cal date month (use_year_for_date cal date month)
unfolding use_year_for_date
use_year_for_date-IsUseYear cal date month = elim (Bool-cases (leb month (cal.month date))) [
  | inl h ↦ rw h (λ l. refl, λ l. absurd (early h l))
  | inr h ↦ rw h (λ l. absurd (late h l), λ l. refl)
]
  where
    early : leb month (cal.month date) ≡ true → cal.month date < month → ⊥
    early h l = ground arith

    late : leb month (cal.month date) ≡ false → month ≤ cal.month date → ⊥
    late h l = ground arith

use_year_start_month-first : (cs : List Contract) → use_year_start_month cs ≡ first_month cs
unfolding use_year_start_month
use_year_start_month-first [] = refl
use_year_start_month-first (c ∷ cs) = refl

-- What a budget from the day `start` says of the entries `es`, for the contracts `cs`, which have
-- `annual` points a year.
pub record IsBudget (cal : Calendar) (start : Time) (cs : List Contract) (annual : ℤ)
    (es : List Entry) (b : TripBudget) : Type 0 where
  pub year_is : IsUseYear cal start (first_month cs) b.use_year
  pub current_is : b.current ≡ in_year net b.use_year es
  pub banked_is : b.banked ≡ in_year net (b.use_year -ℤ pos 1) es
  pub borrowable_nonneg : pos 0 ≤ℤ b.borrowable
  pub borrowable_fits :
      pos 0 ≤ℤ (annual -ℤ in_year used (b.use_year +ℤ pos 1) es)
      → b.borrowable ≡ annual -ℤ in_year used (b.use_year +ℤ pos 1) es
  pub borrowable_clamped :
      (annual -ℤ in_year used (b.use_year +ℤ pos 1) es) ≤ℤ pos 0 → b.borrowable ≡ pos 0
  pub total_is : b.total ≡ b.current +ℤ b.banked +ℤ b.borrowable

-- The budget of a trip is made of the ledger's entries. Its use year is the one of the trip's start:
-- the year of the last start of the use-year month, which is that of the contract listed first, or
-- January. `Current` and `Banked` are the points of
-- the entries of the trip's use year and of the year before less those used, `Borrowable` is the
-- contracts' annual points less those used from the year after, or zero where that is negative,
-- and `Total` is the sum of the three.
pub trip_budget-IsBudget :
    (cal : Calendar) (start : Time) (db : Db)
    → IsBudget cal start
        (list_contracts db)
        (sum_of (λ (c : Contract). c.annual_points) (list_contracts db))
        db.entries
        (trip_budget cal start db)
unfolding trip_budget budget_for_use_year
trip_budget-IsBudget cal start db =
    let y = use_year_for_date cal start (use_year_start_month (list_contracts db)) in
    let annual = sum_of (λ (c : Contract). c.annual_points) (list_contracts db) in
    let spent = use_year_summaries_lem used (y +ℤ pos 1) db in
    let room =
      annual -ℤ (put_years (λ x. zero_summary) (use_year_summaries db) (y +ℤ pos 1)).used in
    record {
      year_is =
          rw (sym (use_year_start_month-first (list_contracts db)))
            (use_year_for_date-IsUseYear cal start (use_year_start_month (list_contracts db)));
      current_is = use_year_summaries_lem net y db;
      banked_is = use_year_summaries_lem net (y -ℤ pos 1) db;
      borrowable_nonneg = clamp_nonneg room;
      borrowable_fits = λ h. rw spent (clamp_fits _ h);
      borrowable_clamped = λ h. rw spent (clamp_zero _ h);
      total_is = refl;
    }
  where
    clamp_nonneg : (a : ℤ) → pos 0 ≤ℤ (if ltb_ℤ a (pos 0) then pos 0 else a)
    clamp_nonneg a = ground arith

    clamp_fits : (a : ℤ) → pos 0 ≤ℤ a → (if ltb_ℤ a (pos 0) then pos 0 else a) ≡ a
    clamp_fits a h = ground arith

    clamp_zero : (a : ℤ) → a ≤ℤ pos 0 → (if ltb_ℤ a (pos 0) then pos 0 else a) ≡ pos 0
    clamp_zero a h = grind int_laws

-- The running balance of the last entry of a listing, or a given one if there is none.
abbrev pub last_balance : ℤ → List Entry → ℤ
last_balance b [] = b
last_balance b (e ∷ es) = last_balance e.running_balance es

with_balances_lem :
    (b : ℤ) (es : List Entry)
    → last_balance b (with_balances b es) ≡ b +ℤ sum_of (λ (e : Entry). e.allotted -ℤ e.used) es
unfolding with_balances
with_balances_lem b [] = omega int_laws
with_balances_lem b (e ∷ es) = with_balances_lem (b +ℤ (e.allotted -ℤ e.used)) es ∙ plus_assoc _ _ _
  where
    plus_assoc : (a b c : ℤ) → (a +ℤ b) +ℤ c ≡ a +ℤ (b +ℤ c)
    plus_assoc a b c = omega int_laws

-- The two views of the ledger agree: the running balance that the chronological listing ends with
-- is the sum of the use years' nets.
pub list_entries-use_year_summaries :
    (db : Db)
    → last_balance (pos 0) (list_entries db)
      ≡ sum_of (λ (s : UseYearSummary). s.net) (use_year_summaries db)
unfolding list_entries use_year_summaries
list_entries-use_year_summaries db =
    with_balances_lem (pos 0) _
    ∙ zero_plus _
    ∙ sum_of-sort_slice _ _ db.entries
    ∙ sym (sum_of-sort_slice _ _ (summaries_of db.entries) ∙ summaries_of-net db.entries)
  where
    zero_plus : (a : ℤ) → pos 0 +ℤ a ≡ a
    zero_plus a = omega int_laws
