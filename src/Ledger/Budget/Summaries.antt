-- ===== src/Ledger/Budget/Summaries.antt =====
-- The rows of `UseYearSummaries` as sums over the entries, and the map that `BudgetForUseYear`
-- builds from them.
use lineleader.Base.{
  ◌≡◌, refl, sym, ap, ◌∙◌, inl, inr, true, false, List, [], ◌∷◌, arith, Bool-cases, if◌then◌else◌,
  sum_of, All,
}
use lineleader.Base.Int.{ℤ, pos, ◌+ℤ◌, ◌-ℤ◌, ltb_ℤ, eqb_ℤ, int_laws, eq_of_eqb}
use lineleader.Ledger.Types.{Entry, UseYearSummary}
use lineleader.Ledger.Store.Queries.{add_to_year, summaries_of}

-- A measure of the entries, and of their summary rows, that grouping adds up.
pub data Measure : Type 0 where
  allotted used net : Measure

abbrev pub of_entry : Measure → Entry → ℤ
of_entry allotted e = e.allotted
of_entry used e = e.used
of_entry net e = e.allotted -ℤ e.used

abbrev pub of_summary : Measure → UseYearSummary → ℤ
of_summary allotted s = s.allotted
of_summary used s = s.used
of_summary net s = s.net

-- The sum over the entries of a use year.
abbrev pub in_year : Measure → ℤ → List Entry → ℤ
in_year m y = sum_of (λ (e : Entry). if eqb_ℤ e.use_year y then of_entry m e else pos 0)

abbrev pub rows_in_year : Measure → ℤ → List UseYearSummary → ℤ
rows_in_year m y =
    sum_of (λ (s : UseYearSummary). if eqb_ℤ s.use_year y then of_summary m s else pos 0)

-- The net of a row is what its sums say.
abbrev pub IsNet : UseYearSummary → Type 0
IsNet s = s.net ≡ s.allotted -ℤ s.used

add_to_year-IsNet :
    (e : Entry) (ss : List UseYearSummary) → All IsNet ss → All IsNet (add_to_year e ss)
unfolding add_to_year
add_to_year-IsNet e [] a = (refl, tt)
add_to_year-IsNet e (s ∷ ss) a = elim (Bool-cases (eqb_ℤ s.use_year e.use_year)) [
  | inl h ↦ rw h (refl, a.1)
  | inr h ↦ rw h (a.0, add_to_year-IsNet e ss a.1)
]

summaries_of-IsNet : (es : List Entry) → All IsNet (summaries_of es)
unfolding summaries_of
summaries_of-IsNet [] = tt
summaries_of-IsNet (e ∷ es) = add_to_year-IsNet e (summaries_of es) (summaries_of-IsNet es)

rows-add_to_year :
    (m : Measure) (y : ℤ) (e : Entry) (ss : List UseYearSummary)
    → All IsNet ss
    → rows_in_year m y (add_to_year e ss)
      ≡ (if eqb_ℤ e.use_year y then of_entry m e else pos 0) +ℤ rows_in_year m y ss
unfolding add_to_year
rows-add_to_year allotted y e [] a = refl
rows-add_to_year used y e [] a = refl
rows-add_to_year net y e [] a = refl
rows-add_to_year m y e (s ∷ ss) a = elim (Bool-cases (eqb_ℤ s.use_year e.use_year)) [
  | inl h ↦ elim (Bool-cases (eqb_ℤ s.use_year y)) [
    | inl k ↦
        rw (h, k, same_year _ _ y h ∙ k)
          (ap (λ x. x +ℤ rows_in_year m y ss) (merged m a.0) ∙ plus_assoc _ _ _)
    | inr k ↦ rw (h, k, same_year _ _ y h ∙ k) (omega int_laws)
  ]
  | inr h ↦ rw (h, rows-add_to_year m y e ss a.1) (omega int_laws)
]
  where
    same_year : (a b c : ℤ) → eqb_ℤ a b ≡ true → eqb_ℤ b c ≡ eqb_ℤ a c
    same_year a b c h = ap (λ x. eqb_ℤ x c) (sym (eq_of_eqb a b h))

    plus_assoc : (a b c : ℤ) → (a +ℤ b) +ℤ c ≡ a +ℤ (b +ℤ c)
    plus_assoc a b c = omega int_laws

    merged :
        (m : Measure)
        → IsNet s
        → of_summary m (record s {
          allotted = s.allotted +ℤ e.allotted;
          used = s.used +ℤ e.used;
          net = (s.allotted +ℤ e.allotted) -ℤ (s.used +ℤ e.used);
          over_borrowed = ltb_ℤ ((s.allotted +ℤ e.allotted) -ℤ (s.used +ℤ e.used)) (pos 0);
        })
          ≡ of_entry m e +ℤ of_summary m s
    merged allotted n = omega int_laws
    merged used n = omega int_laws
    merged net n = rw n (omega int_laws)

-- The rows say what the entries of their use year add up to.
pub summaries_of_lem :
    (m : Measure) (y : ℤ) (es : List Entry) → rows_in_year m y (summaries_of es) ≡ in_year m y es
unfolding summaries_of
summaries_of_lem m y [] = refl
summaries_of_lem m y (e ∷ es) =
    rows-add_to_year m y e (summaries_of es) (summaries_of-IsNet es)
    ∙ rw (summaries_of_lem m y es) refl

-- No row has the use year of a later one.
abbrev pub Distinct : List UseYearSummary → Type 0
Distinct [] = Unit
Distinct (s ∷ ss) =
    All (λ (t : UseYearSummary). eqb_ℤ t.use_year s.use_year ≡ false) ss × Distinct ss

keeps_year :
    (e : Entry) (y : ℤ) (ss : List UseYearSummary)
    → eqb_ℤ e.use_year y ≡ false
    → All (λ (t : UseYearSummary). eqb_ℤ t.use_year y ≡ false) ss
    → All (λ (t : UseYearSummary). eqb_ℤ t.use_year y ≡ false) (add_to_year e ss)
unfolding add_to_year
keeps_year e y [] n a = (n, tt)
keeps_year e y (s ∷ ss) n a = elim (Bool-cases (eqb_ℤ s.use_year e.use_year)) [
  | inl h ↦ rw h (a.0, a.1)
  | inr h ↦ rw h (a.0, keeps_year e y ss n a.1)
]

eqb_sym : (a b : ℤ) → eqb_ℤ a b ≡ false → eqb_ℤ b a ≡ false
eqb_sym a b h = ground arith

add_to_year-Distinct :
    (e : Entry) (ss : List UseYearSummary) → Distinct ss → Distinct (add_to_year e ss)
unfolding add_to_year
add_to_year-Distinct e [] u = (tt, tt)
add_to_year-Distinct e (s ∷ ss) u = elim (Bool-cases (eqb_ℤ s.use_year e.use_year)) [
  | inl h ↦ rw h (u.0, u.1)
  | inr h ↦ rw h (
    keeps_year e s.use_year ss (eqb_sym s.use_year e.use_year h) u.0,
    add_to_year-Distinct e ss u.1,
  )
]

pub summaries_of-Distinct : (es : List Entry) → Distinct (summaries_of es)
unfolding summaries_of
summaries_of-Distinct [] = tt
summaries_of-Distinct (e ∷ es) = add_to_year-Distinct e (summaries_of es) (summaries_of-Distinct es)

add_to_year-net :
    (e : Entry) (ss : List UseYearSummary)
    → All IsNet ss
    → sum_of (λ (s : UseYearSummary). s.net) (add_to_year e ss)
      ≡ (e.allotted -ℤ e.used) +ℤ sum_of (λ (s : UseYearSummary). s.net) ss
unfolding add_to_year
add_to_year-net e [] a = refl
add_to_year-net e (s ∷ ss) a = elim (Bool-cases (eqb_ℤ s.use_year e.use_year)) [
  | inl h ↦ rw (h, a.0) (omega int_laws)
  | inr h ↦ rw (h, add_to_year-net e ss a.1) (omega int_laws)
]

-- The rows' nets add up to the net of the entries.
pub summaries_of-net :
    (es : List Entry)
    → sum_of (λ (s : UseYearSummary). s.net) (summaries_of es)
      ≡ sum_of (λ (e : Entry). e.allotted -ℤ e.used) es
unfolding summaries_of
summaries_of-net [] = refl
summaries_of-net (e ∷ es) =
    add_to_year-net e (summaries_of es) (summaries_of-IsNet es) ∙ rw (summaries_of-net es) refl
