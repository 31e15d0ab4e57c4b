-- ===== src/Ledger/Allocation/Candidates.antt =====
-- The lots that `AllocateStayPoints` considers: which they are, and that each is taken once.
use lineleader.Base.{
  ℕ, ◌≡◌, refl, sym, ap, ◌∙◌, inl, inr, Bool, true, false, not, ◌&&◌, ◌||◌, Option, none, some,
  List, [], ◌∷◌, arith, Bool-cases, Option-cases, is_some, if◌then◌else◌, any, All, All-map,
}
use mathlib.Core.Path.{ap₂}
use lineleader.Base.Int.{leb_ℤ→gt, ℤ, pos, ◌+ℤ◌, ◌-ℤ◌, ◌<ℤ◌, leb_ℤ, eqb_ℤ, int_laws, eq_of_eqb}
use lineleader.Calendar.{Time, Calendar}
use lineleader.Ledger.Types.{
  Disposition, banked, current, borrowed, blank, PointLot, use_year_for_date,
}
use lineleader.Ledger.Allocation.{
  same_key, Months, Balances, Keys, Candidate, classify, candidate_of, candidates_of,
}
use lineleader.Ledger.Allocation.Draws.{eq_of_same_key}
use lineleader.Ledger.Allocation.Capacity.{Distinct, DiffersFrom}

-- How the use year of a draw lies to that of the check-in, by the draw's disposition.
abbrev pub YearFits : Disposition → ℤ → ℤ → Type 0
YearFits banked uy y = y ≡ uy -ℤ pos 1
YearFits current uy y = y ≡ uy
YearFits borrowed uy y = y ≡ uy +ℤ pos 1
YearFits blank uy y = ⊥

abbrev pub rank_of : Disposition → ℕ
rank_of banked = 0
rank_of current = 1
rank_of borrowed = 2
rank_of blank = 3

abbrev Classified : ℤ → ℤ → Option (Disposition × ℕ) → Type 0
Classified y uy none = Unit
Classified y uy (some (d, k)) = YearFits d uy y × (k ≡ rank_of d)

classify-Classified : (y uy : ℤ) → Classified y uy (classify y uy)
unfolding classify
classify-Classified y uy = elim (Bool-cases (eqb_ℤ y (uy -ℤ pos 1))) [
  | inl e ↦ rw e (eq_of_eqb y (uy -ℤ pos 1) e, refl)
  | inr e ↦ rw e (elim (Bool-cases (eqb_ℤ y uy)) [
    | inl e ↦ rw e (eq_of_eqb y uy e, refl)
    | inr e ↦ rw e (elim (Bool-cases (eqb_ℤ y (uy +ℤ pos 1))) [
      | inl e ↦ rw e (eq_of_eqb y (uy +ℤ pos 1) e, refl)
      | inr e ↦ rw e tt
    ])
  ])
]

and_false : (b : Bool) → (b && false) ≡ false
and_false b = ground arith

-- The use year lies at most one year from that of the check-in.
abbrev pub near_year : ℤ → ℤ → Bool
near_year y uy = leb_ℤ (uy -ℤ pos 1) y && leb_ℤ y (uy +ℤ pos 1)

classify-is_some : (y uy : ℤ) → is_some (classify y uy) ≡ near_year y uy
unfolding classify
classify-is_some y uy = grind int_laws

none_step : (s hl wl w : Bool) → (s ≡ true → wl ≡ w) → wl ≡ false → (hl && w) ≡ ((s || hl) && w)
none_step true hl wl w h e = rw (← h refl, e) (and_false hl)
none_step false hl wl w h e = refl

some_step :
    (s hl wl u seen : Bool)
    → (s ≡ true → wl ≡ (u && not seen))
    → wl ≡ true
    → (s || (hl && (u && not (if s then true else seen)))) ≡ ((s || hl) && (u && not seen))
some_step true hl wl u seen h e = sym e ∙ h refl
some_step false hl wl u seen h e = refl

unmarked : (b s : Bool) → (if b then true else s) ≡ false → (b ≡ false) × (s ≡ false)
unmarked b s h = ground arith

unseen_of : (u s : Bool) → (u && not s) ≡ true → s ≡ false
unseen_of u s h = ground arith

module _ (cal : Calendar) (months : Months) (remaining : Balances) (check_in : Time) where
  -- A lot may fund the stay: it has points left, its contract is known, and its use year is near.
  abbrev pub usable : ℕ → ℤ → Bool
  usable i y = not (leb_ℤ (remaining i y) (pos 0)) && elim (months i) [
    | none ↦ false
    | some month ↦ near_year y (use_year_for_date cal check_in month)
  ]

  -- What a draw on the lot (i, y) with disposition `d` has to satisfy.
  abbrev pub Eligible : ℕ → ℤ → Disposition → Type 0
  Eligible i y d =
      (month : ℕ) × (months i ≡ some month) × YearFits d (use_year_for_date cal check_in month) y

  abbrev pub IsCandidate : Candidate → Type 0
  IsCandidate c =
      (pos 0 <ℤ remaining c.contract_id c.use_year)
      × Eligible c.contract_id c.use_year c.disposition
      × (c.rank ≡ rank_of c.disposition)

  abbrev Found : Keys → PointLot → Option Candidate → Type 0
  Found seen lot none =
      usable lot.contract_id lot.use_year && not (seen lot.contract_id lot.use_year) ≡ false
  Found seen lot (some c) =
      IsCandidate c
      × (c.contract_id ≡ lot.contract_id)
      × (c.use_year ≡ lot.use_year)
      × (usable lot.contract_id lot.use_year && not (seen lot.contract_id lot.use_year) ≡ true)

  candidate_of-Found :
      (seen : Keys) (lot : PointLot)
      → Found seen lot (candidate_of cal months remaining check_in seen lot)
  unfolding candidate_of
  candidate_of-Found seen lot =
      let i = lot.contract_id in
      let y = lot.use_year in
      elim (Bool-cases (leb_ℤ (remaining i y) (pos 0))) [
        | inl e ↦ rw e (rw e refl)
        | inr e ↦ rw e (elim (Bool-cases (seen i y)) [
          | inl s ↦ rw s (rw s (and_false (usable i y)))
          | inr s ↦ rw s (elim (Option-cases (months i)) [
            | inl m ↦ rw m (rw m (ground arith))
            | inr (month, m) ↦
                let uy = use_year_for_date cal check_in month in
                rw m (elim (Option-cases (classify y uy)) [
                  | inl c ↦
                      let far = sym (classify-is_some y uy) ∙ ap is_some c in
                      rw c (rw (m, far) (ground arith))
                  | inr ((d, k), c) ↦
                      let near = sym (classify-is_some y uy) ∙ ap is_some c in
                      let (fits, rank) = rw c at (classify-Classified y uy) in
                      rw c (
                        (leb_ℤ→gt (remaining i y) (pos 0) e, (month, m, fits), rank),
                        refl,
                        refl,
                        rw (m, e, s, near) refl,
                      )
                ])
          ])
        ])
      ]

  abbrev pub has_lot : ℕ → ℤ → List PointLot → Bool
  has_lot i y = any (λ lot. same_key lot.contract_id lot.use_year i y)

  abbrev pub has_candidate : ℕ → ℤ → List Candidate → Bool
  has_candidate i y = any (λ c. same_key c.contract_id c.use_year i y)

  abbrev marked : Candidate → Keys → Keys
  marked c seen i y = if same_key c.contract_id c.use_year i y then true else seen i y

  module _ (lot : PointLot) (lots : List PointLot) (seen : Keys) where
    candidates_of_skip :
        candidate_of cal months remaining check_in seen lot ≡ none
        → candidates_of cal months remaining check_in (lot ∷ lots) seen
          ≡ candidates_of cal months remaining check_in lots seen
    unfolding candidates_of
    candidates_of_skip e = rw (e, candidates_of)

    candidates_of_take :
        (c : Candidate)
        → candidate_of cal months remaining check_in seen lot ≡ some c
        → candidates_of cal months remaining check_in (lot ∷ lots) seen
          ≡ c ∷ candidates_of cal months remaining check_in lots (marked c seen)
    unfolding candidates_of
    candidates_of_take c e = rw (e, candidates_of)

  -- Every candidate has points left, a known contract and the disposition of its use year.
  pub candidates_of-IsCandidate :
      (lots : List PointLot) (seen : Keys)
      → All IsCandidate (candidates_of cal months remaining check_in lots seen)
  unfolding candidates_of
  candidates_of-IsCandidate [] seen = tt
  candidates_of-IsCandidate (lot ∷ lots) seen =
      elim (Option-cases (candidate_of cal months remaining check_in seen lot)) [
        | inl e ↦ rw (candidates_of_skip lot lots seen e) (candidates_of-IsCandidate lots seen)
        | inr (c, e) ↦
            let found = rw e at (candidate_of-Found seen lot) in
            rw (candidates_of_take lot lots seen c e)
              (found.0, candidates_of-IsCandidate lots (marked c seen))
      ]

  -- A contract and use year has a candidate exactly if it has a lot, was not seen before, and is
  -- usable: its balance is positive, the contract is known, and the use year is the stay's for
  -- the contract or next to it.
  pub has_candidate-candidates_of :
      (i : ℕ) (y : ℤ) (lots : List PointLot) (seen : Keys)
      → has_candidate i y (candidates_of cal months remaining check_in lots seen)
        ≡ (has_lot i y lots && (usable i y && not (seen i y)))
  unfolding candidates_of
  has_candidate-candidates_of i y [] seen = refl
  has_candidate-candidates_of i y (lot ∷ lots) seen =
      let s = same_key lot.contract_id lot.use_year i y in
      let wl = usable lot.contract_id lot.use_year && not (seen lot.contract_id lot.use_year) in
      let same : s ≡ true → wl ≡ (usable i y && not (seen i y)) = λ e.
        let (a, b) = eq_of_same_key _ _ i y e in ap₂ (λ j z. usable j z && not (seen j z)) a b in
      elim (Option-cases (candidate_of cal months remaining check_in seen lot)) [
        | inl e ↦
            let found = rw e at (candidate_of-Found seen lot) in
            rw (candidates_of_skip lot lots seen e, has_candidate-candidates_of i y lots seen)
              (none_step s (has_lot i y lots) wl (usable i y && not (seen i y)) same found)
        | inr (c, e) ↦
            let found = rw e at (candidate_of-Found seen lot) in
            rw
              (
                candidates_of_take lot lots seen c e,
                has_candidate-candidates_of i y lots (marked c seen),
                found.1,
                found.2,
              )
              (some_step s (has_lot i y lots) wl (usable i y) (seen i y) same found.3)
      ]

  -- No lot is a candidate twice.
  pub candidates_of-Distinct :
      (lots : List PointLot) (seen : Keys)
      → Distinct (candidates_of cal months remaining check_in lots seen)
        × All
            (λ c. seen c.contract_id c.use_year ≡ false)
            (candidates_of cal months remaining check_in lots seen)
  unfolding candidates_of
  candidates_of-Distinct [] seen = (tt, tt)
  candidates_of-Distinct (lot ∷ lots) seen =
      elim (Option-cases (candidate_of cal months remaining check_in seen lot)) [
        | inl e ↦ rw (candidates_of_skip lot lots seen e) (candidates_of-Distinct lots seen)
        | inr (c, e) ↦
            let found = rw e at (candidate_of-Found seen lot) in
            let (distinct, unseen) = candidates_of-Distinct lots (marked c seen) in
            let rest = candidates_of cal months remaining check_in lots (marked c seen) in
            rw (candidates_of_take lot lots seen c e) (
              (All-map _ (DiffersFrom c) (λ c' h. (unmarked _ _ h).0) rest unseen, distinct),
              (
                rw (found.1, found.2) (unseen_of (usable lot.contract_id lot.use_year) _ found.3),
                All-map _ (λ c'. seen c'.contract_id c'.use_year ≡ false)
                    (λ c' h. (unmarked _ _ h).1) rest unseen,
              ),
            )
      ]

  -- The use year of a candidate is that of a lot.
  pub candidates_of-use_year :
      (Q : ℤ → Type 0) (lots : List PointLot) (seen : Keys)
      → All (λ lot. Q lot.use_year) lots
      → All (λ c. Q c.use_year) (candidates_of cal months remaining check_in lots seen)
  unfolding candidates_of
  candidates_of-use_year Q [] seen q = tt
  candidates_of-use_year Q (lot ∷ lots) seen q =
      elim (Option-cases (candidate_of cal months remaining check_in seen lot)) [
        | inl e ↦ rw (candidates_of_skip lot lots seen e) (candidates_of-use_year Q lots seen q.1)
        | inr (c, e) ↦
            let found = rw e at (candidate_of-Found seen lot) in
            rw (candidates_of_take lot lots seen c e)
              (rw found.2 q.0, candidates_of-use_year Q lots (marked c seen) q.1)
      ]
