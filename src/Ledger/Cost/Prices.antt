-- ===== src/Ledger/Cost/Prices.antt =====
-- internal/ledger/cost.go: the dues that a basis charges, against the stored rates.
use lineleader.Base.{
  ◌≡◌, refl, ap, ◌∙◌, inl, inr, Bool, true, false, Option, none, some, List, [], ◌∷◌, arith, foldl,
  Bool-cases, if◌then◌else◌,
}
use lineleader.Base.Int.{ℤ, pos, leb_ℤ, eqb_ℤ, ltb_ℤ, eq_of_eqb}
use lineleader.Ledger.Types.{Contract, DuesRate}
use lineleader.Ledger.Cost.{
  CostBasis, put_dues, dues_at, add_dues, new_cost_basis, projected_dues, dues_for,
}

-- The rate of the last row of a year, among the rows with a positive rate.
unfoldable pub stored_after : Option ℤ → List DuesRate → ℤ → Option ℤ
stored_after r [] y = r
stored_after r (d ∷ ds) y =
    stored_after
      (if leb_ℤ d.rate (pos 0) then r else (if eqb_ℤ d.use_year y then some d.rate else r)) ds y

unfoldable pub stored_rate : List DuesRate → ℤ → Option ℤ
unfolding stored_after
stored_rate ds y = stored_after none ds y

dues_at-put_dues :
    (d : DuesRate) (m : List DuesRate) (y : ℤ)
    → dues_at (put_dues d m) y ≡ (if eqb_ℤ d.use_year y then some d.rate else dues_at m y)
unfolding dues_at put_dues
dues_at-put_dues d [] y = refl
dues_at-put_dues d (x ∷ xs) y = elim (Bool-cases (eqb_ℤ x.use_year d.use_year)) [
  | inl h ↦ rw (h, same_year x.use_year d.use_year y h) (shadow (eqb_ℤ d.use_year y))
  | inr h ↦ elim (Bool-cases (eqb_ℤ x.use_year y)) [
    | inl k ↦ rw (h, k, other_year x.use_year d.use_year y h k) refl
    | inr k ↦ rw (h, k) (dues_at-put_dues d xs y)
  ]
]
  where
    same_year : (a b c : ℤ) → eqb_ℤ a b ≡ true → eqb_ℤ a c ≡ eqb_ℤ b c
    same_year a b c h = ap (λ x. eqb_ℤ x c) (eq_of_eqb a b h)

    other_year : (a b c : ℤ) → eqb_ℤ a b ≡ false → eqb_ℤ a c ≡ true → eqb_ℤ b c ≡ false
    other_year a b c h k = ground arith

    shadow :
        (t : Bool)
        → (if t then some d.rate else dues_at xs y)
          ≡ (if t then some d.rate else (if t then some x.rate else dues_at xs y))
    shadow true = refl
    shadow false = refl

dues_at-foldl :
    (ds m : List DuesRate) (y : ℤ)
    → dues_at (foldl add_dues m ds) y ≡ stored_after (dues_at m y) ds y
unfolding add_dues stored_after
dues_at-foldl [] m y = refl
dues_at-foldl (d ∷ ds) m y =
    dues_at-foldl ds (add_dues m d) y
    ∙ ap (λ r. stored_after r ds y)
        (elim (Bool-cases (leb_ℤ d.rate (pos 0))) [
          | inl h ↦ rw h refl
          | inr h ↦ rw h (dues_at-put_dues d m y)
        ])

dues_for-some : (b : CostBasis) (y r : ℤ) → dues_at b.dues y ≡ some r → dues_for b y ≡ (r, false)
unfolding dues_for
dues_for-some b y r h = rw (h, dues_for) refl

dues_for-none :
    (b : CostBasis) (y : ℤ) → dues_at b.dues y ≡ none → dues_for b y ≡ projected_dues b y
unfolding dues_for
dues_for-none b y h = rw (h, dues_for) refl

-- A basis made of contracts and dues charges a year that has a stored rate the rate of its last
-- row with a positive rate, and does not call it projected.
pub dues_for-new_cost_basis :
    (contracts : List Contract) (dues : List DuesRate) (y r : ℤ)
    → stored_rate dues y ≡ some r
    → dues_for (new_cost_basis contracts dues) y ≡ (r, false)
unfolding new_cost_basis stored_rate dues_at
dues_for-new_cost_basis contracts dues y r h =
    dues_for-some (new_cost_basis contracts dues) y r (dues_at-foldl dues [] y ∙ h)

projected_flag : (b : CostBasis) (y : ℤ) → (projected_dues b y).1 ≡ b.has_dues
unfolding projected_dues
projected_flag b y = elim (Bool-cases b.has_dues) [
  | inl h ↦ rw h (elim (Bool-cases (ltb_ℤ b.last_year y)) [
    | inl k ↦ rw k refl
    | inr k ↦
        rw k (elim (Bool-cases (ltb_ℤ y b.first_year)) [ inl l ↦ rw l refl | inr l ↦ rw l refl ])
  ])
  | inr h ↦ rw h refl
]

-- A year without a stored rate has projected dues, unless there are no dues at all.
pub dues_for-projected :
    (contracts : List Contract) (dues : List DuesRate) (y : ℤ)
    → stored_rate dues y ≡ none
    → (dues_for (new_cost_basis contracts dues) y).1 ≡ (new_cost_basis contracts dues).has_dues
unfolding new_cost_basis stored_rate dues_at
dues_for-projected contracts dues y h =
    ap (λ (p : ℤ × Bool). p.1)
      (dues_for-none (new_cost_basis contracts dues) y (dues_at-foldl dues [] y ∙ h))
    ∙ projected_flag (new_cost_basis contracts dues) y
