-- ===== src/Ledger/Allocation/Draws.antt =====
-- The drawing loop of `AllocateStayPoints`: what it draws, and from which lot.
use lineleader.Base.{
  ℕ, ◌≡◌, inl, inr, Bool, true, false, List, [], ◌∷◌, arith, Bool-cases, if◌then◌else◌, sum_of,
}
use mathlib.Core.Path.{ap₂}
use lineleader.Base.Int.{ℤ, pos, ◌+ℤ◌, ◌-ℤ◌, ◌≤ℤ◌, eqb_ℤ, min_ℤ, int_laws}
use lineleader.Ledger.Types.{PointDraw}
use lineleader.Ledger.Allocation.{same_key, Balances, take_points, Candidate, draw_down}

abbrev pub draw_points : PointDraw → ℤ
draw_points d = d.points

-- What a list of draws takes from one lot.
abbrev pub drawn_from : ℕ → ℤ → List PointDraw → ℤ
drawn_from i y = sum_of (λ d. if same_key d.contract_id d.use_year i y then d.points else pos 0)

pub same_key_refl : (i : ℕ) (y : ℤ) → same_key i y i y ≡ true
same_key_refl i y = ground arith

pub eq_of_same_key : (i : ℕ) (y : ℤ) (j : ℕ) (z : ℤ) → same_key i y j z ≡ true → (i ≡ j) × (y ≡ z)
eq_of_same_key i y j z h = (ground arith, ground arith)

pub balance_eq :
    (r : Balances) (i : ℕ) (y : ℤ) (j : ℕ) (z : ℤ) → same_key i y j z ≡ true → r i y ≡ r j z
balance_eq r i y j z h = let (a, b) = eq_of_same_key i y j z h in ap₂ r a b

-- Draws and what is left of the need always make up the need.
pub draw_down-sum :
    (cs : List Candidate) (need : ℤ) (r : Balances)
    → sum_of draw_points (draw_down cs need r).0 +ℤ (draw_down cs need r).1 ≡ need
unfolding draw_down
draw_down-sum [] need r = omega int_laws
draw_down-sum (c ∷ cs) need r = elim (Bool-cases (eqb_ℤ need (pos 0))) [
  | inl e ↦ rw e (omega int_laws)
  | inr e ↦
      let d = min_ℤ need (r c.contract_id c.use_year) in
      let ih = draw_down-sum cs (need -ℤ d) (take_points c.contract_id c.use_year d r) in
      rw e (grind (int_laws, ih))
]

pub min_bounds : (a b : ℤ) → (min_ℤ a b ≤ℤ a) × (min_ℤ a b ≤ℤ b)
min_bounds a b = ground arith

pub step_nonneg : (need avail : ℤ) → pos 0 ≤ℤ need -ℤ min_ℤ need avail
step_nonneg need avail = omega (int_laws, (min_bounds need avail).0)

-- The need that is left is never negative.
pub draw_down_left :
    (cs : List Candidate) (need : ℤ) (r : Balances)
    → pos 0 ≤ℤ need
    → pos 0 ≤ℤ (draw_down cs need r).1
unfolding draw_down
draw_down_left [] need r h = h
draw_down_left (c ∷ cs) need r h = elim (Bool-cases (eqb_ℤ need (pos 0))) [
  | inl e ↦ rw e h
  | inr e ↦
      let avail = r c.contract_id c.use_year in
      rw e (
        draw_down_left cs (need -ℤ min_ℤ need avail)
          (take_points c.contract_id c.use_year (min_ℤ need avail) r) (step_nonneg need avail))
]

-- One round's effect on the bound for the lot (i, y).
within_step :
    (same : Bool) (d have drawn : ℤ)
    → drawn ≤ℤ (if same then have -ℤ d else have)
    → (if same then d else pos 0) +ℤ drawn ≤ℤ have
within_step true d have drawn h = omega int_laws
within_step false d have drawn h = omega int_laws

-- No lot is drawn below zero: the draws on it stay within its balance.
pub draw_down_within :
    (cs : List Candidate) (need : ℤ) (r : Balances) (i : ℕ) (y : ℤ)
    → pos 0 ≤ℤ need
    → pos 0 ≤ℤ r i y
    → drawn_from i y (draw_down cs need r).0 ≤ℤ r i y
unfolding draw_down
draw_down_within [] need r i y h k = k
draw_down_within (c ∷ cs) need r i y h k = elim (Bool-cases (eqb_ℤ need (pos 0))) [
  | inl e ↦ rw e k
  | inr e ↦
      let avail = r c.contract_id c.use_year in
      let d = min_ℤ need avail in
      let ih =
        draw_down_within cs (need -ℤ d) (take_points c.contract_id c.use_year d r) i y
          (step_nonneg need avail) (room c r i y d (min_bounds need avail).1 k) in
      rw e (within_step (same_key c.contract_id c.use_year i y) d (r i y) _ ih)
]
  where
    room :
        (c : Candidate) (r : Balances) (i : ℕ) (y d : ℤ)
        → d ≤ℤ r c.contract_id c.use_year
        → pos 0 ≤ℤ r i y
        → pos 0 ≤ℤ take_points c.contract_id c.use_year d r i y
    room c r i y d le k = elim (Bool-cases (same_key c.contract_id c.use_year i y)) [
      | inl e ↦
          let le' = rw (balance_eq r c.contract_id c.use_year i y e) at le in
          rw e (omega (int_laws, le'))
      | inr e ↦ rw e k
    ]
