-- ===== src/Ledger/Allocation/Capacity.antt =====
-- How much the drawing loop can raise: the sum of the candidates' balances, no more and no less.
use lineleader.Base.{
  ℕ, ◌≡◌, refl, inl, inr, Bool, false, List, [], ◌∷◌, arith, Bool-cases, if◌then◌else◌, sum_of, All,
}
use lineleader.Base.Int.{ℤ, pos, ◌+ℤ◌, ◌-ℤ◌, ◌≤ℤ◌, ◌<ℤ◌, leb_ℤ, eqb_ℤ, min_ℤ, int_laws}
use lineleader.Base.Sort.{insert_sorted, sort_slice, All-insert_sorted, All-sort_slice}
use lineleader.Ledger.Types.{Disposition}
use lineleader.Ledger.Allocation.{same_key, Balances, take_points, Candidate, draw_down}
use lineleader.Ledger.Allocation.Draws.{step_nonneg}

abbrev pub balance_of : Balances → Candidate → ℤ
balance_of r c = r c.contract_id c.use_year

-- The points that the candidates hold together.
abbrev pub capacity : Balances → List Candidate → ℤ
capacity r = sum_of (balance_of r)

abbrev pub HasRoom : Balances → List Candidate → Type 0
HasRoom r = All (λ c. pos 0 <ℤ balance_of r c)

abbrev pub DiffersFrom : Candidate → Candidate → Type 0
DiffersFrom c c' = same_key c.contract_id c.use_year c'.contract_id c'.use_year ≡ false

-- No two candidates stand for one lot.
abbrev pub Distinct : List Candidate → Type 0
Distinct [] = Unit
Distinct (c ∷ cs) = All (DiffersFrom c) cs × Distinct cs

abbrev take_from : Candidate → ℤ → Balances → Balances
take_from c d r = take_points c.contract_id c.use_year d r

HasRoom-take :
    (c : Candidate) (d : ℤ) (r : Balances) (cs : List Candidate)
    → All (DiffersFrom c) cs
    → HasRoom r cs
    → HasRoom (take_from c d r) cs
HasRoom-take c d r [] a h = tt
HasRoom-take c d r (c' ∷ cs) a h = (rw a.0 h.0, HasRoom-take c d r cs a.1 h.1)

capacity-take :
    (c : Candidate) (d : ℤ) (r : Balances) (cs : List Candidate)
    → All (DiffersFrom c) cs
    → capacity (take_from c d r) cs ≡ capacity r cs
capacity-take c d r [] a = refl
capacity-take c d r (c' ∷ cs) a = rw (a.0, capacity-take c d r cs a.1)

pub capacity_nonneg : (r : Balances) (cs : List Candidate) → HasRoom r cs → pos 0 ≤ℤ capacity r cs
capacity_nonneg r [] h = omega arith
capacity_nonneg r (c ∷ cs) h = omega (int_laws, capacity_nonneg r cs h.1, h.0)

-- What a need of `need` misses of `have`.
abbrev pub missing : ℤ → ℤ → ℤ
missing need have = if leb_ℤ need have then pos 0 else need -ℤ have

missing_step :
    (need avail rest : ℤ)
    → pos 0 ≤ℤ need
    → pos 0 <ℤ avail
    → pos 0 ≤ℤ rest
    → missing (need -ℤ min_ℤ need avail) rest ≡ missing need (avail +ℤ rest)
missing_step need avail rest h k l = grind int_laws

-- The loop ends with exactly what the candidates' points do not cover.
pub draw_down-missing :
    (cs : List Candidate) (need : ℤ) (r : Balances)
    → Distinct cs
    → HasRoom r cs
    → pos 0 ≤ℤ need
    → (draw_down cs need r).1 ≡ missing need (capacity r cs)
unfolding draw_down
draw_down-missing [] need r u h n = grind int_laws
draw_down-missing (c ∷ cs) need r u h n = elim (Bool-cases (eqb_ℤ need (pos 0))) [
  | inl e ↦ rw e (grind (int_laws, capacity_nonneg r cs h.1))
  | inr e ↦
      let d = min_ℤ need (balance_of r c) in
      let ih =
        draw_down-missing cs (need -ℤ d) (take_from c d r) u.1 (HasRoom-take c d r cs u.0 h.1)
          (step_nonneg need (balance_of r c)) in
      rw (e, ih, capacity-take c d r cs u.0)
        (missing_step need (balance_of r c) (capacity r cs) n h.0 (capacity_nonneg r cs h.1))
]

-- Every draw takes points.
pub draw_down_pos :
    (cs : List Candidate) (need : ℤ) (r : Balances)
    → Distinct cs
    → HasRoom r cs
    → pos 0 ≤ℤ need
    → All (λ d. pos 0 <ℤ d.points) (draw_down cs need r).0
unfolding draw_down
draw_down_pos [] need r u h n = tt
draw_down_pos (c ∷ cs) need r u h n = elim (Bool-cases (eqb_ℤ need (pos 0))) [
  | inl e ↦ rw e tt
  | inr e ↦
      let d = min_ℤ need (balance_of r c) in
      rw e (
        positive need (balance_of r c) e n h.0,
        draw_down_pos cs (need -ℤ d) (take_from c d r) u.1 (HasRoom-take c d r cs u.0 h.1)
            (step_nonneg need (balance_of r c)),
      )
]
  where
    positive :
        (need avail : ℤ)
        → eqb_ℤ need (pos 0) ≡ false
        → pos 0 ≤ℤ need
        → pos 0 <ℤ avail
        → pos 0 <ℤ min_ℤ need avail
    positive need avail e n h = ground arith

-- What holds of every candidate holds of every draw.
pub draw_down_from :
    (Q : ℕ → ℤ → Disposition → Type 0) (cs : List Candidate) (need : ℤ) (r : Balances)
    → All (λ c. Q c.contract_id c.use_year c.disposition) cs
    → All (λ d. Q d.contract_id d.use_year d.disposition) (draw_down cs need r).0
unfolding draw_down
draw_down_from Q [] need r a = tt
draw_down_from Q (c ∷ cs) need r a = elim (Bool-cases (eqb_ℤ need (pos 0))) [
  | inl e ↦ rw e tt
  | inr e ↦ rw e (
    a.0,
    draw_down_from Q cs (need -ℤ min_ℤ need (balance_of r c))
        (take_from c (min_ℤ need (balance_of r c)) r) a.1,
  )
]

DiffersFrom-sym : (c c' : Candidate) → DiffersFrom c c' → DiffersFrom c' c
DiffersFrom-sym c c' h = ground arith

insert_sorted-Distinct :
    (less : Candidate → Candidate → Bool) (c : Candidate) (cs : List Candidate)
    → All (DiffersFrom c) cs
    → Distinct cs
    → Distinct (insert_sorted less c cs)
unfolding insert_sorted
insert_sorted-Distinct less c [] a u = (tt, tt)
insert_sorted-Distinct less c (c' ∷ cs) a u = elim (Bool-cases (less c' c)) [
  | inl h ↦ rw h (
    All-insert_sorted less (DiffersFrom c') c cs (DiffersFrom-sym c c' a.0) u.0,
    insert_sorted-Distinct less c cs a.1 u.1,
  )
  | inr h ↦ rw h (a, u)
]

pub sort_slice-Distinct :
    (less : Candidate → Candidate → Bool) (cs : List Candidate)
    → Distinct cs
    → Distinct (sort_slice less cs)
unfolding sort_slice
sort_slice-Distinct less [] u = tt
sort_slice-Distinct less (c ∷ cs) u =
    insert_sorted-Distinct less c (sort_slice less cs) (All-sort_slice less (DiffersFrom c) cs u.0)
      (sort_slice-Distinct less cs u.1)
