-- ===== src/Ledger/Accounting/Shortfall.antt =====
-- The binary search of `shortfall` finds how many points the ledger lacks for a stay.
use lineleader.Base.{
  ℕ, zero, suc, pred, ◌+◌, ◌/◌, ◌≤◌, ◌≡◌, ap, ◌∙◌, Bool, true, none, some, List, arith, leb,
  is_some, if◌then◌else◌,
}
use lineleader.Base.Int.{ℤ, pos, pos_part, ◌-ℤ◌, ◌≤ℤ◌, ◌<ℤ◌, leb_ℤ}
use lineleader.Calendar.{Time, Calendar}
use lineleader.Ledger.Types.{Contract, PointLot, PointDraw}
use lineleader.Ledger.Allocation.{allocate_stay_points}
use lineleader.Ledger.Allocation.Laws.{fundable, fundable_nonneg, allocate_stay_points_lem}
use lineleader.Ledger.Accounting.{search_amount, funds_amount, shortfall}

-- With enough fuel, the search for a test that holds up to `k` and not above finds `k`.
search_amount_lem :
    (funds : ℕ → Bool) (k : ℕ)
    → ((n : ℕ) → funds n ≡ leb n k)
    → (fuel lo hi : ℕ) → lo ≤ k
    → k ≤ hi
    → hi ≤ lo + fuel
    → search_amount funds fuel lo hi ≡ k
unfolding search_amount
search_amount_lem funds k test zero lo hi l h f = omega arith
search_amount_lem funds k test (suc fuel) lo hi l h f = ground (
  arith,
  test ((lo + hi + 1) / 2),
  search_amount_lem funds k test fuel ((lo + hi + 1) / 2) hi,
  search_amount_lem funds k test fuel lo (pred ((lo + hi + 1) / 2)),
)

leb_zero : (k : ℕ) → true ≡ leb 0 k
leb_zero k = ground arith

granted :
    {A : Type 0} (n : ℕ) (k : ℤ) (a : A)
    → pos 0 ≤ℤ k
    → is_some (if leb_ℤ (pos n) k then some a else none) ≡ leb n (pos_part k)
granted n k a h = ground arith

pos_part_mono : (k p : ℤ) → pos 0 ≤ℤ k → k <ℤ p → pos_part k ≤ pos_part p
pos_part_mono k p h l = ground arith

pos-pos_part : (k : ℤ) → pos 0 ≤ℤ k → pos (pos_part k) ≡ k
pos-pos_part k h = ground arith

module _ (cal : Calendar) (contracts : List Contract) (lots : List PointLot)
    (consumed : List PointDraw) (check_in : Time) where
  funds_amount_lem :
      (n : ℕ)
      → funds_amount cal contracts lots consumed check_in n
        ≡ leb n (pos_part (fundable cal contracts lots consumed check_in))
  unfolding allocate_stay_points
  funds_amount_lem zero = leb_zero (pos_part (fundable cal contracts lots consumed check_in))
  funds_amount_lem (suc n) =
      ap is_some
        (allocate_stay_points_lem cal contracts lots consumed check_in (pos (suc n)) (omega arith))
      ∙ granted (suc n) (fundable cal contracts lots consumed check_in) _
          (fundable_nonneg cal contracts lots consumed check_in)

  -- For more points than the candidates' balances add up to, the binary search ends with exactly
  -- what those balances lack.
  pub shortfall_lem :
      (points : ℤ)
      → fundable cal contracts lots consumed check_in <ℤ points
      → shortfall cal contracts lots consumed check_in points
        ≡ points -ℤ fundable cal contracts lots consumed check_in
  unfolding shortfall
  shortfall_lem points h =
      let k = fundable cal contracts lots consumed check_in in
      let n = fundable_nonneg cal contracts lots consumed check_in in
      rw
        (search_amount_lem (funds_amount cal contracts lots consumed check_in) (pos_part k)
          funds_amount_lem (pos_part points) 0 (pos_part points) (omega arith)
          (pos_part_mono k points n h) (omega arith))
        (ap (λ z. points -ℤ z) (pos-pos_part k n))
