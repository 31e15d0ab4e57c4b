-- ===== src/Dvc/Search/Rounds.antt =====
-- The loop over the nights of a stay ends by its own tests.
use lineleader.Base.{ℕ, zero, suc, ◌+◌, ◌≤◌, ◌<◌, ◌≡◌, refl, inl, inr, arith, Bool-cases, leb}
use lineleader.Base.Int.{ℤ, pos, ◌+ℤ◌}
use lineleader.Calendar.{Time}
use lineleader.Dvc.Search.{max_nights, Query, extend_stay}
use lineleader.Dvc.Search.Nights.{Night-cases}

module _ (q : Query) (check_in : Time) where
  -- Two bounds that reach `max_nights` give the same stays.
  extend_stay-bounds :
      (rounds more n : ℕ) (total : ℤ)
      → n < max_nights
      → max_nights ≤ n + rounds
      → max_nights ≤ n + more
      → extend_stay q check_in rounds n total ≡ extend_stay q check_in more n total
  unfolding extend_stay
  extend_stay-bounds zero more n total l a b = absurd (omega arith)
  extend_stay-bounds (suc rounds) zero n total l a b = absurd (omega arith)
  extend_stay-bounds (suc rounds) (suc more) n total l a b =
      elim (Night-cases (q.night (check_in + n))) [
        | inl g ↦ rw g refl
        | inr (inl g) ↦ rw g refl
        | inr (inr (p, g)) ↦ rw g (elim (Bool-cases (leb max_nights (suc n))) [
          | inl m ↦ rw m refl
          | inr m ↦
              rw
                (extend_stay-bounds rounds more (suc n) (total +ℤ p) (ground arith) (omega arith)
                  (omega arith))
                refl
        ])
      ]

-- The loop that extends a stay ends by its own tests within `max_nights` rounds: any larger bound on
-- its rounds gives the same stays.
pub extend_stay-rounds :
    (q : Query) (check_in : Time) (rounds : ℕ)
    → max_nights ≤ rounds
    → extend_stay q check_in rounds 0 (pos 0) ≡ extend_stay q check_in max_nights 0 (pos 0)
extend_stay-rounds q check_in rounds l =
    extend_stay-bounds q check_in rounds max_nights 0 (pos 0) (omega arith) (omega arith)
      (omega arith)
