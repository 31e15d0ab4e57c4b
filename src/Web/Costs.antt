-- ===== src/Web/Costs.antt =====
-- internal/web/costs.go: the cached pricing of the planner. The mutex makes each call one step; the
-- clock and the store are what a call finds, so they are its arguments. An instant is a number of
-- nanoseconds, `none` is the error of `fetch`, and a provider without a store never changes.
pub mod Freshness
use lineleader.Base.{Bool, true, false, ◌&&◌, Option, none, some, List, [], ◌∷◌, if◌then◌else◌}
use lineleader.Base.Int.{ℤ, pos, ◌-ℤ◌, ltb_ℤ}

-- `costBasisTTL`
abbrev pub cost_basis_ttl : ℤ
cost_basis_ttl = pos 60000000000

-- The fields that change, for a pricing of type `A`.
pub record CostProvider {ℓ} (A : Type ℓ) : Type ℓ where
  pub cached : A
  pub valid : Bool
  pub fetched_at : ℤ

module _ {ℓ} {A : Type ℓ} where
  -- The part of `Basis` after the test of the cache.
  unfoldable pub refresh : A → Option A → ℤ → CostProvider A → (A × Bool) × CostProvider A
  refresh empty none later p = ((empty, false), record p { valid = false })
  refresh empty (some b) later p =
      ((b, true), record { cached = b; valid = true; fetched_at = later })

  -- `Basis` at the instant `now`, with what a fetch would give and the instant after it.
  unfoldable pub basis : A → ℤ → Option A → ℤ → CostProvider A → (A × Bool) × CostProvider A
  basis empty now fetched later p =
      if p.valid && ltb_ℤ (now -ℤ p.fetched_at) cost_basis_ttl
      then ((p.cached, true), p)
      else refresh empty fetched later p

  -- `Invalidate`
  unfoldable pub invalidate : CostProvider A → CostProvider A
  invalidate p = record p { valid = false }
