-- ===== src/Web/Costs/Freshness.antt =====
-- internal/web/costs.go: what `Basis` serves is recent.
use lineleader.Base.{
  ◌≡◌, refl, sym, ◌⊎◌, inl, inr, Bool, true, false, ◌&&◌, Option, none, some, List, [], ◌∷◌, arith,
  Bool-cases,
}
use mathlib.Core.Path.{subst}
use lineleader.Base.Int.{ℤ, ◌-ℤ◌, ◌<ℤ◌, ltb_ℤ, ltb_ℤ→lt}
use lineleader.Web.Costs.{cost_basis_ttl, CostProvider, refresh, basis, invalidate}

-- The calls of a provider: `Basis` with what it finds, or `Invalidate`.
pub data Call {ℓ} (A : Type ℓ) : Type ℓ where
  asked : ℤ → Option A → ℤ → Call A
  discarded : Call A

module _ {A : Type 0} (empty : A) where
  unfoldable pub step : Call A → CostProvider A → CostProvider A
  unfolding basis
  step (asked now fetched later) p = (basis empty now fetched later p).1
  step discarded p = invalidate p

  -- The provider after calls, of which the last is the first of the list.
  unfoldable pub after_calls : CostProvider A → List (Call A) → CostProvider A
  unfolding step
  after_calls p [] = p
  after_calls p (c ∷ cs) = step c (after_calls p cs)

  -- Since the last `Invalidate` a call of `Basis` fetched `b`, until the instant `t`.
  abbrev pub FetchedAt : A → ℤ → List (Call A) → Type 0
  FetchedAt b t [] = ⊥
  FetchedAt b t (discarded ∷ cs) = ⊥
  FetchedAt b t (asked now fetched later ∷ cs) =
      ((fetched ≡ some b) × (later ≡ t)) ⊎ FetchedAt b t cs

  abbrev Backed : CostProvider A → List (Call A) → Type 0
  Backed p cs = p.valid ≡ true → FetchedAt p.cached p.fetched_at cs

  refresh-Backed :
      (fetched : Option A) (now later : ℤ) (p : CostProvider A) (cs : List (Call A))
      → Backed (refresh empty fetched later p).1 (asked now fetched later ∷ cs)
  unfolding refresh
  refresh-Backed none now later p cs v = ground arith
  refresh-Backed (some b) now later p cs v = inl (refl, refl)

  basis_cached :
      (fetched : Option A) (now later : ℤ) (p : CostProvider A)
      → (p.valid && ltb_ℤ (now -ℤ p.fetched_at) cost_basis_ttl) ≡ true
      → basis empty now fetched later p ≡ ((p.cached, true), p)
  unfolding basis
  basis_cached fetched now later p h = rw h refl

  basis_stale :
      (fetched : Option A) (now later : ℤ) (p : CostProvider A)
      → (p.valid && ltb_ℤ (now -ℤ p.fetched_at) cost_basis_ttl) ≡ false
      → basis empty now fetched later p ≡ refresh empty fetched later p
  unfolding basis
  basis_stale fetched now later p h = rw h refl

  basis-Backed :
      (fetched : Option A) (now later : ℤ) (p : CostProvider A) (cs : List (Call A))
      → Backed p cs
      → Backed (basis empty now fetched later p).1 (asked now fetched later ∷ cs)
  basis-Backed fetched now later p cs b =
      elim (Bool-cases (p.valid && ltb_ℤ (now -ℤ p.fetched_at) cost_basis_ttl)) [
        | inl h ↦
            subst (λ (r : (A × Bool) × CostProvider A). Backed r.1 (asked now fetched later ∷ cs))
              (sym (basis_cached fetched now later p h)) (λ v. inr (b v))
        | inr h ↦
            subst (λ (r : (A × Bool) × CostProvider A). Backed r.1 (asked now fetched later ∷ cs))
              (sym (basis_stale fetched now later p h)) (refresh-Backed fetched now later p cs)
      ]

  not_valid : {b : Bool} → b ≡ false → b ≡ true → ⊥
  not_valid h k = cc

  after_calls-Backed :
      (p : CostProvider A) (cs : List (Call A)) → p.valid ≡ false → Backed (after_calls p cs) cs
  unfolding after_calls step invalidate
  after_calls-Backed p [] n = λ v. not_valid n v
  after_calls-Backed p (asked now fetched later ∷ cs) n =
      basis-Backed fetched now later (after_calls p cs) cs (after_calls-Backed p cs n)
  after_calls-Backed p (discarded ∷ cs) n = λ v. not_valid refl v

  served :
      (now : ℤ) (fetched : Option A) (later : ℤ) (p : CostProvider A) (cs : List (Call A))
      → Backed p cs
      → (basis empty now fetched later p).0.1 ≡ true
      → (fetched ≡ some (basis empty now fetched later p).0.0)
        ⊎ (FetchedAt (basis empty now fetched later p).0.0 p.fetched_at cs
            × ((now -ℤ p.fetched_at) <ℤ cost_basis_ttl))
  unfolding basis refresh
  served now fetched later p cs b =
      elim (Bool-cases (p.valid && ltb_ℤ (now -ℤ p.fetched_at) cost_basis_ttl)) [
        | inl h ↦ rw h (λ v.
            inr
              (b (and_left _ _ h), ltb_ℤ→lt (now -ℤ p.fetched_at) cost_basis_ttl (and_right _ _ h)))
        | inr h ↦ rw h (λ v. inl (fetched_now fetched v))
      ]
    where
      and_left : (x y : Bool) → (x && y) ≡ true → x ≡ true
      and_left true y h = refl
      and_left false y h = h

      and_right : (x y : Bool) → (x && y) ≡ true → y ≡ true
      and_right true y h = h
      and_right false y h = ground arith

      fetched_now :
          (fetched : Option A)
          → (refresh empty fetched later p).0.1 ≡ true
          → fetched ≡ some (refresh empty fetched later p).0.0
      fetched_now none v = ground arith
      fetched_now (some x) v = refl

  -- After any calls on a provider that starts without a cached pricing, a pricing that `Basis`
  -- reports as known is the one that it has just fetched, or one that an earlier call fetched at
  -- the instant of `fetched_at`, less than the TTL before, with no `Invalidate` since.
  pub basis_lem :
      (start : CostProvider A) (cs : List (Call A)) (now : ℤ) (fetched : Option A) (later : ℤ)
      → start.valid ≡ false
      → (basis empty now fetched later (after_calls start cs)).0.1 ≡ true
      → (fetched ≡ some (basis empty now fetched later (after_calls start cs)).0.0)
        ⊎ (FetchedAt
              (basis empty now fetched later (after_calls start cs)).0.0
              (after_calls start cs).fetched_at
              cs
            × ((now -ℤ (after_calls start cs).fetched_at) <ℤ cost_basis_ttl))
  basis_lem start cs now fetched later n =
      served now fetched later (after_calls start cs) cs (after_calls-Backed start cs n)
