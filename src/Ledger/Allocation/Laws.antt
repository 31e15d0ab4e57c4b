-- ===== src/Ledger/Allocation/Laws.antt =====
-- What `AllocateStayPoints` promises of its result, and when it refuses.
use lineleader.Base.{
  ◌∷◌, ℕ, ◌≡◌, sym, ap, ◌∙◌, Bool, true, false, Option, none, some, List, [], arith, if◌then◌else◌,
  sum_of, All, All-map,
}
use mathlib.Core.Path.{subst}
use lineleader.Base.Int.{
  ℤ, pos, ◌+ℤ◌, ◌-ℤ◌, ◌≤ℤ◌, ◌<ℤ◌, leb_ℤ, eqb_ℤ, int_laws, -ℤ_parts, eq_of_parts,
}
use lineleader.Base.Sort.{All-sort_slice}
use lineleader.Calendar.{Time, Calendar}
use lineleader.Ledger.Types.{Contract, PointLot, PointDraw}
use lineleader.Ledger.Allocation.{
  months_of, remaining_of, candidate_less, sorted_candidates, draw_down, allocate_stay_points,
}
use lineleader.Ledger.Allocation.Draws.{draw_points, drawn_from, draw_down-sum, draw_down_within}
use lineleader.Ledger.Allocation.Capacity.{
  capacity, capacity_nonneg, HasRoom, Distinct, missing, draw_down-missing, draw_down_pos,
  draw_down_from, sort_slice-Distinct,
}
use lineleader.Ledger.Allocation.Candidates.{
  Eligible, IsCandidate, candidates_of-IsCandidate, candidates_of-Distinct, candidates_of-use_year,
}

granted_inv :
    (b : Bool) (x draws : List PointDraw)
    → (if b then some x else none) ≡ some draws
    → (b ≡ true) × (x ≡ draws)
granted_inv b x draws e = ground arith

total_of : (total left need : ℤ) → total +ℤ left ≡ need → left ≡ pos 0 → total ≡ need
total_of total left need e z = rw (← e, z) (eq_of_parts _ _ (omega int_laws))

decided :
    (need have : ℤ) (free granted : Option (List PointDraw))
    → pos 0 <ℤ need
    → (if leb_ℤ need (pos 0)
        then free
        else if eqb_ℤ (missing need have) (pos 0)
        then granted
        else none)
      ≡ (if leb_ℤ need have then granted else none)
decided need have free granted h = ground (arith, -ℤ_parts need have)

module _ (cal : Calendar) (contracts : List Contract) (lots : List PointLot)
    (consumed : List PointDraw) (check_in : Time) where
  -- The points that the ledger has for a stay from `check_in`.
  abbrev pub fundable : ℤ
  fundable =
      capacity (remaining_of lots consumed) (sorted_candidates cal contracts lots consumed check_in)

  sorted-Distinct : Distinct (sorted_candidates cal contracts lots consumed check_in)
  unfolding sorted_candidates
  sorted-Distinct =
      sort_slice-Distinct candidate_less _
        (candidates_of-Distinct cal (months_of contracts) (remaining_of lots consumed) check_in lots
          (λ i y. false)).0

  sorted-IsCandidate :
      All
        (IsCandidate cal (months_of contracts) (remaining_of lots consumed) check_in)
        (sorted_candidates cal contracts lots consumed check_in)
  unfolding sorted_candidates
  sorted-IsCandidate = All-sort_slice candidate_less _ _ (
      candidates_of-IsCandidate cal (months_of contracts) (remaining_of lots consumed) check_in lots
        (λ i y. false))

  sorted-HasRoom :
      HasRoom (remaining_of lots consumed) (sorted_candidates cal contracts lots consumed check_in)
  sorted-HasRoom = All-map _ _ (λ c h. h.0) _ sorted-IsCandidate

  pub fundable_nonneg : pos 0 ≤ℤ fundable
  fundable_nonneg =
      capacity_nonneg (remaining_of lots consumed)
        (sorted_candidates cal contracts lots consumed check_in) sorted-HasRoom

  -- A request for a positive number of points gets the draws of the drawing loop if the balances
  -- of the candidates add up to that number at least, and is refused if they do not.
  pub allocate_stay_points_lem :
      (points : ℤ)
      → pos 0 <ℤ points
      → allocate_stay_points cal contracts lots consumed check_in points ≡ (
          if leb_ℤ points fundable
          then some
              (draw_down
                (sorted_candidates cal contracts lots consumed check_in)
                points
                (remaining_of lots consumed)).0
          else none)
  unfolding allocate_stay_points
  allocate_stay_points_lem points h =
      let left =
        draw_down-missing (sorted_candidates cal contracts lots consumed check_in) points
          (remaining_of lots consumed) sorted-Distinct sorted-HasRoom (omega arith) in
      rw left (decided points fundable (some []) _ h)

  -- What a granted request looks like.
  pub record IsFunding (points : ℤ) (draws : List PointDraw) : Type 0 where
    pub total : sum_of draw_points draws ≡ points
    pub positive : All (λ d. pos 0 <ℤ d.points) draws
    pub within :
        (i : ℕ) (y : ℤ)
        → pos 0 ≤ℤ remaining_of lots consumed i y
        → drawn_from i y draws ≤ℤ remaining_of lots consumed i y
    pub eligible :
        All
          (λ d.
            Eligible cal
              (months_of contracts)
              (remaining_of lots consumed)
              check_in
              d.contract_id
              d.use_year
              d.disposition)
          draws

  -- The draws of a granted request for a positive number of points add up to that number, are
  -- positive each, together take no more from a lot than a balance that is not negative, and each
  -- is on a known contract, from the use year that its disposition says: the stay's for the
  -- contract, the one before if banked, the one after if borrowed.
  pub allocate_stay_points-IsFunding :
      (points : ℤ) (draws : List PointDraw)
      → pos 0 <ℤ points
      → allocate_stay_points cal contracts lots consumed check_in points ≡ some draws
      → IsFunding points draws
  allocate_stay_points-IsFunding points draws h e =
      let (enough, same) = granted_inv _ _ draws (sym (allocate_stay_points_lem points h) ∙ e) in
      let cs = sorted_candidates cal contracts lots consumed check_in in
      let r = remaining_of lots consumed in
      let left =
        draw_down-missing cs points r sorted-Distinct sorted-HasRoom (omega arith)
        ∙ ap (λ b. if b then pos 0 else points -ℤ fundable) enough in
      subst (IsFunding points) same (record {
        total = total_of _ _ points (draw_down-sum cs points r) left;
        positive = draw_down_pos cs points r sorted-Distinct sorted-HasRoom (omega arith);
        within = λ i y k. draw_down_within cs points r i y (omega arith) k;
        eligible =
            draw_down_from (Eligible cal (months_of contracts) r check_in) cs points r
              (All-map _ _ (λ c m. m.1) cs sorted-IsCandidate);
      })

  -- A request for no points is granted with no draws.
  pub allocate_stay_points_free :
      (points : ℤ)
      → leb_ℤ points (pos 0) ≡ true
      → allocate_stay_points cal contracts lots consumed check_in points ≡ some []
  unfolding allocate_stay_points
  allocate_stay_points_free points h = rw h

  -- The use year of a draw is that of a lot.
  pub allocate_stay_points-use_year :
      (Q : ℤ → Type 0) (points : ℤ) (draws : List PointDraw)
      → pos 0 <ℤ points
      → allocate_stay_points cal contracts lots consumed check_in points ≡ some draws
      → All (λ lot. Q lot.use_year) lots
      → All (λ d. Q d.use_year) draws
  unfolding sorted_candidates
  allocate_stay_points-use_year Q points draws h e q =
      let (enough, same) = granted_inv _ _ draws (sym (allocate_stay_points_lem points h) ∙ e) in
      subst (All (λ d. Q d.use_year)) same (
        draw_down_from (λ i y d. Q y) (sorted_candidates cal contracts lots consumed check_in)
          points (remaining_of lots consumed)
          (All-sort_slice candidate_less _ _ (
            candidates_of-use_year cal (months_of contracts) (remaining_of lots consumed) check_in Q
              lots (λ i y. false) q)))

-- A draw of a list of positive draws is at most their sum.
pub draws_le_sum :
    (draws : List PointDraw)
    → All (λ d. pos 0 <ℤ d.points) draws
    → All (λ d. d.points ≤ℤ sum_of draw_points draws) draws
draws_le_sum [] p = tt
draws_le_sum (d ∷ draws) p = (
  omega (int_laws, sum_nonneg draws p.1),
  All-map _ _ (λ e h. omega (int_laws, h, p.0)) draws (draws_le_sum draws p.1),
)
  where
    sum_nonneg :
        (draws : List PointDraw)
        → All (λ d. pos 0 <ℤ d.points) draws
        → pos 0 ≤ℤ sum_of draw_points draws
    sum_nonneg [] p = omega arith
    sum_nonneg (d ∷ draws) p = omega (int_laws, p.0, sum_nonneg draws p.1)
