-- ===== src/Ledger/Allocation.antt =====
-- internal/ledger/allocation.go: `AllocateStayPoints`. A Go map from (contract id, use year) is a
-- function of the two with the value 0 where there is no key, as a read of a missing key gives.
-- `none` is `ErrInsufficientPoints`, and the empty list of draws is Go's nil.
pub mod Draws
pub mod Capacity
pub mod Candidates
pub mod Laws
pub mod Remaining
use lineleader.Base.{
  ℕ, Bool, true, false, ◌&&◌, Option, none, some, List, [], ◌∷◌, foldl, ltb, ◌==◌, if◌then◌else◌,
}
use lineleader.Base.Int.{ℤ, pos, ◌+ℤ◌, ◌-ℤ◌, leb_ℤ, eqb_ℤ, min_ℤ}
use lineleader.Base.Sort.{sort_slice}
use lineleader.Calendar.{Time, Calendar}
use lineleader.Ledger.Types.{
  Contract, Disposition, banked, current, borrowed, PointLot, PointDraw, use_year_for_date,
}

abbrev pub same_key : ℕ → ℤ → ℕ → ℤ → Bool
same_key i y j z = i == j && eqb_ℤ y z

abbrev pub Balances : Type 0
Balances = ℕ → ℤ → ℤ

-- `balances[key] += p`
abbrev pub add_points : ℕ → ℤ → ℤ → Balances → Balances
add_points i y p r j z = if same_key i y j z then r j z +ℤ p else r j z

-- `balances[key] -= p`
abbrev pub take_points : ℕ → ℤ → ℤ → Balances → Balances
take_points i y p r j z = if same_key i y j z then r j z -ℤ p else r j z

abbrev pub Months : Type 0
Months = ℕ → Option ℕ

-- `months[c.ID] = c.UseYearMonth`, over all contracts.
unfoldable pub months_of : List Contract → Months
months_of contracts =
    foldl (λ months (c : Contract) i. if c.id == i then some c.use_year_month else months i)
      (λ i. none) contracts

-- The map `remaining`, after both of the loops that fill it.
unfoldable pub remaining_of : List PointLot → List PointDraw → Balances
remaining_of lots consumed =
    foldl (λ r (draw : PointDraw). take_points draw.contract_id draw.use_year draw.points r)
      (foldl (λ r (lot : PointLot). add_points lot.contract_id lot.use_year lot.points r)
        (λ i y. pos 0) lots)
      consumed

pub record Candidate : Type 0 where
  pub contract_id : ℕ
  pub use_year : ℤ
  pub disposition : Disposition
  pub rank : ℕ

-- The `switch` on the lot's use year, where `uy` is the use year of the check-in.
unfoldable pub classify : ℤ → ℤ → Option (Disposition × ℕ)
classify lot_year uy =
    if eqb_ℤ lot_year (uy -ℤ pos 1)
    then some (banked, 0)
    else if eqb_ℤ lot_year uy
    then some (current, 1)
    else if eqb_ℤ lot_year (uy +ℤ pos 1)
    then some (borrowed, 2)
    else none

-- The keys of `seenKeys`.
abbrev pub Keys : Type 0
Keys = ℕ → ℤ → Bool

module _ (cal : Calendar) where
  -- One round of the loop that builds the candidates: `none` is a `continue`.
  unfoldable pub candidate_of : Months → Balances → Time → Keys → PointLot → Option Candidate
  candidate_of months remaining check_in seen lot =
      if leb_ℤ (remaining lot.contract_id lot.use_year) (pos 0)
      then none
      else if seen lot.contract_id lot.use_year
      then none
      else elim (months lot.contract_id) [
        | none ↦ none
        | some month ↦ elim (classify lot.use_year (use_year_for_date cal check_in month)) [
          | none ↦ none
          | some (d, rank) ↦ some (record {
            contract_id = lot.contract_id;
            use_year = lot.use_year;
            disposition = d;
            rank = rank;
          })
        ]
      ]

  unfoldable pub candidates_of : Months → Balances → Time → List PointLot → Keys → List Candidate
  candidates_of months remaining check_in [] seen = []
  candidates_of months remaining check_in (lot ∷ lots) seen =
      elim (candidate_of months remaining check_in seen lot) [
        | none ↦ candidates_of months remaining check_in lots seen
        | some c ↦
            c
            ∷ candidates_of months remaining check_in lots
                (λ i y. if same_key c.contract_id c.use_year i y then true else seen i y)
      ]

-- The order of `sort.Slice`.
unfoldable pub candidate_less : Candidate → Candidate → Bool
candidate_less a b = if a.rank == b.rank then ltb a.contract_id b.contract_id else ltb a.rank b.rank

-- The drawing loop: the draws, and what is still needed after it.
unfoldable pub draw_down : List Candidate → ℤ → Balances → List PointDraw × ℤ
draw_down [] need remaining = ([], need)
draw_down (c ∷ cs) need remaining =
    let draw = min_ℤ need (remaining c.contract_id c.use_year) in
    let rest = draw_down cs (need -ℤ draw) (take_points c.contract_id c.use_year draw remaining) in
    if eqb_ℤ need (pos 0) then ([], need) else (
      record {
        contract_id = c.contract_id;
        use_year = c.use_year;
        disposition = c.disposition;
        points = draw;
      }
          ∷ rest.0,
      rest.1,
    )

module _ (cal : Calendar) where
  -- The candidates in the order in which they are drawn from.
  unfoldable pub sorted_candidates :
      List Contract → List PointLot → List PointDraw → Time → List Candidate
  sorted_candidates contracts lots consumed check_in = sort_slice candidate_less (
      candidates_of cal (months_of contracts) (remaining_of lots consumed) check_in lots
        (λ i y. false))

  -- `AllocateStayPoints`
  unfoldable pub allocate_stay_points :
      List Contract → List PointLot → List PointDraw → Time → ℤ → Option (List PointDraw)
  allocate_stay_points contracts lots consumed check_in points =
      if leb_ℤ points (pos 0)
      then some []
      else (let (result, need) =
            draw_down (sorted_candidates contracts lots consumed check_in) points
              (remaining_of lots consumed) in
          if eqb_ℤ need (pos 0) then some result else none)
