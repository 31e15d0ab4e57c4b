-- ===== src/Ledger/Allocation/Remaining.antt =====
-- The map `remaining` as a difference of two sums.
use lineleader.Base.{
  ℕ, ◌≡◌, Bool, true, false, List, [], ◌∷◌, ◌++◌, foldl, if◌then◌else◌, sum_of, sum_of-append, ◌∙◌,
  ap,
}
use lineleader.Base.Int.{ℤ, pos, ◌+ℤ◌, ◌-ℤ◌, int_laws}
use lineleader.Ledger.Types.{PointLot, PointDraw}
use lineleader.Ledger.Allocation.{same_key, Balances, add_points, take_points, remaining_of}
use lineleader.Ledger.Allocation.Draws.{drawn_from}

-- The points of all the lots with a key.
abbrev pub lotted_to : ℕ → ℤ → List PointLot → ℤ
lotted_to i y =
    sum_of (λ lot. if same_key lot.contract_id lot.use_year i y then lot.points else pos 0)

after_take :
    (b : Bool) (r p rest : ℤ)
    → (if b then r -ℤ p else r) -ℤ rest ≡ r -ℤ ((if b then p else pos 0) +ℤ rest)
after_take true r p rest = omega int_laws
after_take false r p rest = omega int_laws

after_add :
    (b : Bool) (r p rest : ℤ)
    → (if b then r +ℤ p else r) +ℤ rest ≡ r +ℤ ((if b then p else pos 0) +ℤ rest)
after_add true r p rest = omega int_laws
after_add false r p rest = omega int_laws

foldl-take_points :
    (i : ℕ) (y : ℤ) (draws : List PointDraw) (r : Balances)
    → foldl
        (λ r (draw : PointDraw). take_points draw.contract_id draw.use_year draw.points r)
        r
        draws
        i
        y
      ≡ r i y -ℤ drawn_from i y draws
foldl-take_points i y [] r = omega int_laws
foldl-take_points i y (d ∷ draws) r =
    foldl-take_points i y draws (take_points d.contract_id d.use_year d.points r)
    ∙ after_take (same_key d.contract_id d.use_year i y) (r i y) d.points (drawn_from i y draws)

foldl-add_points :
    (i : ℕ) (y : ℤ) (lots : List PointLot) (r : Balances)
    → foldl (λ r (lot : PointLot). add_points lot.contract_id lot.use_year lot.points r) r lots i y
      ≡ r i y +ℤ lotted_to i y lots
foldl-add_points i y [] r = omega int_laws
foldl-add_points i y (lot ∷ lots) r =
    foldl-add_points i y lots (add_points lot.contract_id lot.use_year lot.points r)
    ∙ after_add (same_key lot.contract_id lot.use_year i y) (r i y) lot.points (lotted_to i y lots)

-- What remains under a contract and use year is the sum of the points of its lots, less the sum of
-- the draws on it.
pub remaining_of_lem :
    (i : ℕ) (y : ℤ) (lots : List PointLot) (consumed : List PointDraw)
    → remaining_of lots consumed i y ≡ lotted_to i y lots -ℤ drawn_from i y consumed
unfolding remaining_of
remaining_of_lem i y lots consumed =
    foldl-take_points i y consumed _
    ∙ ap (λ z. z -ℤ drawn_from i y consumed) (foldl-add_points i y lots (λ i y. pos 0) ∙ zero_add _)
  where
    zero_add : (z : ℤ) → pos 0 +ℤ z ≡ z
    zero_add z = omega int_laws

-- Later draws come off what remained.
pub remaining_of-append :
    (i : ℕ) (y : ℤ) (lots : List PointLot) (consumed draws : List PointDraw)
    → remaining_of lots (consumed ++ draws) i y
      ≡ remaining_of lots consumed i y -ℤ drawn_from i y draws
remaining_of-append i y lots consumed draws =
    rw
      (
        remaining_of_lem i y lots (consumed ++ draws),
        remaining_of_lem i y lots consumed,
        sum_of-append _ consumed draws,
      )
      (omega int_laws)
