-- ===== src/Web/Planner/Laws.antt =====
-- internal/web/render.go: the status and the budget of a trip against its stays.
use lineleader.Base.{
  ◌≡◌, refl, ap, inl, inr, Bool, true, false, not, ◌||◌, String, List, [], ◌∷◌, any, foldl,
  Bool-cases, if◌then◌else◌, sum_of,
}
use mathlib.Core.Path.{ap₂}
use lineleader.Base.Int.{ℤ, pos, ◌-ℤ◌, int_laws}
use lineleader.Ledger.Types.{Trip, TripStay, booked}
use lineleader.Ledger.Budget.{TripBudget}
use lineleader.Web.Planner.{
  stay_booking_status, derive_trip_status, trip_status, effective_budget, search_budget_for,
}

-- The points of the stays that are not booked.
abbrev pub unbooked_points : List TripStay → ℤ
unbooked_points = sum_of (λ (st : TripStay). if booked st then pos 0 else st.points)

subtracts :
    (budget : ℤ) (stays : List TripStay)
    → foldl (λ b (st : TripStay). if not (booked st) then b -ℤ st.points else b) budget stays
      ≡ budget -ℤ unbooked_points stays
subtracts budget [] = omega int_laws
subtracts budget (st ∷ stays) = elim (Bool-cases (booked st)) [
  | inl h ↦ rw (h, subtracts budget stays) (omega int_laws)
  | inr h ↦ rw (h, subtracts (budget -ℤ st.points) stays) (omega int_laws)
]

-- A search has the effective budget less the points of the stays that are not booked.
pub search_budget_for_lem :
    (t : Trip) (b : TripBudget) (stays : List TripStay)
    → search_budget_for t b stays ≡ effective_budget t b -ℤ unbooked_points stays
unfolding search_budget_for
search_budget_for_lem t b stays = subtracts (effective_budget t b) stays

or_false : (b : Bool) → b ≡ (b || false)
or_false true = refl
or_false false = refl

or_true : (b : Bool) → true ≡ (b || true)
or_true true = refl
or_true false = refl

statuses :
    (r : Bool × Bool) (stays : List TripStay)
    → foldl
        (λ (r : Bool × Bool) (st : TripStay). if booked st then (true, r.1) else (r.0, true))
        r
        stays
      ≡ (r.0 || any booked stays, r.1 || any (λ st. not (booked st)) stays)
statuses r [] = ap₂ (λ x y. (x, y)) (or_false r.0) (or_false r.1)
statuses r (st ∷ stays) = elim (Bool-cases (booked st)) [
  | inl h ↦
      rw (h, statuses (true, r.1) stays)
        (ap (λ x. (x, r.1 || any (λ st. not (booked st)) stays)) (or_true r.0))
  | inr h ↦
      rw (h, statuses (r.0, true) stays) (ap (λ x. (r.0 || any booked stays, x)) (or_true r.1))
]

abbrev trip_status_of : Bool → Bool → String
trip_status_of a b =
    let status = derive_trip_status a b in
    if status.0 then "booked" else (if status.1 then "partly booked" else "planning")

named :
    (a b : Bool)
    → trip_status_of a b ≡ (if a then (if b then "partly booked" else "booked") else "planning")
unfolding derive_trip_status
named true true = refl
named true false = refl
named false b = refl

-- A trip is "booked" if it has a booked stay and no other, "partly booked" if it has a booked stay
-- and one that is not, and "planning" if it has no booked stay.
pub trip_status_lem :
    (stays : List TripStay)
    → trip_status stays ≡ (
        if any booked stays
        then (if any (λ st. not (booked st)) stays then "partly booked" else "booked")
        else "planning")
unfolding trip_status stay_booking_status
trip_status_lem stays =
    rw (statuses (false, false) stays)
      (named (any booked stays) (any (λ st. not (booked st)) stays))
