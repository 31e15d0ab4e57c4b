-- ===== src/Web/Trips/Forms.antt =====
-- internal/web/handlers.go: what the forms of the trip pages mean; and `ParseDate` of
-- internal/dvc/search.go.
use lineleader.Base.{Bool, true, false, not, Option, none, some, List, [], ◌∷◌, String, str_eq, ltb}
use lineleader.Base.Int.{ℤ, pos, ltb_ℤ}
use lineleader.Base.Text.{codes, parse_int, trim_space, trim_string}
use lineleader.Calendar.{Time}
use lineleader.Dvc.Search.{max_nights}
use lineleader.Ledger.Types.{Trip}
use lineleader.Web.LedgerForms.{Form}

-- The errors that a trip page is rendered with.
pub data TripError : Type 0 where
  unreadable_form name_required invalid_date dates_reversed invalid_min_nights : TripError
  min_nights_too_small min_nights_too_large invalid_budget negative_budget : TripError
  store_refused : TripError

pub data Read (A : Type 0) : Type 0 where
  valid : A → Read A
  invalid : TripError → Read A

infixl 5 ◌>>=◌
abbrev pub ◌>>=◌ : {A B : Type 0} → Read A → (A → Read B) → Read B
◌>>=◌ r f = elim r [ valid a ↦ f a | invalid e ↦ invalid e ]

abbrev pub or_error : {A : Type 0} → TripError → Option A → Read A
or_error e none = invalid e
or_error e (some a) = valid a

abbrev pub error_if : Bool → TripError → Read (Unit {0})
error_if true e = invalid e
error_if false e = valid tt

-- The layouts of `ParseDate`, in order.
abbrev pub date_layouts : List String
date_layouts = "2006-01-02" ∷ "1/2/2006" ∷ "01/02/2006" ∷ []

-- `parse_layout` is time.Parse.
module _ (parse_layout : String → String → Option Time) where
  -- The loop of `ParseDate`.
  unfoldable pub first_layout : String → List String → Option Time
  first_layout s [] = none
  first_layout s (layout ∷ layouts) =
      let rest = first_layout s layouts in
      elim (parse_layout layout s) [ none ↦ rest | some t ↦ some t ]

  -- `ParseDate`
  unfoldable pub parse_date : String → Option Time
  parse_date s = first_layout s date_layouts

  -- `parseTripForm`
  unfoldable pub parse_trip_form : Option Form → Read Trip
  parse_trip_form form = do
    f ← or_error unreadable_form form
    let name = trim_string (f "name")
    named ← error_if (str_eq name "") name_required
    from ← or_error invalid_date (parse_date (f "from"))
    to ← or_error invalid_date (parse_date (f "to"))
    ordered ← error_if (not (ltb from to)) dates_reversed
    nights ← or_error invalid_min_nights (parse_int (codes (f "min_nights")))
    some_nights ← error_if (ltb_ℤ nights (pos 1)) min_nights_too_small
    allowed ← error_if (ltb_ℤ (pos max_nights) nights) min_nights_too_large
    valid (record {
      id = 0;
      name = name;
      start_date = from;
      end_date = to;
      min_nights = nights;
      budget_override = none;
      filter_mode = "";
      exclude_resorts = [];
      exclude_room_types = [];
    })

-- `parseBudgetOverride`
unfoldable pub parse_budget_override : Option Form → Read ℤ
parse_budget_override form = do
  f ← or_error unreadable_form form
  v ← or_error invalid_budget (parse_int (trim_space (codes (f "budget"))))
  large_enough ← error_if (ltb_ℤ v (pos 0)) negative_budget
  valid v
