-- ===== src/Web/Pages.antt =====
-- internal/web/server.go: the pages of the planner and of the ledger over one store and one cached
-- pricing.
pub mod Sample
mod Tests
use lineleader.Base.{ℕ, Bool, List, [], ◌∷◌}
use lineleader.Base.Int.{ℤ}
use lineleader.Calendar.{Time, Calendar}
use lineleader.Web.LedgerForms.{Desk, LedgerRequest, ledger_serve}
use lineleader.Web.LedgerForms.Pricing.{IsPriced, ledger_serve-IsPriced}
use lineleader.Web.Trips.Handlers.{Process}
use lineleader.Web.Trips.Handlers.Pricing.{TripRequest, trip_serve, trip_serve-LeavesPriced}

-- A request, with what its handler meets.
pub data PageRequest : Type 0 where
  to_trips : Process → TripRequest → PageRequest
  to_ledger : Calendar → (ℤ → ℕ → Time) → ℤ → Bool → LedgerRequest → PageRequest

-- The store and the cached pricing after a request.
unfoldable pub page_step : PageRequest → Desk → Desk
page_step (to_trips s req) d = (trip_serve s req d).1
page_step (to_ledger cal first_of this_year readable req) d =
    (ledger_serve cal first_of this_year readable req d).1

unfoldable pub page_run : List PageRequest → Desk → Desk
page_run [] d = d
page_run (req ∷ reqs) d = page_run reqs (page_step req d)

page_step-IsPriced : (req : PageRequest) (d : Desk) → IsPriced d → IsPriced (page_step req d)
unfolding page_step
page_step-IsPriced (to_trips s req) d = trip_serve-LeavesPriced s req d
page_step-IsPriced (to_ledger cal first_of this_year readable req) d =
    ledger_serve-IsPriced cal first_of this_year readable req d

-- Whatever requests the trip pages and the ledger pages serve, in whatever order, a pricing that is
-- cached as valid stays the one computed from the contracts and the dues as they are then.
pub page_run-IsPriced :
    (reqs : List PageRequest) (d : Desk) → IsPriced d → IsPriced (page_run reqs d)
unfolding page_run
page_run-IsPriced [] d p = p
page_run-IsPriced (req ∷ reqs) d p =
    page_run-IsPriced reqs (page_step req d) (page_step-IsPriced req d p)
