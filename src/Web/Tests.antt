-- ===== src/Web/Tests.antt =====
-- The theorems of the web layer at small data.
use lineleader.Base.{ℕ, ◌≡◌, ◌⊎◌, refl, true, false, none, some, List, [], ◌∷◌}
use lineleader.Base.Int.{pos, ◌-ℤ◌, ◌<ℤ◌}
use lineleader.Ledger.Types.{Trip, TripStay}
use lineleader.Ledger.Budget.{TripBudget}
use lineleader.Web.Costs.{cost_basis_ttl, CostProvider, basis, refresh}
use lineleader.Web.Costs.Freshness.{Call, asked, after_calls, step, FetchedAt, basis_lem}
use lineleader.Dvc.Types.{Config, as_filter_set}
use lineleader.Ledger.Types.{current}
use lineleader.Ledger.Store.Rows.{Db, ok}
use lineleader.Ledger.Accounting.{TripFundingPreview}
use lineleader.Web.TripFilters.{set_trip_filter_mode}

abbrev provider : CostProvider ℕ
provider = record { cached = 0; valid = false; fetched_at = pos 0 }

-- A call that fetches 7 until the instant 100.
abbrev calls : List (Call ℕ)
calls = asked (pos 90) (some 7) (pos 100) ∷ []

served_from_cache : (basis 0 (pos 500) none (pos 600) (after_calls 0 provider calls)).0.1 ≡ true
unfolding basis after_calls step ◌-ℤ◌ refresh
served_from_cache = refl

basis_lem_example :
    (none ≡ some (basis 0 (pos 500) none (pos 600) (after_calls 0 provider calls)).0.0)
    ⊎ (FetchedAt 0
          (basis 0 (pos 500) none (pos 600) (after_calls 0 provider calls)).0.0
          (after_calls 0 provider calls).fetched_at
          calls
        × ((pos 500 -ℤ (after_calls 0 provider calls).fetched_at) <ℤ cost_basis_ttl))
basis_lem_example = basis_lem 0 provider calls (pos 500) none (pos 600) refl served_from_cache

abbrev weekend : Trip
weekend = record {
  id = 1;
  name = "Weekend";
  start_date = 100;
  end_date = 103;
  min_nights = pos 1;
  budget_override = some (pos 80);
  filter_mode = "";
  exclude_resorts = [];
  exclude_room_types = [];
}

abbrev night_of : ℕ → List ℕ → TripStay
night_of id ids = record {
  id = id;
  trip_id = 1;
  resort = "Home";
  room_type = "STUDIO";
  view = "R";
  check_in = 100;
  check_out = 101;
  nights = pos 1;
  points = pos 30;
  quote_hash = "";
  entry_ids = ids;
  entry_points = pos 0;
}

abbrev stays : List TripStay
stays = night_of 1 (9 ∷ []) ∷ night_of 2 [] ∷ []

abbrev computed_budget : TripBudget
computed_budget = record {
  use_year = pos 2026;
  current = pos 100;
  banked = pos 0;
  borrowable = pos 100;
  total = pos 200;
}

abbrev tables : Db
tables = record {
  contracts = [];
  entries = [];
  dues = [];
  trips = weekend ∷ [];
  stays = [];
  links = [];
  next_contract = 1;
  next_entry = 1;
  next_trip = 2;
  next_stay = 1;
}

abbrev global : Config
global = record { exclude_resorts = "BLT" ∷ []; exclude_room_types = "STUDIO" ∷ [] }

abbrev own_filters : Trip
own_filters = record weekend {
  filter_mode = "override";
  exclude_resorts = "BLT" ∷ [];
  exclude_room_types = "STUDIO" ∷ [];
}

sets_mode :
    set_trip_filter_mode global 1 "override" tables
    ≡ ok (own_filters, record tables { trips = own_filters ∷ [] })
unfolding set_trip_filter_mode lineleader.Ledger.Store.Queries.get_trip
    lineleader.Ledger.Store.Queries.update_trip lineleader.Web.TripFilters.overriding
    lineleader.Ledger.Store.Rows.to_int32 as_filter_set
sets_mode = refl

abbrev preview : TripFundingPreview
preview = record {
  stays =
      record {
        stay_id = 2;
        fundable = true;
        draws =
            record { contract_id = 1; use_year = pos 2026; disposition = current; points = pos 30 }
            ∷ [];
        short_by = pos 0;
      }
      ∷ [];
  fundable = true;
}
