-- ===== src/Ledger/Tests.antt =====
-- The theorems of the ledger at a small ledger: one contract with points of two use years, and a
-- trip of two stays.
use lineleader.Base.{
  ℕ, ◌+◌, ◌≡◌, ◌≤◌, ◌&&◌, refl, true, false, none, some, List, [], ◌∷◌, arith, if◌then◌else◌,
  sum_of, All,
}
use lineleader.Base.Int.{ℤ, pos, pos_part, ◌+ℤ◌, ◌-ℤ◌, ◌≤ℤ◌, ◌<ℤ◌, leb_ℤ}
use lineleader.Calendar.{Time}
use lineleader.Calendar.Gregorian.{gregorian, day_number}
use lineleader.Ledger.Types.{
  Entry, Contract, PointLot, PointDraw, Trip, TripStay, Disposition, banked, current, DuesRate,
  UseYearSummary, kind_allocation, kind_usage,
}
use lineleader.Ledger.Store.Rows.{Db, ok, InInt32, to_int32}
use lineleader.Ledger.Allocation.{
  allocate_stay_points, remaining_of, candidate_of, classify, candidate_less, draw_down,
  sorted_candidates, months_of, candidates_of,
}
use lineleader.Ledger.Allocation.Candidates.{
  has_candidate, has_lot, usable, has_candidate-candidates_of,
}
use lineleader.Ledger.Allocation.Laws.{
  fundable, IsFunding, allocate_stay_points_lem, allocate_stay_points-IsFunding,
}
use lineleader.Ledger.Accounting.{available_points, shortfall, preview_trip_funding}
use lineleader.Ledger.Accounting.Shortfall.{shortfall_lem}
use lineleader.Ledger.Store.Queries.{get_trip, list_contracts, list_entries, use_year_summaries}
use lineleader.Ledger.Store.Stays.{list_stays, with_links, entry_ids_of, entry_points_of}
use lineleader.Ledger.Store.Snapshots.{
  snapshot, snapshot_lots, snapshot_consumed, snapshot_contracts, group_points, add_counted,
  add_to_lot, unattributed_usage,
}
use lineleader.Ledger.Store.Balance.{balance_in, remaining_of-snapshot}
use lineleader.Ledger.Types.{booked, use_year_for_date}
use lineleader.Base.Sort.{sort_slice, insert_sorted}
use lineleader.Base.{ap, ◌∙◌}
use lineleader.Ledger.Booking.{book_trip_once}
use lineleader.Ledger.Booking.Decision.{
  fund_stay, fund_stays, posted, decision, is_ok, book_trip_once_lem,
  preview_trip_funding-book_trip_once,
}
use lineleader.Ledger.Booking.Posting.{Posting, with_postings}
use lineleader.Ledger.Booking.Effect.{IsStored, book_trip_once-balance}
use lineleader.Ledger.Budget.{trip_budget}
use lineleader.Ledger.Budget.Laws.{
  IsBudget, trip_budget-IsBudget, last_balance, list_entries-use_year_summaries,
}
use lineleader.Ledger.Distribute.{latest_allocation_year, latest_year_of, distribute_up_to}
use lineleader.Ledger.Distribute.Laws.{UpToDate, OneBehind, distribute_up_to_twice}
use lineleader.Ledger.Cost.Prices.{stored_rate}
use lineleader.Ledger.Import.{ImportedStay, import_booked_trip}
use lineleader.Ledger.Import.Checks.{IsPaid, import_booked_trip-IsPaid}
use lineleader.Ledger.Store.Stays.{unbook_trip}
use lineleader.Ledger.Store.Unbooking.{unbook_trip-list_stays}

abbrev home : Contract
home = record {
  id = 1;
  name = "Home";
  number = "1";
  home_resort = "Home";
  annual_points = pos 160;
  use_year_month = 6;
  term_years = pos 40;
  purchase_price = pos 2000000;
  closing_costs = pos 50000;
}

abbrev allotment : ℕ → ℤ → ℤ → Entry
allotment id y p = record {
  id = id;
  use_year = y;
  date = day_number 2025 6 1;
  desc = "Home";
  kind = kind_allocation;
  allotted = p;
  used = pos 0;
  tag = "";
  contract_id = some 1;
  running_balance = pos 0;
  cost = pos 0;
  cost_known = false;
  cost_projected = false;
}

abbrev arrival : Time
arrival = day_number 2026 8 10

abbrev stay_at : ℕ → ℤ → TripStay
stay_at id p = record {
  id = id;
  trip_id = 1;
  resort = "Home";
  room_type = "STUDIO";
  view = "R";
  check_in = arrival;
  check_out = arrival + 3;
  nights = pos 3;
  points = p;
  quote_hash = "";
  entry_ids = [];
  entry_points = pos 0;
}

abbrev summer : Trip
summer = record {
  id = 1;
  name = "Summer";
  start_date = arrival;
  end_date = arrival + 7;
  min_nights = pos 2;
  budget_override = none;
  filter_mode = "";
  exclude_resorts = [];
  exclude_room_types = [];
}

abbrev ledger : Db
ledger = record {
  contracts = home ∷ [];
  entries = allotment 1 (pos 2025) (pos 100) ∷ allotment 2 (pos 2026) (pos 160) ∷ [];
  dues = [];
  trips = summer ∷ [];
  stays = stay_at 1 (pos 150) ∷ stay_at 2 (pos 90) ∷ [];
  links = [];
  next_contract = 2;
  next_entry = 3;
  next_trip = 2;
  next_stay = 3;
}

abbrev lots : List PointLot
lots =
    record { contract_id = 1; use_year = pos 2025; points = pos 100 }
    ∷ record { contract_id = 1; use_year = pos 2026; points = pos 160 }
    ∷ []

abbrev draw_of : ℤ → Disposition → ℤ → PointDraw
draw_of y d p = record { contract_id = 1; use_year = y; disposition = d; points = p }

abbrev draws : List PointDraw
draws = draw_of (pos 2025) banked (pos 100) ∷ draw_of (pos 2026) current (pos 50) ∷ []

allocated : allocate_stay_points gregorian (home ∷ []) lots [] arrival (pos 150) ≡ some draws
unfolding allocate_stay_points draw_down sorted_candidates sort_slice candidates_of candidate_of
    remaining_of ◌+ℤ◌ months_of classify ◌-ℤ◌ use_year_for_date candidate_less
allocated = refl

allocate_stay_points-IsFunding_example :
    IsFunding gregorian (home ∷ []) lots [] arrival (pos 150) draws
allocate_stay_points-IsFunding_example =
    allocate_stay_points-IsFunding gregorian (home ∷ []) lots [] arrival (pos 150) draws
      (omega arith) allocated

allocate_stay_points_lem_example :
    allocate_stay_points gregorian (home ∷ []) lots [] arrival (pos 300) ≡ (
      if leb_ℤ (pos 300) (fundable gregorian (home ∷ []) lots [] arrival)
      then some
          (draw_down
            (sorted_candidates gregorian (home ∷ []) lots [] arrival)
            (pos 300)
            (remaining_of lots [])).0
      else none)
allocate_stay_points_lem_example =
    allocate_stay_points_lem gregorian (home ∷ []) lots [] arrival (pos 300) (omega arith)

has_candidate-candidates_of_example :
    has_candidate gregorian (months_of (home ∷ [])) (remaining_of lots []) arrival 1 (pos 2026) (
      candidates_of gregorian
        (months_of (home ∷ []))
        (remaining_of lots [])
        arrival
        lots
        (λ i y. false))
    ≡ (has_lot gregorian (months_of (home ∷ [])) (remaining_of lots []) arrival 1 (pos 2026) lots
        && (usable gregorian (months_of (home ∷ [])) (remaining_of lots []) arrival 1 (pos 2026)
            && true))
has_candidate-candidates_of_example =
    has_candidate-candidates_of gregorian (months_of (home ∷ [])) (remaining_of lots []) arrival 1
      (pos 2026) lots (λ i y. false)

uncovered : fundable gregorian (home ∷ []) lots [] arrival <ℤ pos 300
unfolding sorted_candidates sort_slice insert_sorted candidates_of candidate_of remaining_of ◌+ℤ◌
    months_of classify ◌-ℤ◌ use_year_for_date candidate_less
uncovered = omega arith

shortfall_lem_example :
    shortfall gregorian (home ∷ []) lots [] arrival (pos 300)
    ≡ pos 300 -ℤ fundable gregorian (home ∷ []) lots [] arrival
shortfall_lem_example = shortfall_lem gregorian (home ∷ []) lots [] arrival (pos 300) uncovered

remaining_of-snapshot_example :
    remaining_of (snapshot_lots ledger) (snapshot_consumed ledger) 1 (pos 2026)
    ≡ balance_in 1 (pos 2026) ledger
remaining_of-snapshot_example = remaining_of-snapshot 1 (pos 2026) ledger

found : get_trip 1 ledger ≡ ok (summer, ledger)
unfolding get_trip
found = refl

book_trip_once_lem_example :
    book_trip_once gregorian 1 ledger ≡ posted summer (decision gregorian 1 ledger) ledger
book_trip_once_lem_example = book_trip_once_lem gregorian 1 summer ledger found

preview_trip_funding-book_trip_once_example :
    (preview_trip_funding gregorian (snapshot ledger) (list_stays 1 ledger)).fundable
    ≡ is_ok (book_trip_once gregorian 1 ledger)
preview_trip_funding-book_trip_once_example =
    preview_trip_funding-book_trip_once gregorian 1 summer ledger found

-- What the booking posts: the first stay takes the banked points, the second current ones.
abbrev posts : List Posting
posts =
    (stay_at 1 (pos 150), draw_of (pos 2025) banked (pos 100))
    ∷ (stay_at 1 (pos 150), draw_of (pos 2026) current (pos 50))
    ∷ (stay_at 2 (pos 90), draw_of (pos 2026) current (pos 90))
    ∷ []

decides : decision gregorian 1 ledger ≡ some posts
unfolding fund_stays fund_stay list_stays sort_slice insert_sorted booked with_links entry_ids_of
    entry_points_of available_points snapshot snapshot_consumed group_points add_counted
    snapshot_lots snapshot_contracts add_to_lot unattributed_usage ◌+ℤ◌ ◌-ℤ◌ allocate_stay_points
    draw_down sorted_candidates candidates_of candidate_of remaining_of months_of classify
    use_year_for_date candidate_less
decides = refl

books : book_trip_once gregorian 1 ledger ≡ ok (tt, with_postings summer posts ledger)
books =
    book_trip_once_lem gregorian 1 summer ledger found ∙ ap (λ o. posted summer o ledger) decides

stored : IsStored 1 ledger
unfolding to_int32 list_stays with_links entry_ids_of entry_points_of sort_slice insert_sorted
stored = record { years = (refl, (refl, tt)); points = (refl, (refl, tt)) }

in_balance : pos 0 ≤ℤ balance_in 1 (pos 2026) ledger
unfolding ◌+ℤ◌ ◌-ℤ◌
in_balance = omega arith

book_trip_once-balance_example :
    pos 0 ≤ℤ balance_in 1 (pos 2026) (with_postings summer posts ledger)
book_trip_once-balance_example =
    book_trip_once-balance gregorian 1 summer ledger (with_postings summer posts ledger) found books
      1 (pos 2026) stored in_balance

trip_budget-IsBudget_example :
    IsBudget gregorian arrival
      (list_contracts ledger)
      (sum_of (λ (c : Contract). c.annual_points) (list_contracts ledger))
      ledger.entries
      (trip_budget gregorian arrival ledger)
trip_budget-IsBudget_example = trip_budget-IsBudget gregorian arrival ledger

list_entries-use_year_summaries_example :
    last_balance (pos 0) (list_entries ledger)
    ≡ sum_of (λ (s : UseYearSummary). s.net) (use_year_summaries ledger)
list_entries-use_year_summaries_example = list_entries-use_year_summaries ledger

abbrev first_of : ℤ → ℕ → Time
first_of y m = day_number (pos_part y) m 1

year_fits : InInt32 (pos 2027)
unfolding to_int32
year_fits = refl

one_behind : All (OneBehind first_of (pos 2027) ledger) (list_contracts ledger)
unfolding list_contracts sort_slice insert_sorted latest_allocation_year latest_year_of ◌-ℤ◌
one_behind = (omega arith, tt)

distribute_up_to_twice_example :
    (created : List Entry) × (after : Db) × (distribute_up_to first_of (pos 2027) ledger
      ≡ (ok created, after))
    × All (UpToDate first_of (pos 2027) after) (list_contracts after)
    × (distribute_up_to first_of (pos 2027) after ≡ (ok [], after))
distribute_up_to_twice_example =
    distribute_up_to_twice first_of (pos 2027) ledger year_fits one_behind

abbrev rates : List DuesRate
rates =
    record { use_year = pos 2025; rate = pos 8000000 }
    ∷ record { use_year = pos 2026; rate = pos 8223500 }
    ∷ []

stored_2026 : stored_rate rates (pos 2026) ≡ some (pos 8223500)
unfolding stored_rate
stored_2026 = refl

none_2028 : stored_rate rates (pos 2028) ≡ none
unfolding stored_rate
none_2028 = refl

-- Thirty points that were used by hand, and the stay that they paid for.
abbrev spent : Entry
spent = record (allotment 3 (pos 2026) (pos 0)) { kind = kind_usage; used = pos 30 }

abbrev spent_ledger : Db
spent_ledger = record ledger { entries = spent ∷ [] }

abbrev paid_stay : ImportedStay
paid_stay = record { stay = stay_at 0 (pos 30); entry_ids = 3 ∷ [] }

abbrev imported_ledger : Db
imported_ledger = record spent_ledger {
  trips = summer ∷ record summer { id = 2 } ∷ [];
  stays =
      stay_at 1 (pos 150) ∷ stay_at 2 (pos 90) ∷ record (stay_at 3 (pos 30)) { trip_id = 2 } ∷ [];
  links = record { trip_stay_id = 3; entry_id = 3 } ∷ [];
  next_trip = 3;
  next_stay = 4;
}

imports : import_booked_trip summer (paid_stay ∷ []) spent_ledger ≡ ok (2, imported_ledger)
unfolding import_booked_trip lineleader.Ledger.Import.stay_is_invalid ◌-ℤ◌
    lineleader.Ledger.Import.check_stays lineleader.Ledger.Import.check_entries
    lineleader.Ledger.Import.check_entry lineleader.Ledger.Import.check_found
    lineleader.Ledger.Import.find_entry ◌+ℤ◌ lineleader.Ledger.Store.Queries.add_trip to_int32
    lineleader.Ledger.Import.import_stays lineleader.Ledger.Store.Stays.add_stay
    lineleader.Ledger.Import.link_entries lineleader.Ledger.Store.Stays.insert_trip_stay_entry
imports = refl

import_booked_trip-IsPaid_example : (1 ≤ 1) × All (IsPaid spent_ledger) (paid_stay ∷ [])
import_booked_trip-IsPaid_example =
    import_booked_trip-IsPaid summer (paid_stay ∷ []) spent_ledger imported_ledger 2 imports

unbook_trip-list_stays_example :
    All
      (λ (st : TripStay). booked st ≡ false)
      (list_stays 1 (unbook_trip 1 (with_postings summer posts ledger)))
unbook_trip-list_stays_example = unbook_trip-list_stays 1 (with_postings summer posts ledger)
