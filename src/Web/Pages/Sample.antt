-- ===== src/Web/Pages/Sample.antt =====
-- The trip pages over a chart of one column, and a store of one trip.
use lineleader.Base.{◌+◌, false, none, some, Option, [], ◌∷◌, String, str_eq, if◌then◌else◌}
use lineleader.Base.Int.{pos}
use lineleader.Calendar.{Time}
use lineleader.Calendar.Gregorian.{gregorian, day_number}
use lineleader.Dvc.Types.{ResortChart}
use lineleader.Ledger.Cost.{cost_basis}
use lineleader.Ledger.Store.Rows.{Db}
use lineleader.Ledger.Types.{Trip, TripStay}
use lineleader.Web.LedgerForms.{Desk, Form}
use lineleader.Web.Trips.Handlers.{Process}

abbrev pub tables : Db
tables = record {
  contracts = [];
  entries = [];
  dues = [];
  trips = [];
  stays = [];
  links = [];
  next_contract = 1;
  next_entry = 1;
  next_trip = 1;
  next_stay = 1;
}

abbrev pub chart : ResortChart
chart = record {
  resort_name = "Home";
  resort_code = "HM";
  year = pos 2026;
  columns = record { room_type = "STUDIO"; view = "R"; sleeps = pos 4 } ∷ [];
  seasons =
      record {
        periods = record { start = "2026-01-01"; end = "2026-12-31" } ∷ [];
        sun_thu = pos 10 ∷ [];
        fri_sat = pos 14 ∷ [];
      }
      ∷ [];
}

abbrev pub friday : Time
friday = day_number 2026 8 14

abbrev pub slashed : String → String → Option Time
slashed layout s =
    if str_eq layout "1/2/2006"
    then (if str_eq s "8/14/2026" then some friday else some (friday + 2))
    else none

abbrev pub process : Process
process = record {
  cal = gregorian;
  parse_layout = slashed;
  charts = chart ∷ [];
  global = record { exclude_resorts = []; exclude_room_types = [] };
  empty = cost_basis tables;
  now = pos 1;
  later = pos 2;
  conflict = λ n. false;
  attempts = 3;
}

abbrev pub trip_form : Form
trip_form field =
    if str_eq field "name"
    then " Summer "
    else if str_eq field "from"
    then "8/14/2026"
    else if str_eq field "to"
    then "8/16/2026"
    else "1"

abbrev pub summer : Trip
summer = record {
  id = 0;
  name = "Summer";
  start_date = friday;
  end_date = friday + 2;
  min_nights = pos 1;
  budget_override = none;
  filter_mode = "";
  exclude_resorts = [];
  exclude_room_types = [];
}

abbrev pub stored_trip : Trip
stored_trip = record summer { id = 1; budget_override = some (pos 30) }

abbrev pub desk : Desk
desk = record {
  tables = record tables { trips = stored_trip ∷ []; next_trip = 2 };
  costs = record { cached = cost_basis tables; valid = false; fetched_at = pos 0 };
}

abbrev pub kept_stay : TripStay
kept_stay = record {
  id = 5;
  trip_id = 1;
  resort = "Home";
  room_type = "STUDIO";
  view = "R";
  check_in = friday;
  check_out = friday + 1;
  nights = pos 1;
  points = pos 14;
  quote_hash = "";
  entry_ids = [];
  entry_points = pos 0;
}

abbrev pub full_desk : Desk
full_desk = record desk { tables = record desk.tables { stays = kept_stay ∷ [] } }
