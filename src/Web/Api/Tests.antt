-- ===== src/Web/Api/Tests.antt =====
-- The JSON surface at small tables.
use lineleader.Base.{ℕ, ◌≡◌, refl, none, some, String, [], ◌∷◌, List, arith}
use lineleader.Base.Int.{ℤ, pos}
use lineleader.Calendar.{Time, Calendar}
use lineleader.Calendar.Gregorian.{gregorian}
use lineleader.Ledger.Store.Rows.{Db}
use lineleader.Ledger.Types.{Trip}
use lineleader.Web.Api.{EntryRequestDto, accepted, to_entry, answered, api_add_entry}
use lineleader.Web.Api.Import.{
  ImportStayRequestDto, ImportTripRequestDto, imported_stay, read_import, read_stays, date_or,
}
use lineleader.Web.Api.Dates.{Dated, Within, read_import-Within}
use lineleader.Ledger.Import.{ImportedStay}
use lineleader.Web.Api.Routes.{api_serve, post_entry}

abbrev tables : Db
tables = record {
  contracts = [];
  entries = [];
  dues = [];
  trips = [];
  stays = [];
  links = [];
  next_contract = 1;
  next_entry = 1;
  next_trip = 1;
  next_stay = 1;
}

-- Every day is printed and read as the day 5.
abbrev one_day : Calendar
one_day = record gregorian { parse_day = λ s. some 5 }

abbrev blank_kind : EntryRequestDto
blank_kind = record {
  use_year = pos 2026;
  date = "2026-01-02";
  desc = "";
  kind = "";
  allotted = pos 0;
  used = pos 12;
  tag = "";
  contract_id = none;
}

abbrev first_of : ℤ → ℕ → Time
first_of year month = 0

abbrev printed : Time → String
printed t = "day"

abbrev name_of : ℕ → String
name_of m = "Apr"

refused_status :
    (api_serve one_day printed name_of first_of
      (pos 2026)
      (post_entry (some blank_kind))
      tables).0.status
    ≡ 400
unfolding api_serve api_add_entry answered to_entry
refused_status = refl

abbrev stay_on : String → ImportStayRequestDto
stay_on day = record {
  resort = "Home";
  room_type = "Studio";
  view = "";
  check_in = day;
  check_out = day;
  points = pos 10;
  entry_ids = 1 ∷ [];
}

abbrev import_dto : ImportTripRequestDto
import_dto = record {
  name = "Trip";
  start_date = "";
  end_date = "";
  min_nights = pos 0;
  stays = stay_on "a" ∷ stay_on "b" ∷ [];
}

abbrev read_trip : Trip
read_trip = record {
  id = 0;
  name = "Trip";
  start_date = 5;
  end_date = 5;
  min_nights = pos 1;
  budget_override = none;
  filter_mode = "";
  exclude_resorts = [];
  exclude_room_types = [];
}

abbrev read_stays_of : List ImportedStay
read_stays_of =
    imported_stay one_day (stay_on "a") 5 5 ∷ imported_stay one_day (stay_on "b") 5 5 ∷ []

read_example : read_import one_day import_dto ≡ accepted (read_trip, read_stays_of)
unfolding read_import read_stays date_or
read_example = refl

dated : Dated read_stays_of
unfolding imported_stay
dated = omega arith

read_import-Within_example : Within 5 5 read_stays_of
read_import-Within_example =
    read_import-Within one_day import_dto read_trip read_stays_of refl refl read_example dated
