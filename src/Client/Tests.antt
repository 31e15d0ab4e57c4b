-- ===== src/Client/Tests.antt =====
-- The commands at a small ledger.
use lineleader.Base.{ℕ, zero, suc, ◌≡◌, refl, false, none, some, String, [], ◌∷◌}
use lineleader.Base.Int.{ℤ, pos, negsuc}
use lineleader.Calendar.{Time, Calendar}
use lineleader.Calendar.Gregorian.{gregorian}
use lineleader.Ledger.Store.Rows.{Db}
use lineleader.Ledger.Types.{Entry, kind_usage}
use lineleader.Client.{ClientConfig, first_non_empty, resolve_config}
use lineleader.Client.Commands.{EntryFlags}

-- A calendar that writes a day as that many marks.
abbrev marks : Time → String
marks zero = String.[]
marks (suc n) = String.◌∷◌ "x" (marks n)

abbrev count_marks : String → ℕ
count_marks String.[] = 0
count_marks (String.◌∷◌ c s) = suc (count_marks s)

abbrev tally_calendar : Calendar
tally_calendar = record gregorian { parse_day = λ s. some (count_marks s) }

abbrev month_text : ℕ → String
month_text m = "Apr"

abbrev first_of : ℤ → ℕ → Time
first_of year month = 0

abbrev three : ℕ → String
three id = "3"

abbrev usage : Entry
usage = record {
  id = 3;
  use_year = pos 2026;
  date = 5;
  desc = "Points";
  kind = kind_usage;
  allotted = pos 0;
  used = pos 12;
  tag = "";
  contract_id = some 1;
  running_balance = pos 0;
  cost = pos 0;
  cost_known = false;
  cost_projected = false;
}

abbrev ledger : Db
ledger = record {
  contracts =
      record {
        id = 1;
        name = "Home";
        number = "";
        home_resort = "HM";
        annual_points = pos 100;
        use_year_month = 4;
        term_years = pos 0;
        purchase_price = pos 0;
        closing_costs = pos 0;
      }
      ∷ [];
  entries = usage ∷ [];
  dues = [];
  trips = [];
  stays = [];
  links = [];
  next_contract = 1;
  next_entry = 4;
  next_trip = 1;
  next_stay = 1;
}

-- `dvc ledger edit --id 3 --tag Bank`
abbrev bank : EntryFlags
bank = record {
  year = none;
  date = none;
  desc = none;
  kind = none;
  allotted = none;
  used = none;
  tag = some "Bank";
  contract = none;
}

abbrev listed_usage : Entry
listed_usage = record usage { running_balance = negsuc 11 }

-- A flag goes before the environment, and that before the file.
abbrev empty_config : ClientConfig
empty_config = record { server_url = ""; token = "" }

environment_used :
    resolve_config
      (λ s. s)
      (record empty_config { token = "a" })
      (record { server_url = "http://e"; token = "b" })
      none
    ≡ some (record { server_url = "http://e"; token = "a" })
unfolding resolve_config first_non_empty
environment_used = refl

nothing_resolved : resolve_config (λ s. s) empty_config empty_config none ≡ none
unfolding resolve_config first_non_empty
nothing_resolved = refl
