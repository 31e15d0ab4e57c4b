-- ===== src/Dvc/Tests.antt =====
-- The theorems of the search at one chart with one season and one column.
use lineleader.Base.{ℕ, ◌+◌, ◌≡◌, refl, zero, suc, some, List, [], ◌∷◌, All, arith}
use lineleader.Base.Int.{ℤ, pos, ◌+ℤ◌}
use lineleader.Base.Sort.{sort_slice, insert_sorted}
use lineleader.Calendar.{Time}
use lineleader.Calendar.Gregorian.{gregorian, day_number}
use lineleader.Dvc.Types.{ResortChart, SearchParams, StayResult, contains}
use lineleader.Dvc.Search.{
  Query, cost, in_periods, in_seasons, rate_at, is_weekend, points_for_night, extend_stay,
  check_ins, search_columns, search_charts, stay_before, search,
}
use lineleader.Dvc.Search.Nights.{Affordable, Reports, check_ins_complete}
use lineleader.Dvc.Search.Rounds.{extend_stay-rounds}
use lineleader.Dvc.Search.Laws.{Ascends, FromCharts, search_sound}

abbrev chart : ResortChart
chart = record {
  resort_name = "Home";
  resort_code = "HM";
  year = pos 2026;
  columns = record { room_type = "STUDIO"; view = "R"; sleeps = pos 4 } ∷ [];
  seasons =
      record {
        periods = record { start = "2026-01-01"; end = "2026-12-31" } ∷ [];
        sun_thu = pos 10 ∷ [];
        fri_sat = pos 14 ∷ [];
      }
      ∷ [];
}

-- A Friday.
abbrev friday : Time
friday = day_number 2026 8 14

abbrev params : SearchParams
params = record {
  window_start = friday;
  window_end = friday + 2;
  budget = pos 30;
  min_nights = pos 1;
  exclude_resorts = "OT" ∷ [];
  exclude_room_types = [];
}

abbrev stay_result : Time → ℕ → ℤ → StayResult
stay_result d n p = record {
  resort = "Home";
  room_type = "STUDIO";
  view = "R";
  check_in = d;
  check_out = d + n;
  nights = n;
  points = p;
}

abbrev results : List StayResult
results =
    stay_result friday 1 (pos 14)
    ∷ stay_result (friday + 1) 1 (pos 14)
    ∷ stay_result friday 2 (pos 28)
    ∷ []

finds : search gregorian (chart ∷ []) params ≡ some results
unfolding search search_charts search_columns check_ins extend_stay points_for_night in_seasons
    in_periods rate_at is_weekend contains sort_slice insert_sorted stay_before ◌+ℤ◌
finds = refl

search_sound_example : All (FromCharts gregorian params (chart ∷ [])) results × Ascends results
search_sound_example = search_sound gregorian (chart ∷ []) params results finds

-- Each night costs ten points.
abbrev flat : Query
flat = record {
  night = λ d. cost (pos 10);
  resort = "Home";
  room_type = "STUDIO";
  view = "R";
  window_end = 110;
  budget = pos 25;
  min_nights = pos 2;
}

affordable : Affordable flat 103 2
unfolding ◌+ℤ◌
affordable zero h = (pos 0, refl, omega arith)
affordable (suc zero) h = (pos 10, refl, omega arith)
affordable (suc (suc zero)) h = (pos 20, refl, omega arith)
affordable (suc (suc (suc n))) h = absurd (omega arith)

check_ins_complete_example : Reports flat 103 (check_ins flat 10 100) 2
check_ins_complete_example =
    check_ins_complete flat 10 100 103 2 (omega arith) (omega arith) (omega arith) affordable
      (omega arith) (omega arith) (omega arith)

extend_stay-rounds_example : extend_stay flat 103 45 0 (pos 0) ≡ extend_stay flat 103 30 0 (pos 0)
extend_stay-rounds_example = extend_stay-rounds flat 103 45 (omega arith)
