-- ===== src/Dvc/Parser/Tests.antt =====
-- A chart as pdftotext lays it out.
use lineleader.Base.{
  ℕ, ◌==◌, if◌then◌else◌, ◌++◌, map, ◌≡◌, refl, List, [], ◌∷◌, String, All, length, arith,
}
use lineleader.Base.Int.{ℤ, pos}
use lineleader.Base.Pattern.{
  append, at_end, at_most, at_start, boundary, find_all_at, find_from, literal_by, many_at, one_at,
  some_of, then_each,
}
use lineleader.Base.Text.{
  has_prefix, parse_int, parse_magnitude, scan, trim_left, trim_right, trim_space, trim_string,
  trim_string_left, trim_string_right,
}
use lineleader.Dvc.Parser.{
  after_keyword, atoi_digits, behind_chars, cell_pattern, contains_text, count_text, date_range,
  date_range_pattern, first_room_type, has_duplicate_keyword, index_text, joined_runs,
  match_room_type, month_in, month_pattern, parse_cells, parse_date_ranges_from_line,
  parse_int_positions_after_keyword, parse_ints, parse_ints_after_keyword, month_of_name,
  sleeps_in_cell, sleeps_pattern, to_upper,
}
use lineleader.Dvc.Parser.Columns.{
  best_code_line, boundary_at, build_columns, cells_within, columns_at, columns_by_room,
  columns_of_group, columns_of_groups, data_columns, group_cells, groups_from, legend_code_pattern,
  legend_end, nearest_sleeps, parse_columns, parsed, sleeps_near, split_nights, view_code_pattern,
  view_codes, zip_codes,
}
use lineleader.Dvc.Parser.Columns.Count.{InReach, parse_columns-length}
use lineleader.Dvc.Parser.Layout.{
  chart_of, first_data_row, parse_layout_lines, parse_sections, resort_name_of, split_at_line,
  split_data_section, year_of, year_pattern, extract_resort_code, without_extension, split_text,
  first_code,
}
use lineleader.Dvc.Parser.Layout.Charts.{IsRead, parse_layout_lines-IsRead}
use lineleader.Dvc.Parser.Seasons.{data_line, parse_seasons}
use lineleader.Dvc.Parser.Seasons.Blocks.{Block, nightly, chart_lines}
use lineleader.Dvc.Parser.Seasons.RoundTrip.{parse_seasons-blocks}
use lineleader.Dvc.Types.{Column, ResortChart, Season}

abbrev header : List String
header =
    "Home of Tests" ∷ "2026 VACATION POINTS PER NIGHT"
    ∷ "        NIGHTS      RESORT STUDIO        TWO-BEDROOM   "
    ∷ "                  (Sleeps up to 4)    (Sleeps up to 8) "
    ∷ "  R - Resort View    R        P              R         " ∷ []

abbrev row : String
row = "       SUN—THU       16       19             44"

abbrev section : List String
section =
    "TRAVEL PERIODS" ∷ row ∷ "Sept 1 - Sep 30" ∷ "       FRI—SAT       20       24             55"
    ∷ "       WEEKLY       120      143            330" ∷ []

abbrev columns : List Column
columns =
    record { room_type = "RESORT STUDIO"; view = "R"; sleeps = pos 4 }
    ∷ record { room_type = "RESORT STUDIO"; view = "P"; sleeps = pos 4 }
    ∷ record { room_type = "TWO-BEDROOM VILLA"; view = "R"; sleeps = pos 8 }
    ∷ []

row-InReach : InReach (data_columns row)
unfolding data_columns parse_int_positions_after_keyword after_keyword index_text to_upper
    contains_text has_prefix behind_chars find_all_at find_from some_of then_each one_at many_at
    append
row-InReach = omega arith

columns_parsed : parse_columns header row ≡ parsed columns
unfolding parse_columns columns_at data_columns parse_int_positions_after_keyword after_keyword
    index_text to_upper contains_text has_prefix behind_chars find_all_at find_from some_of
    then_each one_at many_at append split_nights group_cells parse_cells cell_pattern joined_runs
    literal_by build_columns columns_of_groups columns_of_group columns_by_room groups_from
    boundary_at match_room_type first_room_type view_codes best_code_line view_code_pattern
    legend_end legend_code_pattern boundary at_start at_most has_duplicate_keyword count_text
    zip_codes sleeps_near nearest_sleeps cells_within sleeps_in_cell sleeps_pattern trim_space
    trim_left trim_right atoi_digits parse_int parse_magnitude scan
columns_parsed = refl

parse_columns-length_example : length columns ≡ length (data_columns row)
parse_columns-length_example = parse_columns-length header row columns row-InReach columns_parsed

abbrev day_text : ℤ → ℕ → ℤ → String
day_text year month day = if month == 9 then "in September" else "elsewhere"

abbrev layout : List String
layout = header ++ section

abbrev seasons : List Season
seasons =
    record {
      periods = record { start = "in September"; end = "in September" } ∷ [];
      sun_thu = pos 16 ∷ pos 19 ∷ pos 44 ∷ [];
      fri_sat = pos 20 ∷ pos 24 ∷ pos 55 ∷ [];
    }
    ∷ []

abbrev chart : ResortChart
chart = record {
  resort_name = "Home of Tests";
  resort_code = "VGF";
  year = pos 2026;
  columns = columns;
  seasons = seasons;
}

-- The rows of the section, with no regard to the calendar.
abbrev blocks : List Block
blocks =
    nightly ([] ∷ []) (pos 16 ∷ pos 19 ∷ pos 44 ∷ []) (pos 20 ∷ pos 24 ∷ pos 55 ∷ []) []
      ((record { start = "in September"; end = "in September" } ∷ []) ∷ []) [] [] []
    ∷ []

classified :
    map (data_line λ line. parse_date_ranges_from_line day_text line (pos 2026)) section
    ≡ chart_lines blocks
unfolding data_line parse_date_ranges_from_line date_range date_range_pattern month_pattern
    month_of_name month_in parse_ints_after_keyword parse_ints after_keyword index_text to_upper
    contains_text has_prefix behind_chars find_all_at find_from some_of then_each one_at many_at
    append at_most literal_by atoi_digits parse_int parse_magnitude scan
classified = refl

parse_seasons-blocks_example :
    parse_seasons (λ line. parse_date_ranges_from_line day_text line (pos 2026)) section ≡ seasons
parse_seasons-blocks_example =
    parse_seasons-blocks (λ line. parse_date_ranges_from_line day_text line (pos 2026)) section
      blocks classified ((cc, cc, cc), tt)

layout-InReach : All (λ (l : String). InReach (data_columns l)) layout
unfolding data_columns parse_int_positions_after_keyword after_keyword index_text to_upper
    contains_text has_prefix behind_chars find_all_at find_from some_of then_each one_at many_at
    append
layout-InReach = omega arith

layout_parsed : parse_layout_lines day_text layout "VGF" ≡ parsed chart
unfolding parse_layout_lines year_of year_pattern split_data_section split_at_line parse_sections
    first_data_row chart_of resort_name_of trim_string trim_string_left trim_string_right
    contains_text has_prefix find_all_at find_from some_of then_each one_at many_at append
    literal_by atoi_digits parse_int parse_magnitude scan to_upper
layout_parsed = rw (columns_parsed, parse_seasons-blocks_example) refl

parse_layout_lines-IsRead_example : IsRead layout "VGF" chart
parse_layout_lines-IsRead_example =
    parse_layout_lines-IsRead day_text layout "VGF" chart layout-InReach layout_parsed

file_names :
    (extract_resort_code "VGF-2026.pdf" ≡ "VGF")
    × (extract_resort_code "2027_VGF.pdf" ≡ "VGF")
    × (extract_resort_code "chart.v2.pdf" ≡ "chart.v2")
unfolding extract_resort_code without_extension split_text first_code find_all_at find_from at_start
    at_most one_at then_each at_end append
file_names = (refl, refl, refl)
