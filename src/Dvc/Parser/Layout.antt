-- ===== src/Dvc/Parser/Layout.antt =====
-- internal/dvc/parser.go: `parseLayoutText`, `ParsePDF` and the code of a resort in a file name. The
-- text of a file, which pdftotext gives or fails to, is an argument.
pub mod Charts
use lineleader.Base.{
  ℕ, zero, suc, ◌+◌, ◌==◌, Bool, true, false, ◌&&◌, ◌||◌, not, List, [], ◌∷◌, ◌++◌, Option, none,
  some, String, str_eq, map, is_some, if◌then◌else◌,
}
use Prim.Native.Char.{code}
use lineleader.Base.Int.{ℤ, pos, eqb_ℤ}
use lineleader.Base.Pattern.{
  Pattern, pure, ◌>>=◌, ◌>>◌, one, at_most, append, some_of, literal, is_digit, is_upper, is_blank,
  at_start, at_end, find,
}
use lineleader.Base.Text.{codes, trim_string}
use lineleader.Dvc.Parser.{atoi_digits, contains_text, holds, parse_date_ranges_from_line}
use lineleader.Dvc.Parser.Columns.{
  ParseError, empty_text, no_year, no_data_section, no_data_row, Parsed, parsed, failed,
  then_parsed, or_fail, parse_columns,
}
use lineleader.Dvc.Parser.Seasons.{parse_seasons}
use lineleader.Dvc.Types.{Column, ResortChart}

-- The pieces of a text between the characters of a kind, the empty ones included.
unfoldable pub split_text : (ℕ → Bool) → String → List String
split_text p String.[] = "" ∷ []
split_text p (String.◌∷◌ c s) = elim (split_text p s) [
  | [] ↦ []
  | l ∷ ls ↦ if p (code c) then "" ∷ (l ∷ ls) else String.◌∷◌ c l ∷ ls
]

-- The first line that is not blank, without the space around it.
unfoldable pub resort_name_of : List String → String
resort_name_of [] = ""
resort_name_of (l ∷ ls) =
    let rest = resort_name_of ls in if not (str_eq (trim_string l) "") then trim_string l else rest

-- `yearRE`
unfoldable pub year_pattern : Pattern String
year_pattern = do
  a ← one is_digit
  b ← one is_digit
  c ← one is_digit
  d ← one is_digit
  some_of is_blank
  literal "VACATION POINTS PER NIGHT"
  pure (append a (append b (append c d)))

unfoldable pub year_of : List String → ℤ
year_of [] = pos 0
year_of (l ∷ ls) = elim (find year_pattern l) [ none ↦ year_of ls | some y ↦ atoi_digits y ]

-- The lines before and from the first line of a kind on.
unfoldable pub split_at_line : (String → Bool) → List String → Option (List String × List String)
split_at_line p [] = none
split_at_line p (l ∷ ls) =
    let rest : Option (List String × List String) = elim (split_at_line p ls) [
      | none ↦ none
      | some (a, b) ↦ some (l ∷ a, b)
    ] in
    if p l then some ([], l ∷ ls) else rest

-- `strings.Contains` with no change of case.
abbrev pub has : String → String → Bool
has l s = contains_text (codes l) (codes s)

unfoldable pub split_data_section : List String → Option (List String × List String)
split_data_section lines = elim (split_at_line (λ l. has l "TRAVEL PERIODS") lines) [
  | none ↦ split_at_line (λ l. has l "SUN" && has l "THU") lines
  | some s ↦ some s
]

-- The first row of points; an empty one is none.
unfoldable pub first_data_row : List String → Option String
first_data_row [] = none
first_data_row (l ∷ ls) =
    let rest = first_data_row ls in
    if holds l "SUN" && (holds l "THU" || holds l "SAT") then some l else rest

module _ (date_text : ℤ → ℕ → ℤ → String) where
  -- The chart of its lines, its year, the lines of its data section and its columns.
  unfoldable pub chart_of : List String → String → ℤ → List String → List Column → ResortChart
  chart_of lines resort_code year section columns = record {
    resort_name = resort_name_of lines;
    resort_code = resort_code;
    year = year;
    columns = columns;
    seasons = parse_seasons (λ line. parse_date_ranges_from_line date_text line year) section;
  }

  -- The steps behind the split of the lines.
  unfoldable pub parse_sections :
      List String → String → ℤ → List String × List String → Parsed ResortChart
  parse_sections lines resort_code year s =
      then_parsed (or_fail no_data_row (first_data_row s.1)) λ row.
        then_parsed (parse_columns s.0 row)
          λ columns. parsed (chart_of lines resort_code year s.1 columns)

  -- `parseLayoutText`
  unfoldable pub parse_layout_lines : List String → String → Parsed ResortChart
  parse_layout_lines [] resort_code = failed empty_text
  parse_layout_lines (l ∷ ls) resort_code =
      let year = year_of (l ∷ ls) in
      if eqb_ℤ year (pos 0)
      then failed no_year
      else then_parsed (or_fail no_data_section (split_data_section (l ∷ ls)))
          (parse_sections (l ∷ ls) resort_code year)

  unfoldable pub parse_layout_text : String → String → Parsed ResortChart
  parse_layout_text text = parse_layout_lines (split_text (λ c. c == 10) text)

-- `strings.TrimSuffix(name, filepath.Ext(name))` of a base name: the text before its last dot.
unfoldable pub without_extension : String → Option String
without_extension String.[] = none
without_extension (String.◌∷◌ c s) = elim (without_extension s) [
  | none ↦ if code c == 46 then some "" else none
  | some t ↦ some (String.◌∷◌ c t)
]

abbrev or_all : String → Option String → String
or_all s none = s
or_all s (some t) = t

-- The first part that is two to five capital letters.
unfoldable pub first_code : String → List String → String
first_code name [] = name
first_code name (p ∷ ps) =
    let rest = first_code name ps in
    if is_some (find (do at_start; one is_upper; at_most 3 is_upper; at_end) p) then p else rest

-- `extractResortCode`
unfoldable pub extract_resort_code : String → String
extract_resort_code filename =
    let name = or_all filename (without_extension filename) in
    first_code name (split_text (λ c. (c == 45) || (c == 95)) name)

-- `ParsePDF` of a file with the base name `base`.
pub data PdfResult : Type 0 where
  no_text : PdfResult
  chart_read : Parsed ResortChart → PdfResult

unfoldable pub parse_pdf : (ℤ → ℕ → ℤ → String) → Option String → String → PdfResult
parse_pdf date_text none base = no_text
parse_pdf date_text (some text) base =
    chart_read (parse_layout_text date_text text (extract_resort_code base))
