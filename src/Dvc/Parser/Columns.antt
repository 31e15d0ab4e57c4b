-- ===== src/Dvc/Parser/Columns.antt =====
-- internal/dvc/parser.go: `parseColumns`, which finds the room type, the view and the sleeps of each
-- column of a chart from the positions of the first row of points and of the header above it.
pub mod Spans
pub mod Count
use lineleader.Base.{
  ℕ, zero, suc, ◌+◌, ◌-◌, ◌/◌, ◌^◌, ◌==◌, Bool, true, false, ◌&&◌, ◌||◌, not, List, [], ◌∷◌, ◌++◌,
  Option, none, some, String, str_eq, length, leb, ltb, map, keep, is_some, if◌then◌else◌,
}
use lineleader.Base.Int.{ℤ, pos, negsuc, ltb_ℤ, leb_ℤ, eqb_ℤ}
use lineleader.Base.Pattern.{
  Pattern, pure, ◌>>=◌, ◌>>◌, or_else, one, many, some_of, at_most, literal, append, is_solid,
  is_blank, is_upper, boundary, at_start, Match, find_all, first,
}
use lineleader.Base.Text.{codes, eqb_text, trim_space, trim_string, is_space}
use lineleader.Dvc.Types.{Column}
use lineleader.Dvc.Parser.{
  to_upper, holds, IntPos, parse_int_positions_after_keyword, RoomType, match_room_type,
  has_duplicate_keyword, Cell, center, parse_cells, sleeps_in_cell,
}

-- The errors of the parser.
pub data ParseError : Type 0 where
  empty_text no_columns no_nights_line no_groups no_year no_data_section no_data_row : ParseError

pub data Parsed (A : Type 0) : Type 0 where
  parsed : A → Parsed A
  failed : ParseError → Parsed A

abbrev pub then_parsed : {A B : Type 0} → Parsed A → (A → Parsed B) → Parsed B
then_parsed (parsed a) f = f a
then_parsed (failed e) f = failed e

abbrev pub or_fail : {A : Type 0} → ParseError → Option A → Parsed A
or_fail e none = failed e
or_fail e (some a) = parsed a

-- Step 1: the positions of the numbers of the first row of points.
unfoldable pub data_columns : String → List IntPos
data_columns line =
    parse_int_positions_after_keyword line (if not (holds line "THU") then "SAT" else "THU")

-- Step 2: the first header line that holds NIGHTS, and the others in their order.
unfoldable pub split_nights : List String → Option (String × List String)
split_nights [] = none
split_nights (l ∷ ls) =
    let rest : Option (String × List String) = elim (split_nights ls) [
      | none ↦ none
      | some (n, others) ↦ some (n, l ∷ others)
    ] in
    if holds l "NIGHTS" then some (l, ls) else rest

abbrev pub is_group_cell : ℕ → Cell → Bool
is_group_cell first_x c =
    not (ltb (c.end + 5) first_x) && not (eqb_text (trim_space (to_upper c.text)) (codes "NIGHTS"))

unfoldable pub group_cells : ℕ → String → List Cell
group_cells first_x nights_line = keep (is_group_cell first_x) (parse_cells nights_line)

-- Step 3: the spans of the groups; the end of a group is the start of the next one.
pub record Group : Type 0 where
  pub cell : Cell
  pub start : ℤ
  pub end : ℤ

abbrev pub lowest : ℤ
lowest = negsuc (2 ^ 30 - 1)

abbrev pub highest : ℤ
highest = pos (2 ^ 30 - 1)

-- `boundaryAt`
unfoldable pub boundary_at : Cell → Cell → Bool → ℕ
boundary_at prev next next_matched =
    if next_matched then next.start else (prev.end + next.start + 1) / 2

unfoldable pub groups_from : ℤ → List Cell → List Group
groups_from start [] = []
groups_from start (c ∷ cs) = elim cs [
  | [] ↦ record { cell = c; start = start; end = highest } ∷ []
  | next ∷ rest ↦
      let b = pos (boundary_at c next (is_some (match_room_type next.text))) in
      record { cell = c; start = start; end = b } ∷ groups_from b cs
]

abbrev pub is_within : Group → ℕ → Bool
is_within g x = leb_ℤ g.start (pos x) && ltb_ℤ (pos x) g.end

-- Step 4: `viewCodeRE`, `legendCodeRE` and the view codes.
abbrev alternatives : List String → Pattern String
alternatives [] = λ k. []
alternatives (s ∷ ss) = or_else (literal s) (alternatives ss)

unfoldable pub view_code_pattern : Pattern String
view_code_pattern =
    or_else
      (do
        boundary
        v ← alternatives ("TP" ∷ "SV" ∷ "PM" ∷ "R" ∷ "P" ∷ "S" ∷ "V" ∷ "C" ∷ "I" ∷ "O" ∷ [])
        boundary
        pure v)
      (literal "B/P")

unfoldable pub legend_code_pattern : Pattern String
legend_code_pattern = do
  at_start
  many is_blank
  at_most 2 is_upper
  or_else (literal "/" >> at_most 1 is_upper) (pure "")
  many is_blank
  literal "-"
  many is_blank
  one is_solid

pub record ViewCode : Type 0 where
  pub text : String
  pub x : ℕ

-- The line with the most view codes, from two on: the first of them.
unfoldable pub best_code_line : ℕ → String → List String → String
best_code_line best line [] = line
best_code_line best line (l ∷ ls) =
    let n = length (find_all view_code_pattern l) in
    best_code_line (if ltb best n then n else best) (if ltb best n then l else line) ls

unfoldable pub legend_end : ℕ → List (Match String) → ℕ
legend_end end [] = end
legend_end end (m ∷ ms) = legend_end (if ltb end m.end then m.end else end) ms

abbrev to_code : Match String → ViewCode
to_code m = record { text = m.value; x = m.start }

unfoldable pub view_codes : List String → List ViewCode
view_codes header_lines =
    let line = best_code_line 1 "" header_lines in
    let behind = legend_end 0 (find_all legend_code_pattern line) in
    keep (λ (v : ViewCode). leb behind v.x) (map to_code (find_all view_code_pattern line))

-- The cells of lines whose centre is in a group.
unfoldable pub cells_within : Group → List String → List Cell
cells_within g [] = []
cells_within g (l ∷ ls) =
    keep (λ (c : Cell). is_within g (center c)) (parse_cells l) ++ cells_within g ls

abbrev pub distance : ℕ → ℕ → ℕ
distance a b = if ltb a b then b - a else a - b

-- `findSleepsNear`, from the best number so far and its distance.
unfoldable pub nearest_sleeps : ℕ → ℤ → ℕ → List Cell → ℤ
nearest_sleeps x best d [] = best
nearest_sleeps x best d (c ∷ cs) =
    let n = sleeps_in_cell c in
    let nearer = not (eqb_ℤ n (pos 0)) && ltb (distance x (center c)) d in
    nearest_sleeps x (if nearer then n else best) (if nearer then distance x (center c) else d) cs

unfoldable pub sleeps_near : List String → Group → ℕ → ℤ → ℤ
sleeps_near header_lines g x sleeps =
    let n = nearest_sleeps x (pos 0) (2 ^ 31 - 1) (cells_within g header_lines) in
    if ltb_ℤ (pos 0) n then n else sleeps

-- A group whose label is no room type: the cell nearest to a column, the first of the nearest.
unfoldable pub nearest_cell : ℕ → Cell → List Cell → Cell
nearest_cell x best [] = best
nearest_cell x best (c ∷ cs) =
    nearest_cell x (if ltb (distance x (center c)) (distance x (center best)) then c else best) cs

abbrev pub is_sub_cell : Cell → Bool
is_sub_cell c = not (ltb_ℤ (pos 0) (sleeps_in_cell c)) && is_some (match_room_type c.text)

-- The name and the sleeps of a text: those of its room type, or the empty ones.
abbrev pub room_of : String × ℤ → Option RoomType → String × ℤ
room_of default none = default
room_of default (some r) = (r.name, r.sleeps)

unfoldable pub combined_room : String → Cell → String × ℤ
combined_room prefix best =
    let sub = room_of ("", pos 0) (match_room_type best.text) in
    let combined = append prefix (append " " sub.0) in
    room_of (combined, sub.1) (match_room_type combined)

-- `strings.Fields`
unfoldable pub words : String → List String
words s = map (λ (m : Match String). m.value) (find_all (some_of λ c. not (is_space c)) s)

unfoldable pub fields_of : List Cell → List String
fields_of [] = []
fields_of (c ∷ cs) = (if ltb_ℤ (pos 0) (sleeps_in_cell c) then [] else words c.text) ++ fields_of cs

-- The first word that makes another room type of a keyword.
unfoldable pub alternate_room : RoomType → List String → Option RoomType
alternate_room base [] = none
alternate_room base (w ∷ ws) =
    let rest = alternate_room base ws in
    elim (match_room_type (append base.keyword (append " " w))) [
      | none ↦ rest
      | some r ↦ if not (str_eq r.name base.name) then some r else rest
    ]

-- Columns with the view codes of their group, in order, as far as there are any.
unfoldable pub zip_codes :
    (IntPos → Option ViewCode → Column) → List IntPos → List ViewCode → List Column
zip_codes f [] codes = []
zip_codes f (d ∷ ds) [] = f d none ∷ zip_codes f ds []
zip_codes f (d ∷ ds) (c ∷ codes) = f d (some c) ∷ zip_codes f ds codes

module _ (header_lines others : List String) (data_cols : List IntPos)
    (codes_found : List ViewCode) where
  -- The case of a group prefix.
  unfoldable pub prefix_column : Group → IntPos → Column
  prefix_column g d =
      let prefix = trim_string g.cell.text in
      elim (keep is_sub_cell (cells_within g others)) [
        | [] ↦ record { room_type = prefix; view = ""; sleeps = pos 0 }
        | c ∷ cs ↦
            let r = combined_room prefix (nearest_cell d.x c cs) in
            record { room_type = r.0; view = ""; sleeps = sleeps_near header_lines g d.x r.1 }
      ]

  abbrev pub column_of : Group → RoomType → IntPos → Option ViewCode → Column
  column_of g r d code = record {
    room_type = r.name;
    view = elim code [ none ↦ "" | some v ↦ v.text ];
    sleeps = sleeps_near header_lines g d.x r.sleeps;
  }

  -- A column without a view code is one of the other variant.
  unfoldable pub variant_column :
      Group → RoomType → Option RoomType → IntPos → Option ViewCode → Column
  variant_column g base alternate d (some v) = column_of g base d (some v)
  variant_column g base none d none = column_of g base d none
  variant_column g base (some r) d none = column_of g r d none

  -- The three cases of step 5, by the room type of the label.
  unfoldable pub columns_by_room :
      Group → List IntPos → List ViewCode → Option RoomType → List Column
  columns_by_room g cols codes_in none = map (prefix_column g) cols
  columns_by_room g cols codes_in (some base) =
      let alternate = alternate_room base (fields_of (cells_within g others)) in
      if has_duplicate_keyword g.cell.text && ltb (length codes_in) (length cols)
      then zip_codes (variant_column g base alternate) cols codes_in
      else zip_codes (column_of g base) cols codes_in

  -- The body of step 5.
  unfoldable pub columns_of_group : Group → List Column
  columns_of_group g =
      columns_by_room g (keep (λ (d : IntPos). is_within g d.x) data_cols)
        (keep (λ (v : ViewCode). is_within g v.x) codes_found) (match_room_type g.cell.text)

  unfoldable pub columns_of_groups : List Group → List Column
  columns_of_groups [] = []
  columns_of_groups (g ∷ gs) = columns_of_group g ++ columns_of_groups gs

-- The step from the groups on; without any the parse fails.
unfoldable pub build_columns :
    List String → List String → List IntPos → List Cell → Parsed (List Column)
build_columns header_lines others data_cols [] = failed no_groups
build_columns header_lines others data_cols (c ∷ cs) = parsed (
    columns_of_groups header_lines others data_cols (view_codes header_lines)
      (groups_from lowest (c ∷ cs)))

-- The steps behind the numbers of the first row of points.
unfoldable pub columns_at : List String → List IntPos → Parsed (List Column)
columns_at header_lines [] = failed no_columns
columns_at header_lines (d ∷ ds) =
    then_parsed (or_fail no_nights_line (split_nights header_lines))
      λ s. build_columns header_lines s.1 (d ∷ ds) (group_cells d.x s.0)

-- `parseColumns`
unfoldable pub parse_columns : List String → String → Parsed (List Column)
parse_columns header_lines first_data_line = columns_at header_lines (data_columns first_data_line)
