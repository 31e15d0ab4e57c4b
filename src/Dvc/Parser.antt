-- ===== src/Dvc/Parser.antt =====
-- internal/dvc/parser.go: what a line of a chart holds. `strings.ToUpper` is modelled on ASCII
-- letters; `strings.Index` is used with texts of such letters. `date_text` is `Format("2006-01-02")`
-- of `time.Date` of a year, a month and a day.

pub mod Columns
pub mod Seasons
pub mod Layout
mod Tests
use lineleader.Base.{
  ℕ, zero, suc, ◌+◌, ◌-◌, ◌/◌, ◌^◌, ◌==◌, Bool, true, false, ◌&&◌, ◌||◌, List, [], ◌∷◌, ◌++◌,
  Option, none, some, String, length, leb, ltb, map, any, is_some, if◌then◌else◌,
}
use lineleader.Base.Int.{ℤ, pos}
use lineleader.Base.Pattern.{
  Pattern, pure, ◌>>=◌, ◌>>◌, or_else, one, many, some_of, at_most, literal, literal_by, append,
  is_digit, is_blank, is_solid, boundary, at_start, is_upper, Match, find_all, find_all_at, find,
  Cursor, behind,
}
use lineleader.Base.Text.{Text, codes, eqb_text, parse_int, has_prefix}
use lineleader.Dvc.Types.{DateRange}

-- `strings.ToUpper`
abbrev pub upper : ℕ → ℕ
upper c = if leb 97 c && leb c 122 then c - 32 else c

unfoldable pub to_upper : String → Text
to_upper s = map upper (codes s)

-- `strings.Contains`
unfoldable pub contains_text : Text → Text → Bool
contains_text [] t = has_prefix [] t
contains_text (c ∷ s) t = has_prefix (c ∷ s) t || contains_text s t

-- `strings.Index`
unfoldable pub index_text : Text → Text → Option ℕ
index_text [] t = if has_prefix [] t then some 0 else none
index_text (c ∷ s) t =
    let rest = index_text s t in
    if has_prefix (c ∷ s) t
    then some 0
    else let i : Option ℕ = elim rest [ none ↦ none | some i ↦ some (i + 1) ] in i

-- `strings.Count`, with the characters to pass over.
unfoldable pub count_text : ℕ → Text → Text → ℕ
count_text skip [] t = 0
count_text (suc skip) (c ∷ s) t = count_text skip s t
count_text zero (c ∷ s) t =
    let found = 1 + count_text (length t - 1) s t in
    let rest = count_text zero s t in if has_prefix (c ∷ s) t then found else rest

abbrev pub holds : String → String → Bool
holds s keyword = contains_text (to_upper s) (codes keyword)

-- `strconv.Atoi` of digits without its error: out of range it gives back the largest `int`.
unfoldable pub atoi_digits : String → ℤ
atoi_digits s = elim (parse_int (codes s)) [ none ↦ pos (2 ^ 63 - 1) | some n ↦ n ]

-- `intPos`
pub record IntPos : Type 0 where
  pub val : ℤ
  pub x : ℕ

abbrev pub int_pos : Match String → IntPos
int_pos m = record { val = atoi_digits m.value; x = m.start }

-- `parseInts`
unfoldable pub parse_ints : String → List ℤ
parse_ints s = map (λ (m : Match String). atoi_digits m.value) (find_all (some_of is_digit) s)

-- The text behind the first characters, with its offset.
unfoldable pub behind_chars : ℕ → Cursor → String → Cursor
behind_chars zero k s = record k { rest = s }
behind_chars (suc n) k String.[] = record k { rest = String.[] }
behind_chars (suc n) k (String.◌∷◌ c s) = behind_chars n (behind k c s) s

-- The text behind the first occurrence of a keyword, or all of the text.
unfoldable pub after_keyword : String → String → Cursor
after_keyword s keyword =
    let start : Cursor = record { before = none; offset = 0; rest = s } in
    elim (index_text (to_upper s) (to_upper keyword)) [
      | none ↦ start
      | some i ↦ behind_chars (i + length (codes keyword)) start s
    ]

-- `parseIntsAfterKeyword`
unfoldable pub parse_ints_after_keyword : String → String → List ℤ
parse_ints_after_keyword s keyword = parse_ints (after_keyword s keyword).rest

-- `parseIntPositionsAfterKeyword`
unfoldable pub parse_int_positions_after_keyword : String → String → List IntPos
parse_int_positions_after_keyword s keyword =
    let k = after_keyword s keyword in map int_pos (find_all_at (some_of is_digit) k.offset k.rest)

-- The rows of `knownRoomTypes`.
pub record RoomType : Type 0 where
  pub keyword : String
  pub name : String
  pub sleeps : ℤ

abbrev room : String → String → ℕ → RoomType
room keyword name sleeps = record { keyword = keyword; name = name; sleeps = pos sleeps }

abbrev pub known_room_types : List RoomType
known_room_types =
    room "THREE-BEDROOM TREEHOUSE" "THREE-BEDROOM TREEHOUSE VILLA" 9
    ∷ room "THREE-BEDROOM BEACH COTTAGE" "THREE-BEDROOM BEACH COTTAGE" 12
    ∷ room "THREE-BEDROOM" "THREE-BEDROOM GRAND VILLA" 12
    ∷ room "TWO-BEDROOM BEACH COTTAGE" "TWO-BEDROOM BEACH COTTAGE" 12
    ∷ room "TWO-BEDROOM CABIN" "TWO-BEDROOM CABIN" 8
    ∷ room "TWO-BEDROOM BUNGALOW" "TWO-BEDROOM BUNGALOW" 8
    ∷ room "TWO-BEDROOM PENTHOUSE" "TWO-BEDROOM PENTHOUSE VILLA" 8
    ∷ room "TWO-BEDROOM" "TWO-BEDROOM VILLA" 9
    ∷ room "ONE-BEDROOM" "ONE-BEDROOM VILLA" 5
    ∷ room "DELUXE INN ROOM" "DELUXE INN ROOM" 4
    ∷ room "GARDEN ROOM DELUXE STUDIO" "GARDEN ROOM DELUXE STUDIO" 4
    ∷ room "GARDEN ROOM DUO STUDIO" "GARDEN ROOM DUO STUDIO" 2
    ∷ room "DELUXE STUDIO" "DELUXE STUDIO" 5
    ∷ room "TOWER STUDIO" "TOWER STUDIO" 2
    ∷ room "RESORT STUDIO" "RESORT STUDIO" 5
    ∷ room "DUO STUDIO" "DUO STUDIO" 2
    ∷ room "HOTEL ROOM" "HOTEL ROOM" 4
    ∷ room "CABIN" "CABIN" 6
    ∷ []

-- `matchRoomType`
unfoldable pub first_room_type : Text → List RoomType → Option RoomType
first_room_type text [] = none
first_room_type text (r ∷ rs) =
    let rest = first_room_type text rs in
    if contains_text text (codes r.keyword) then some r else rest

unfoldable pub match_room_type : String → Option RoomType
match_room_type text = first_room_type (to_upper text) known_room_types

-- `hasDuplicateKeyword`
unfoldable pub has_duplicate_keyword : String → Bool
has_duplicate_keyword text =
    any (λ (r : RoomType). leb 2 (count_text 0 (to_upper text) (codes r.keyword))) known_room_types

-- The names of the months in `dateRangeRE`, and their numbers in `monthMap`.
abbrev pub months : List (String × ℕ)
months =
    ("jan", 1)
    ∷ ("feb", 2)
    ∷ ("mar", 3)
    ∷ ("apr", 4)
    ∷ ("may", 5)
    ∷ ("jun", 6)
    ∷ ("jul", 7)
    ∷ ("aug", 8)
    ∷ ("sep", 9)
    ∷ ("sept", 9)
    ∷ ("oct", 10)
    ∷ ("nov", 11)
    ∷ ("dec", 12)
    ∷ []

-- The same letter under `(?i)`; the long s is one of its folds.
abbrev pub same_letter : ℕ → ℕ → Bool
same_letter d c = (c == d) || ((c + 32) == d) || ((c == 383) && (d == 115))

unfoldable pub month_pattern : List (String × ℕ) → Pattern String
month_pattern [] = λ k. []
month_pattern ((name, m) ∷ ms) = or_else (literal_by same_letter name) (month_pattern ms)

-- `parseMonth`: zero for a name that is not in the map.
abbrev pub lower : ℕ → ℕ
lower c = if leb 65 c && leb c 90 then c + 32 else c

unfoldable pub month_in : List (String × ℕ) → Text → ℕ
month_in [] s = 0
month_in ((name, m) ∷ ms) s =
    let rest = month_in ms s in if eqb_text s (codes name) then m else rest

unfoldable pub month_of_name : String → ℕ
month_of_name s = month_in months (map lower (codes s))

-- `dateRangeRE`
unfoldable pub date_range_pattern : Pattern (String × String × String × String)
date_range_pattern = do
  m ← month_pattern months
  some_of is_blank
  d ← at_most 1 is_digit
  many is_blank
  literal "-"
  many is_blank
  n ← month_pattern months
  some_of is_blank
  e ← at_most 1 is_digit
  pure (m, d, n, e)

module _ (date_text : ℤ → ℕ → ℤ → String) where
  -- The body of the loop of `parseDateRangesFromLine`.
  unfoldable pub date_range : ℤ → Match (String × String × String × String) → DateRange
  date_range year m = record {
    start = date_text year (month_of_name m.value.0) (atoi_digits m.value.1);
    end = date_text year (month_of_name m.value.2) (atoi_digits m.value.3);
  }

  -- `parseDateRangesFromLine`
  unfoldable pub parse_date_ranges_from_line : String → ℤ → List DateRange
  parse_date_ranges_from_line line year = map (date_range year) (find_all date_range_pattern line)

-- `cell`
pub record Cell : Type 0 where
  pub text : String
  pub start : ℕ
  pub end : ℕ

abbrev pub center : Cell → ℕ
center c = (c.start + c.end) / 2

-- `cellRE`: runs of solid characters, joined by single spaces; the number bounds how many.
unfoldable pub joined_runs : ℕ → Pattern String
joined_runs zero = pure ""
joined_runs (suc n) =
    or_else
      (do a ← literal " "; b ← some_of is_solid; r ← joined_runs n; pure (append a (append b r)))
      (pure "")

unfoldable pub cell_pattern : ℕ → Pattern String
cell_pattern n = do a ← some_of is_solid; r ← joined_runs n; pure (append a r)

abbrev pub to_cell : Match String → Cell
to_cell m = record { text = m.value; start = m.start; end = m.end }

-- `parseCells`; a line holds fewer runs than characters.
unfoldable pub parse_cells : String → List Cell
parse_cells line = map to_cell (find_all (cell_pattern (length (codes line))) line)

-- `sleepsRE`
unfoldable pub sleeps_pattern : Pattern String
sleeps_pattern = do literal "(Sleeps up to "; n ← some_of is_digit; literal ")"; pure n

-- `sleepsInCell`
unfoldable pub sleeps_in_cell : Cell → ℤ
sleeps_in_cell c = elim (find sleeps_pattern c.text) [ none ↦ pos 0 | some n ↦ atoi_digits n ]
