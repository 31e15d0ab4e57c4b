-- ===== src/Dvc/Parser/Layout/Charts.antt =====
-- What `parseLayoutText` accepts: charts with a year, usable seasons, and a column for each number of
-- a row of points.
use mathlib.Core.Path.{subst}
use lineleader.Base.{
  ℕ, Bool, true, ◌&&◌, ◌||◌, List, [], ◌∷◌, Option, none, some, String, length, All, All-map,
  Exists, ◌≡◌, ◌≢◌, refl, ap, arith, Bool-cases, inl, inr,
}
use lineleader.Base.Int.{ℤ, pos, eqb_ℤ}
use lineleader.Dvc.Types.{ResortChart, DateRange}
use lineleader.Dvc.Parser.{holds}
use lineleader.Dvc.Parser.Columns.{
  Parsed, parsed, failed, or_fail, then_parsed, ParseError, parse_columns, data_columns,
  no_data_row, no_data_section,
}
use lineleader.Dvc.Parser.Columns.Count.{InReach, parse_columns-length}
use lineleader.Dvc.Parser.Seasons.{parse_seasons}
use lineleader.Dvc.Parser.Seasons.Blocks.{IsUsable, seasons_of-IsUsable}
use lineleader.Dvc.Parser.Layout.{
  parse_layout_lines, parse_sections, chart_of, year_of, split_data_section, split_at_line,
  first_data_row,
}

parse_seasons-IsUsable :
    (dates_of : String → List DateRange) (lines : List String)
    → All IsUsable (parse_seasons dates_of lines)
unfolding parse_seasons
parse_seasons-IsUsable dates_of lines = seasons_of-IsUsable _

then_parsed-eq-parsed :
    {A B : Type 0} (m : Parsed A) (f : A → Parsed B) {b : B}
    → then_parsed m f ≡ parsed b
    → (a : A) × (m ≡ parsed a) × (f a ≡ parsed b)
then_parsed-eq-parsed (parsed a) f h = (a, refl, h)
then_parsed-eq-parsed (failed e) f h = cc

or_fail-eq-parsed :
    {A : Type 0} (e : ParseError) (o : Option A) {a : A} → or_fail e o ≡ parsed a → o ≡ some a
or_fail-eq-parsed e none h = cc
or_fail-eq-parsed e (some b) h = cc

module _ (P : String → Type 0) where
  -- What holds of the lines behind a split.
  abbrev AllBehind : Option (List String × List String) → Type 0
  AllBehind none = Unit
  AllBehind (some (before, rest)) = All P rest

  AllBehind-cons :
      (l : String) (o : Option (List String × List String))
      → AllBehind o
      → AllBehind (elim o [ none ↦ none | some (a, b) ↦ some (l ∷ a, b) ])
  AllBehind-cons l none h = tt
  AllBehind-cons l (some (a, b)) h = h

  split_at_line-All :
      (p : String → Bool) (ls : List String) → All P ls → AllBehind (split_at_line p ls)
  unfolding split_at_line
  split_at_line-All p [] h = tt
  split_at_line-All p (l ∷ ls) h = elim (Bool-cases (p l)) [
    | inl t ↦ rw (t, AllBehind) h
    | inr t ↦ rw (t, AllBehind) (AllBehind-cons l (split_at_line p ls) (split_at_line-All p ls h.1))
  ]

  split_data_section-All : (ls : List String) → All P ls → AllBehind (split_data_section ls)
  unfolding split_data_section
  split_data_section-All ls h = either _ _ (split_at_line-All _ ls h) (split_at_line-All _ ls h)
    where
      either :
          (o r : Option (List String × List String))
          → AllBehind o
          → AllBehind r
          → AllBehind (elim o [ none ↦ r | some s ↦ some s ])
      either none r h k = k
      either (some (a, b)) r h k = h

  -- The first row of points is a line that names Sunday and has what holds of all lines.
  first_data_row-All :
      (ls : List String) {row : String}
      → All P ls
      → first_data_row ls ≡ some row
      → P row × (holds row "SUN" ≡ true)
  unfolding first_data_row
  first_data_row-All [] h e = cc
  first_data_row-All (l ∷ ls) {row} h e =
      elim (Bool-cases (holds l "SUN" && (holds l "THU" || holds l "SAT"))) [
        | inl t ↦ let same : l ≡ row = cc (rw t at e) in rw (← same) (h.0, ground arith)
        | inr t ↦ first_data_row-All ls h.1 (rw t at e)
      ]

-- The text has the line.
abbrev pub IsLine : List String → String → Type 0
IsLine lines row = Exists (λ (l : String). l ≡ row) lines

IsLine-All : (lines : List String) → All (IsLine lines) lines
IsLine-All [] = tt
IsLine-All (l ∷ ls) =
    (inl refl, All-map (IsLine ls) (IsLine (l ∷ ls)) (λ r h. inr h) ls (IsLine-All ls))

-- A line that can be read, with its place in the text.
abbrev IsRow : List String → String → Type 0
IsRow lines l = InReach (data_columns l) × IsLine lines l

IsRow-All :
    (lines ls : List String)
    → All (λ (l : String). InReach (data_columns l)) ls
    → All (IsLine lines) ls
    → All (IsRow lines) ls
IsRow-All lines [] h k = tt
IsRow-All lines (l ∷ ls) h k = ((h.0, k.0), IsRow-All lines ls h.1 k.1)

-- What `parseLayoutText` promises of the chart of a text.
abbrev pub IsRead : List String → String → ResortChart → Type 0
IsRead lines code chart =
    (chart.resort_code ≡ code)
    × (chart.year ≢ pos 0)
    × All IsUsable chart.seasons
    × ((row : String) × IsLine lines row
        × (holds row "SUN" ≡ true)
        × (length chart.columns ≡ length (data_columns row)))

module _ (date_text : ℤ → ℕ → ℤ → String) (lines : List String) (code : String) (year : ℤ) where
  parse_sections-IsRead :
      (s : List String × List String) (chart : ResortChart)
      → year ≢ pos 0
      → All (IsRow lines) s.1
      → parse_sections date_text lines code year s ≡ parsed chart
      → IsRead lines code chart
  unfolding parse_sections chart_of
  parse_sections-IsRead s chart z h e =
      let (row, found, e1) =
        then_parsed-eq-parsed (or_fail no_data_row (first_data_row s.1))
          (λ row.
            then_parsed (parse_columns s.0 row)
              λ columns. parsed (chart_of date_text lines code year s.1 columns))
          e in
      let (columns, made, e2) =
        then_parsed-eq-parsed (parse_columns s.0 row)
          (λ columns. parsed (chart_of date_text lines code year s.1 columns)) e1 in
      let same : chart_of date_text lines code year s.1 columns ≡ chart = cc e2 in
      let (reach, sunday) =
        first_data_row-All (IsRow lines) s.1 h
          (or_fail-eq-parsed no_data_row (first_data_row s.1) found) in
      subst (IsRead lines code) same (
        refl,
        z,
        parse_seasons-IsUsable _ s.1,
        (row, reach.1, sunday, parse_columns-length s.0 row columns reach.0 made),
      )

-- A chart that is read from lines whose numbers stand below the offset 2 ^ 30 - 1 has the code it is
-- given, a year other than zero, usable seasons only, and as many columns as one of the lines, which
-- names Sunday, has numbers.
pub parse_layout_lines-IsRead :
    (date_text : ℤ → ℕ → ℤ → String) (lines : List String) (code : String) (chart : ResortChart)
    → All (λ (l : String). InReach (data_columns l)) lines
    → parse_layout_lines date_text lines code ≡ parsed chart
    → IsRead lines code chart
unfolding parse_layout_lines
parse_layout_lines-IsRead date_text [] code chart h e = cc
parse_layout_lines-IsRead date_text (l ∷ ls) code chart h e =
    elim (Bool-cases (eqb_ℤ (year_of (l ∷ ls)) (pos 0))) [
      | inl z ↦ cc (rw z at e)
      | inr z ↦
          let (s, found, e1) =
            then_parsed-eq-parsed (or_fail no_data_section (split_data_section (l ∷ ls)))
              (parse_sections date_text (l ∷ ls) code (year_of (l ∷ ls))) (rw z at e) in
          parse_sections-IsRead date_text (l ∷ ls) code (year_of (l ∷ ls)) s chart
            (λ y. cc (z, ap (λ (n : ℤ). eqb_ℤ n (pos 0)) y))
            (subst (AllBehind (IsRow (l ∷ ls))) (or_fail-eq-parsed no_data_section _ found) (
              split_data_section-All (IsRow (l ∷ ls)) (l ∷ ls)
                (IsRow-All (l ∷ ls) (l ∷ ls) h (IsLine-All (l ∷ ls)))))
            e1
    ]
