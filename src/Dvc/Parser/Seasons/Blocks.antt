-- ===== src/Dvc/Parser/Seasons/Blocks.antt =====
-- `parseSeasons` on the blocks of lines that make up the data section of a chart.
use mathlib.Core.List.{append_assoc, append-nil}
use lineleader.Base.{
  true, List, [], ◌∷◌, ◌++◌, ◌≡◌, refl, sym, ap, ◌∙◌, ◌≢◌, map, All, All-append, arith, Bool-cases,
  inl, inr,
}
use lineleader.Base.Int.{ℤ}
use lineleader.Dvc.Types.{DateRange, Season}
use lineleader.Dvc.Parser.Seasons.{
  PendingSeason, complete, to_season, reset, is_some_of, DataLine, sun_thu_line, sun_sat_line,
  fri_sat_line, weekly_line, dates_line, Reading, flush, add_dates, read_line, read_lines,
  seasons_of,
}

-- A season that a search can use: rates for both kinds of nights, and a period.
abbrev pub IsUsable : Season → Type 0
IsUsable s = (s.sun_thu ≢ []) × (s.fri_sat ≢ []) × (s.periods ≢ [])

nonempty {ℓ} : {A : Type ℓ} (xs : List A) → is_some_of xs ≡ true → xs ≢ []
nonempty [] h e = cc
nonempty (x ∷ xs) h e = cc

complete-IsUsable : (p : PendingSeason) → complete p ≡ true → IsUsable (to_season p)
unfolding complete to_season
complete-IsUsable p h = (
  nonempty p.sun_thu (ground arith),
  nonempty p.fri_sat (ground arith),
  nonempty p.dates (ground arith),
)

flush-IsUsable : (r : Reading) → All IsUsable r.seasons → All IsUsable (flush r).seasons
unfolding flush
flush-IsUsable r h = elim (Bool-cases (complete r.pending)) [
  | inl e ↦ rw e (All-append IsUsable r.seasons _ h (complete-IsUsable r.pending e, tt))
  | inr e ↦ rw e h
]

read_line-IsUsable :
    (l : DataLine) (r : Reading) → All IsUsable r.seasons → All IsUsable (read_line l r).seasons
unfolding read_line
read_line-IsUsable (sun_thu_line vals dates) r h = flush-IsUsable r h
read_line-IsUsable (sun_sat_line vals dates) r h = flush-IsUsable r h
read_line-IsUsable (fri_sat_line vals dates) r h = h
read_line-IsUsable (weekly_line dates) r h = flush-IsUsable (add_dates dates r) h
read_line-IsUsable (dates_line dates) r h = h

read_lines-IsUsable :
    (ls : List DataLine) (r : Reading)
    → All IsUsable r.seasons
    → All IsUsable (read_lines ls r).seasons
unfolding read_lines
read_lines-IsUsable [] r h = h
read_lines-IsUsable (l ∷ ls) r h = read_lines-IsUsable ls (read_line l r) (read_line-IsUsable l r h)

pub seasons_of-IsUsable : (lines : List DataLine) → All IsUsable (seasons_of lines)
unfolding seasons_of
seasons_of-IsUsable lines =
    flush-IsUsable (read_lines lines (record { seasons = []; pending = reset }))
      (read_lines-IsUsable lines (record { seasons = []; pending = reset }) tt)

abbrev pub concat {ℓ} : {A : Type ℓ} → List (List A) → List A
concat [] = []
concat (xs ∷ xss) = xs ++ concat xss

-- The lines of a season: a row of points for Sunday to Thursday, one for Friday and Saturday and one
-- for the week, or one row for all nights and one for the week; dates stand in any of them and on
-- lines of their own between them, and before the first (`gap`).
pub data Block : Type 0 where
  nightly :
      (gap : List (List DateRange)) (weekdays weekend : List ℤ) (d : List DateRange)
      (ds : List (List DateRange)) (e : List DateRange) (es : List (List DateRange))
      (f : List DateRange)
      → Block
  uniform :
      (gap : List (List DateRange)) (rates : List ℤ) (d : List DateRange)
      (ds : List (List DateRange)) (f : List DateRange)
      → Block

abbrev pub block_lines : Block → List DataLine
block_lines (nightly gap weekdays weekend d ds e es f) =
    map dates_line gap
    ++ (sun_thu_line weekdays d
        ∷ (map dates_line ds
            ++ (fri_sat_line weekend e ∷ (map dates_line es ++ (weekly_line f ∷ [])))))
block_lines (uniform gap rates d ds f) =
    map dates_line gap ++ (sun_sat_line rates d ∷ (map dates_line ds ++ (weekly_line f ∷ [])))

-- The season of a block; the dates before its first row are no part of it.
abbrev pub block_season : Block → Season
block_season (nightly gap weekdays weekend d ds e es f) = record {
  periods = (((d ++ concat ds) ++ e) ++ concat es) ++ f;
  sun_thu = weekdays;
  fri_sat = weekend;
}
block_season (uniform gap rates d ds f) = record {
  periods = (d ++ concat ds) ++ f;
  sun_thu = rates;
  fri_sat = rates;
}

abbrev pub chart_lines : List Block → List DataLine
chart_lines [] = []
chart_lines (b ∷ bs) = block_lines b ++ chart_lines bs

pub read_lines-append :
    (xs ys : List DataLine) (r : Reading)
    → read_lines (xs ++ ys) r ≡ read_lines ys (read_lines xs r)
unfolding read_lines
read_lines-append [] ys r = refl
read_lines-append (x ∷ xs) ys r = read_lines-append xs ys (read_line x r)

pub read_lines-dates :
    (dss : List (List DateRange)) (rest : List DataLine) (r : Reading)
    → read_lines (map dates_line dss ++ rest) r ≡ read_lines rest (add_dates (concat dss) r)
unfolding read_lines read_line
read_lines-dates [] rest r =
    ap
      (λ (ds : List DateRange).
        read_lines rest (record r { pending = record r.pending { dates = ds } }))
      (sym (append-nil r.pending.dates))
read_lines-dates (ds ∷ dss) rest r =
    read_lines-dates dss rest (add_dates ds r)
    ∙ ap
        (λ (ds' : List DateRange).
          read_lines rest (record r { pending = record r.pending { dates = ds' } }))
        (append_assoc r.pending.dates ds (concat dss))

pub usable-complete : (p : PendingSeason) → IsUsable (to_season p) → complete p ≡ true
unfolding complete to_season
usable-complete p h =
    rw (is_some_of_lem p.sun_thu h.0, is_some_of_lem p.fri_sat h.1, is_some_of_lem p.dates h.2) refl
  where
    is_some_of_lem : {A : Type 0} (xs : List A) → xs ≢ [] → is_some_of xs ≡ true
    is_some_of_lem [] h = absurd (h refl)
    is_some_of_lem (x ∷ xs) h = refl
