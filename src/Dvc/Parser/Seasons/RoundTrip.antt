-- ===== src/Dvc/Parser/Seasons/RoundTrip.antt =====
-- The seasons of a chart are read back from its lines.
use mathlib.Core.List.{append_assoc, append-nil}
use lineleader.Base.{List, [], ◌∷◌, ◌++◌, ◌≡◌, refl, sym, ap, ◌∙◌, map, All, String}
use lineleader.Base.Int.{ℤ}
use lineleader.Dvc.Types.{DateRange, Season}
use lineleader.Dvc.Parser.Seasons.{
  complete, to_season, reset, weekly_line, Reading, flush, read_line, read_lines, seasons_of,
  data_line, parse_seasons,
}
use lineleader.Dvc.Parser.Seasons.Blocks.{
  IsUsable, usable-complete, concat, Block, nightly, uniform, block_lines, block_season,
  chart_lines, read_lines-append, read_lines-dates,
}

-- What is read of a chart between two blocks.
abbrev between_blocks : List Season → Reading
between_blocks seasons = record { seasons = seasons; pending = reset }

abbrev pending_in : List Season → List DateRange → List ℤ → List ℤ → Reading
pending_in seasons dates sun_thu fri_sat = record {
  seasons = seasons;
  pending = record { dates = dates; sun_thu = sun_thu; fri_sat = fri_sat };
}

-- The line of the week ends a usable season.
read_weekly :
    (done : List Season) (dates f : List DateRange) (a b : List ℤ)
    → IsUsable (record { periods = dates ++ f; sun_thu = a; fri_sat = b })
    → read_lines (weekly_line f ∷ []) (pending_in done dates a b)
      ≡ between_blocks (done ++ (record { periods = dates ++ f; sun_thu = a; fri_sat = b } ∷ []))
unfolding read_lines read_line flush to_season
read_weekly done dates f a b h =
    rw (usable-complete (record { dates = dates ++ f; sun_thu = a; fri_sat = b }) h) refl

read_block :
    (b : Block) (done : List Season)
    → IsUsable (block_season b)
    → read_lines (block_lines b) (between_blocks done)
      ≡ between_blocks (done ++ (block_season b ∷ []))
unfolding read_lines read_line flush complete
read_block (nightly gap weekdays weekend d ds e es f) done h =
    read_lines-dates gap _ (between_blocks done)
    ∙ read_lines-dates ds _ (pending_in done d weekdays [])
    ∙ read_lines-dates es _ (pending_in done ((d ++ concat ds) ++ e) weekdays weekend)
    ∙ read_weekly done (((d ++ concat ds) ++ e) ++ concat es) f weekdays weekend h
read_block (uniform gap rates d ds f) done h =
    read_lines-dates gap _ (between_blocks done)
    ∙ read_lines-dates ds _ (pending_in done d rates rates)
    ∙ read_weekly done (d ++ concat ds) f rates rates h

read_blocks :
    (bs : List Block) (done : List Season)
    → All (λ (b : Block). IsUsable (block_season b)) bs
    → read_lines (chart_lines bs) (between_blocks done)
      ≡ between_blocks (done ++ map block_season bs)
unfolding read_lines
read_blocks [] done h = ap between_blocks (sym (append-nil done))
read_blocks (b ∷ bs) done h =
    read_lines-append (block_lines b) (chart_lines bs) (between_blocks done)
    ∙ ap (read_lines (chart_lines bs)) (read_block b done h.0)
    ∙ read_blocks bs (done ++ (block_season b ∷ [])) h.1
    ∙ ap between_blocks (append_assoc done (block_season b ∷ []) (map block_season bs))

seasons_of-chart_lines :
    (bs : List Block)
    → All (λ (b : Block). IsUsable (block_season b)) bs
    → seasons_of (chart_lines bs) ≡ map block_season bs
unfolding seasons_of flush complete
seasons_of-chart_lines bs h = rw (read_blocks bs [] h) refl

-- Lines that are classified as the lines of blocks of usable seasons are read as those seasons, in
-- their order: no season takes rates or dates of another, and dates before the first row of a block
-- are in none.
pub parse_seasons-blocks :
    (dates_of : String → List DateRange) (lines : List String) (bs : List Block)
    → map (data_line dates_of) lines ≡ chart_lines bs
    → All (λ (b : Block). IsUsable (block_season b)) bs
    → parse_seasons dates_of lines ≡ map block_season bs
unfolding parse_seasons
parse_seasons-blocks dates_of lines bs e h = ap seasons_of e ∙ seasons_of-chart_lines bs h
