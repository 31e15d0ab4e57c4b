-- ===== src/Dvc/Parser/Columns/Count.antt =====
-- `parseColumns` makes one column for each number of the first row of points.
use lineleader.Base.{
  ◌-◌, ◌^◌, ◌≤◌, ◌<◌, ◌≡◌, refl, ap, ◌∙◌, List, [], ◌∷◌, Option, none, some, String, length,
  length-append, map, All, arith, Option-cases, inl, inr, is_some,
}
use lineleader.Base.Int.{ℤ, pos, ◌≤ℤ◌}
use lineleader.Dvc.Types.{Column}
use lineleader.Dvc.Parser.{IntPos, Cell, RoomType, match_room_type}
use lineleader.Dvc.Parser.Columns.{
  Group, groups_from, boundary_at, highest, lowest, ViewCode, view_codes, zip_codes,
  columns_of_group, columns_of_groups, group_cells, data_columns, split_nights, build_columns,
  parsed, parse_columns, columns_at, columns_by_room, variant_column, column_of, alternate_room,
  fields_of, cells_within,
}
use lineleader.Dvc.Parser.Columns.Spans.{
  OrderedCells, group_cells-OrderedCells, boundary_at_bounds, from_on, between, between-from_on,
  between_last,
}

length-map {ℓ κ} :
    {A : Type ℓ} {B : Type κ} (f : A → B) (xs : List A) → length (map f xs) ≡ length xs
length-map f [] = refl
length-map f (x ∷ xs) = omega (arith, length-map f xs)

length-zip_codes :
    (f : IntPos → Option ViewCode → Column) (ds : List IntPos) (codes : List ViewCode)
    → length (zip_codes f ds codes) ≡ length ds
unfolding zip_codes
length-zip_codes f [] codes = refl
length-zip_codes f (d ∷ ds) [] = omega (arith, length-zip_codes f ds [])
length-zip_codes f (d ∷ ds) (c ∷ codes) = omega (arith, length-zip_codes f ds codes)

-- Where the numbers of a row stand, so that the spans of the groups reach them.
abbrev pub InReach : List IntPos → Type 0
InReach ds = All (λ (d : IntPos). d.x < 2 ^ 30 - 1) ds

module _ (header_lines others : List String) (ds : List IntPos) (codes : List ViewCode) where
  length-columns_by_room :
      (g : Group) (cols : List IntPos) (codes_in : List ViewCode) (r : Option RoomType)
      → length (columns_by_room header_lines others ds codes g cols codes_in r) ≡ length cols
  unfolding columns_by_room
  length-columns_by_room g cols codes_in none = length-map _ cols
  length-columns_by_room g cols codes_in (some base) = ground (
    arith,
    length-zip_codes
        (variant_column header_lines others ds codes g base
          (alternate_room base (fields_of (cells_within g others))))
        cols codes_in,
    length-zip_codes (column_of header_lines others ds codes g base) cols codes_in,
  )

  length-columns_of_group :
      (g : Group)
      → length (columns_of_group header_lines others ds codes g) ≡ length (between g.start g.end ds)
  unfolding columns_of_group
  length-columns_of_group g = length-columns_by_room g (between g.start g.end ds) _ _

  length-columns_of_groups :
      (start : ℤ) (c : Cell) (cs : List Cell)
      → start ≤ℤ pos c.start
      → c.start ≤ c.end
      → OrderedCells c.end cs
      → InReach ds
      → length (columns_of_groups header_lines others ds codes (groups_from start (c ∷ cs)))
        ≡ length (from_on start ds)
  unfolding columns_of_groups groups_from
  length-columns_of_groups start c [] l m h reach =
      length-append (columns_of_group header_lines others ds codes _) []
      ∙ omega (
        arith,
        length-columns_of_group (record { cell = c; start = start; end = highest }),
        between_last start ds reach,
      )
  length-columns_of_groups start c (next ∷ cs) l m h reach =
      let matched = is_some (match_room_type next.text) in
      let b = boundary_at c next matched in
      let bounds = boundary_at_bounds c next matched h.0 in
      let here = length-columns_of_group (record { cell = c; start = start; end = pos b }) in
      let rest = length-columns_of_groups (pos b) next cs (omega (arith, bounds)) h.1 h.2 reach in
      let parts = between-from_on start (pos b) ds (omega (arith, bounds)) in
      length-append
        (columns_of_group header_lines others ds codes
          (record { cell = c; start = start; end = pos b }))
        (columns_of_groups header_lines others ds codes (groups_from (pos b) (next ∷ cs)))
      ∙ omega (arith, here, rest, parts)

length-from_on : (ds : List IntPos) → length (from_on lowest ds) ≡ length ds
length-from_on [] = refl
length-from_on (d ∷ ds) = ground (arith, length-from_on ds)

length-build_columns :
    (header_lines others : List String) (ds : List IntPos) (cells : List Cell) (cols : List Column)
    → OrderedCells 0 cells
    → InReach ds
    → build_columns header_lines others ds cells ≡ parsed cols
    → length cols ≡ length ds
unfolding build_columns
length-build_columns header_lines others ds [] cols h reach e = cc
length-build_columns header_lines others ds (c ∷ cs) cols h reach e =
    let made =
      columns_of_groups header_lines others ds (view_codes header_lines)
        (groups_from lowest (c ∷ cs)) in
    let same : cols ≡ made = cc in
    ap length same
    ∙ length-columns_of_groups header_lines others ds (view_codes header_lines) lowest c cs
        (omega arith) h.1 h.2 reach
    ∙ length-from_on ds

length-columns_at :
    (header_lines : List String) (ds : List IntPos) (cols : List Column)
    → InReach ds
    → columns_at header_lines ds ≡ parsed cols
    → length cols ≡ length ds
unfolding columns_at
length-columns_at header_lines [] cols reach e = cc
length-columns_at header_lines (d ∷ ds) cols reach e =
    elim (Option-cases (split_nights header_lines)) [
      | inl n ↦ cc (rw n at e)
      | inr (s, n) ↦
          length-build_columns header_lines s.1 (d ∷ ds) (group_cells d.x s.0) cols
            (group_cells-OrderedCells d.x s.0) reach (rw n at e)
    ]

-- A successful parse of the columns has one column for each number of the first row of points, where
-- the numbers stand below the offset 2 ^ 30 - 1 of the row.
pub parse_columns-length :
    (header_lines : List String) (row : String) (cols : List Column)
    → InReach (data_columns row)
    → parse_columns header_lines row ≡ parsed cols
    → length cols ≡ length (data_columns row)
unfolding parse_columns
parse_columns-length header_lines row cols reach e =
    length-columns_at header_lines (data_columns row) cols reach e
