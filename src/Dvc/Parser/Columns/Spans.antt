-- ===== src/Dvc/Parser/Columns/Spans.antt =====
-- The groups of a NIGHTS line part the positions of a row: each number is in one group.
use lineleader.Base.{
  ℕ, zero, suc, ◌+◌, ◌-◌, ◌==◌, ◌^◌, ◌≤◌, ◌<◌, ◌≡◌, refl, Bool, ◌&&◌, List, [], ◌∷◌, String, length,
  map, keep, All, arith, Bool-cases, inl, inr,
}
use lineleader.Base.Int.{ℤ, pos, leb_ℤ, ltb_ℤ, ◌≤ℤ◌}
use lineleader.Base.Pattern.{Match, some_of, is_solid, literal, append, pure}
use lineleader.Base.Pattern.Advancing.{
  Advances, Ordered, bind-Advances, some_of-Advances, pure-Advances, or_else-Advances,
  literal_by-Advances, find_all_at-Ordered,
}
use lineleader.Dvc.Parser.{IntPos, Cell, to_cell, parse_cells, cell_pattern, joined_runs}
use lineleader.Dvc.Parser.Columns.{boundary_at, highest, group_cells, is_group_cell}

-- Cells from an offset on, each behind the one before it.
abbrev pub OrderedCells : ℕ → List Cell → Type 0
OrderedCells o [] = Unit
OrderedCells o (c ∷ cs) = (o ≤ c.start) × (c.start ≤ c.end) × OrderedCells c.end cs

OrderedCells-weaken : (a b : ℕ) (cs : List Cell) → a ≤ b → OrderedCells b cs → OrderedCells a cs
OrderedCells-weaken a b [] l h = tt
OrderedCells-weaken a b (c ∷ cs) l h = (omega arith, h.1, h.2)

keep-OrderedCells :
    (p : Cell → Bool) (o : ℕ) (cs : List Cell) → OrderedCells o cs → OrderedCells o (keep p cs)
keep-OrderedCells p o [] h = tt
keep-OrderedCells p o (c ∷ cs) h =
    let rest = keep-OrderedCells p c.end cs h.2 in
    elim (Bool-cases (p c)) [
      | inl e ↦ rw (e, OrderedCells) (h.0, h.1, rest)
      | inr e ↦ rw e (OrderedCells-weaken o c.end (keep p cs) (omega arith) rest)
    ]

to_cell-OrderedCells :
    (o : ℕ) (ms : List (Match String)) → Ordered o ms → OrderedCells o (map to_cell ms)
to_cell-OrderedCells o [] h = tt
to_cell-OrderedCells o (m ∷ ms) h = (h.0, h.1, to_cell-OrderedCells m.end ms h.2)

joined_runs-Advances : (n : ℕ) → Advances (joined_runs n)
unfolding joined_runs
joined_runs-Advances zero = pure-Advances {A = String} ""
joined_runs-Advances (suc n) =
    or_else-Advances _ (pure "")
      (bind-Advances (literal " ") _ (literal_by-Advances (λ d c. d == c) " ") λ a.
        bind-Advances (some_of is_solid) _ (some_of-Advances is_solid) λ b.
          bind-Advances (joined_runs n) _ (joined_runs-Advances n)
            λ r. pure-Advances {A = String} (append a (append b r)))
      (pure-Advances {A = String} "")

cell_pattern-Advances : (n : ℕ) → Advances (cell_pattern n)
unfolding cell_pattern
cell_pattern-Advances n = bind-Advances (some_of is_solid) _ (some_of-Advances is_solid) λ a.
    bind-Advances (joined_runs n) _ (joined_runs-Advances n)
      λ r. pure-Advances {A = String} (append a r)

pub parse_cells-OrderedCells : (line : String) → OrderedCells 0 (parse_cells line)
unfolding parse_cells
parse_cells-OrderedCells line =
    to_cell-OrderedCells 0 _ (find_all_at-Ordered (cell_pattern _) (cell_pattern-Advances _) 0 line)

pub group_cells-OrderedCells : (x : ℕ) (line : String) → OrderedCells 0 (group_cells x line)
unfolding group_cells
group_cells-OrderedCells x line =
    keep-OrderedCells (is_group_cell x) 0 (parse_cells line) (parse_cells-OrderedCells line)

pub boundary_at_bounds :
    (a b : Cell) (m : Bool)
    → a.end ≤ b.start
    → (a.end ≤ boundary_at a b m) × (boundary_at a b m ≤ b.start)
unfolding boundary_at
boundary_at_bounds a b m l = ground arith

-- The numbers of a row from a position on.
abbrev pub from_on : ℤ → List IntPos → List IntPos
from_on start ds = keep (λ (d : IntPos). leb_ℤ start (pos d.x)) ds

abbrev pub between : ℤ → ℤ → List IntPos → List IntPos
between start end ds = keep (λ (d : IntPos). leb_ℤ start (pos d.x) && ltb_ℤ (pos d.x) end) ds

pub between-from_on :
    (start b : ℤ) (ds : List IntPos)
    → start ≤ℤ b
    → length (between start b ds) + length (from_on b ds) ≡ length (from_on start ds)
between-from_on start b [] l = refl
between-from_on start b (d ∷ ds) l = ground (arith, between-from_on start b ds l)

pub between_last :
    (start : ℤ) (ds : List IntPos)
    → All (λ (d : IntPos). d.x < 2 ^ 30 - 1) ds
    → length (between start highest ds) ≡ length (from_on start ds)
between_last start [] h = refl
between_last start (d ∷ ds) h = ground (arith, between_last start ds h.1)
