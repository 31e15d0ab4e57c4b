-- ===== src/Dvc/Search/Laws.antt =====
-- What `Search` promises of its results.
use lineleader.Base.{
  ℕ, suc, ◌-◌, ◌≡◌, refl, inl, inr, ◌⊎◌, Bool, true, false, none, some, List, [], ◌∷◌, arith,
  if◌then◌else◌, All, All-map, ◌≤◌, ◌∙◌, sym, ltb→ge,
}
use mathlib.Core.Path.{subst}
use mathlib.Core.Option.{some-injective}
use lineleader.Base.Sort.{sort_slice, IsSorted, sort_slice-IsSorted, All-sort_slice}
use lineleader.Calendar.{Calendar}
use lineleader.Dvc.Types.{Column, ResortChart, SearchParams, StayResult}
use lineleader.Dvc.Search.{
  Found, check_ins, contains_string, query, search_columns, search_charts, stay_before, search,
}
use lineleader.Dvc.Search.Nights.{
  IsStay, AllFound, AllFound-join, check_ins-check_in, check_ins_sound,
}
use lineleader.Base.Int.{ℤ, ◌≤ℤ◌, eqb_ℤ}

module _ (cal : Calendar) (params : SearchParams) where
  -- A stay of one of the columns, which are numbered from `i`, in a room type that is wanted and
  -- from the start of the window on.
  abbrev pub FromColumns : ResortChart → ℕ → List Column → StayResult → Type 0
  FromColumns chart i [] r = ⊥
  FromColumns chart i (col ∷ cols) r =
      ((contains_string params.exclude_room_types col.room_type ≡ false)
        × IsStay (query cal params chart i col) r
        × (params.window_start ≤ r.check_in))
      ⊎ FromColumns chart (suc i) cols r

  -- A stay of a resort that is wanted.
  abbrev pub FromCharts : List ResortChart → StayResult → Type 0
  FromCharts [] r = ⊥
  FromCharts (chart ∷ charts) r =
      ((contains_string params.exclude_resorts chart.resort_code ≡ false)
        × FromColumns chart 0 chart.columns r)
      ⊎ FromCharts charts r

  AllFound-map :
      (P Q : StayResult → Type 0) (f : Found)
      → ((r : StayResult) → P r → Q r)
      → AllFound P f
      → AllFound Q f
  AllFound-map P Q none h a = tt
  AllFound-map P Q (some rs) h a = All-map P Q h rs a

  AllFound-both :
      (P P' Q : StayResult → Type 0) (f : Found)
      → ((r : StayResult) → P r → P' r → Q r)
      → AllFound P f
      → AllFound P' f
      → AllFound Q f
  AllFound-both P P' Q none h a b = tt
  AllFound-both P P' Q (some []) h a b = tt
  AllFound-both P P' Q (some (r ∷ rs)) h a b =
      (h r a.0 b.0, AllFound-both P P' Q (some rs) h a.1 b.1)

  AllFound-if :
      (P : StayResult → Type 0) (b : Bool) (f : Found)
      → (b ≡ false → AllFound P f)
      → AllFound P (if b then some [] else f)
  AllFound-if P true f h = tt
  AllFound-if P false f h = h refl

  search_columns_sound :
      (chart : ResortChart) (i : ℕ) (cols : List Column)
      → AllFound (FromColumns chart i cols) (search_columns cal params chart i cols)
  unfolding search_columns
  search_columns_sound chart i [] = tt
  search_columns_sound chart i (col ∷ cols) =
      let q = query cal params chart i col in
      let days = params.window_end - params.window_start in
      let stays = check_ins q days params.window_start in
      AllFound-join (FromColumns chart i (col ∷ cols)) _ _
        (AllFound-if (FromColumns chart i (col ∷ cols))
          (contains_string params.exclude_room_types col.room_type) stays
          (λ wanted.
            AllFound-both (IsStay q) _ (FromColumns chart i (col ∷ cols)) stays
              (λ r s l. inl (wanted, s, l)) (check_ins_sound q days params.window_start)
              (check_ins-check_in q days params.window_start)))
        (AllFound-map _ _ (search_columns cal params chart (suc i) cols) (λ r s. inr s)
          (search_columns_sound chart (suc i) cols))

  search_charts_sound :
      (charts : List ResortChart) → AllFound (FromCharts charts) (search_charts cal params charts)
  unfolding search_charts
  search_charts_sound [] = tt
  search_charts_sound (chart ∷ charts) =
      AllFound-join (FromCharts (chart ∷ charts)) _ _
        (AllFound-if (FromCharts (chart ∷ charts))
          (contains_string params.exclude_resorts chart.resort_code)
          (search_columns cal params chart 0 chart.columns)
          (λ wanted.
            AllFound-map _ _ (search_columns cal params chart 0 chart.columns)
              (λ r s. inl (wanted, s)) (search_columns_sound chart 0 chart.columns)))
        (AllFound-map _ _ (search_charts cal params charts) (λ r s. inr s)
          (search_charts_sound charts))

stay_before_asym : (a b : StayResult) → stay_before a b ≡ true → stay_before b a ≡ false
unfolding stay_before
stay_before_asym a b h = ground arith

-- The results ascend by points, and by check-in among those of equal points.
abbrev pub Ascends : List StayResult → Type 0
Ascends [] = Unit
Ascends (a ∷ []) = Unit
Ascends (a ∷ b ∷ rs) =
    (a.points ≤ℤ b.points) × (a.points ≡ b.points → a.check_in ≤ b.check_in) × Ascends (b ∷ rs)

stay_before-points : (a b : StayResult) → stay_before b a ≡ false → a.points ≤ℤ b.points
unfolding stay_before
stay_before-points a b h = ground arith

stay_before-check_in :
    (a b : StayResult) → stay_before b a ≡ false → a.points ≡ b.points → a.check_in ≤ b.check_in
unfolding stay_before
stay_before-check_in a b h e =
    ltb→ge b.check_in a.check_in (sym (tie (eqb_ℤ b.points a.points) _ _ (same _ _ e)) ∙ h)
  where
    same : (m n : ℤ) → m ≡ n → eqb_ℤ n m ≡ true
    same m n e = ground arith

    tie : (c x y : Bool) → c ≡ true → (if c then x else y) ≡ x
    tie true x y h = refl
    tie false x y h = cc

IsSorted-Ascends : (rs : List StayResult) → IsSorted stay_before rs → Ascends rs
IsSorted-Ascends [] s = tt
IsSorted-Ascends (a ∷ []) s = tt
IsSorted-Ascends (a ∷ b ∷ rs) s =
    (stay_before-points a b s.0, stay_before-check_in a b s.0, IsSorted-Ascends (b ∷ rs) s.1)

-- The sorted results of a list that was found.
IsSorted-found :
    (P : StayResult → Type 0) (f : Found) (rs : List StayResult)
    → AllFound P f
    → (elim f [ none ↦ none | some results ↦ some (sort_slice stay_before results) ]) ≡ some rs
    → All P rs × IsSorted stay_before rs
IsSorted-found P none rs a e = absurd (never rs e)
  where
    never : (rs : List StayResult) → none ≡ some rs → ⊥
    never rs h = cc
IsSorted-found P (some results) rs a e =
    subst (λ l. All P l × IsSorted stay_before l) (some-injective _ _ e)
      (
        All-sort_slice stay_before P results a,
        sort_slice-IsSorted stay_before stay_before_asym results,
      )

-- Every result of a search that does not panic is a stay of a column of one of the charts, whose
-- room type and resort are not excluded; it lies within the window, has between the minimum (one
-- at least) and `MaxNights` nights, and costs the sum of its nights, which the budget covers. The
-- results ascend by points, then by check-in.
pub search_sound :
    (cal : Calendar) (charts : List ResortChart) (params : SearchParams) (rs : List StayResult)
    → search cal charts params ≡ some rs
    → All (FromCharts cal params charts) rs × Ascends rs
unfolding search
search_sound cal charts params rs e =
    let s =
      IsSorted-found (FromCharts cal params charts) (search_charts cal params charts) rs
        (search_charts_sound cal params charts) e in
    (s.0, IsSorted-Ascends rs s.1)
