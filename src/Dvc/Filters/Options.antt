-- ===== src/Dvc/Filters/Options.antt =====
-- internal/dvc/filters.go: `FilterOptionsFor`, the resorts and the room types of a filter panel.
pub mod Distinct
pub mod Panel
use lineleader.Base.{
  ℕ, Bool, true, false, not, ◌||◌, List, [], ◌∷◌, ◌++◌, String, str_eq, map, foldl, any, ltb, ◌==◌,
  ◌&&◌, if◌then◌else◌,
}
use lineleader.Base.Sort.{sort_slice}
use lineleader.Base.Text.{Text, codes}
use lineleader.Dvc.Search.{contains_string}
use lineleader.Dvc.Types.{Column, FilterSet, ResortChart}

-- The order of Go's strings.
unfoldable pub less_text : Text → Text → Bool
less_text [] [] = false
less_text [] (d ∷ t) = true
less_text (c ∷ s) [] = false
less_text (c ∷ s) (d ∷ t) = ltb c d || ((c == d) && less_text s t)

abbrev pub less_string : String → String → Bool
less_string s t = less_text (codes s) (codes t)

pub record ResortOption : Type 0 where
  pub code : String
  pub name : String
  pub enabled : Bool

pub record RoomTypeOption : Type 0 where
  pub name : String
  pub enabled : Bool

pub record FilterOptionsView : Type 0 where
  pub resorts : List ResortOption
  pub room_types : List RoomTypeOption

-- An element is appended where its key is not there yet.
unfoldable pub add_new : {A : Type 0} → (A → String) → List A → A → List A
add_new key xs x = if any (λ y. str_eq (key y) (key x)) xs then xs else xs ++ (x ∷ [])

unfoldable pub distinct : {A : Type 0} → (A → String) → List A → List A
distinct key xs = foldl (add_new key) [] xs

-- `resortNames`, in the order of `resortCodes`.
unfoldable pub resort_names : List ResortChart → List (String × String)
resort_names charts =
    distinct (λ (p : String × String). p.0)
      (map (λ (c : ResortChart). (c.resort_code, c.resort_name)) charts)

unfoldable pub name_in : List (String × String) → String → String
name_in [] code = ""
name_in (p ∷ ps) code = let rest = name_in ps code in if str_eq p.0 code then p.1 else rest

unfoldable pub all_columns : List ResortChart → List Column
all_columns [] = []
all_columns (c ∷ cs) = c.columns ++ all_columns cs

-- `roomTypes` before it is sorted.
unfoldable pub room_types_of : List ResortChart → List String
room_types_of charts =
    distinct (λ (s : String). s) (map (λ (col : Column). col.room_type) (all_columns charts))

-- `FilterOptionsFor`
unfoldable pub filter_options_for : List ResortChart → FilterSet → FilterOptionsView
filter_options_for charts excluded =
    let names = resort_names charts in
    record {
      resorts =
          map
            (λ (code : String). record {
              code = code;
              name = name_in names code;
              enabled = not (contains_string excluded.exclude_resorts code);
            })
            (sort_slice less_string (map (λ (p : String × String). p.0) names));
      room_types =
          map
            (λ (rt : String). record {
              name = rt;
              enabled = not (contains_string excluded.exclude_room_types rt);
            })
            (sort_slice less_string (room_types_of charts));
    }
