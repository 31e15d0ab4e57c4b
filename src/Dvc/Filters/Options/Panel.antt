-- ===== src/Dvc/Filters/Options/Panel.antt =====
-- What a filter panel offers.
use mathlib.Core.Path.{subst}
use mathlib.Core.List.{append_assoc, append-nil}
use lineleader.Base.{
  true, false, not, ◌||◌, List, [], ◌∷◌, ◌++◌, ◌≡◌, refl, sym, ◌∙◌, ap, String, str_eq, map, foldl,
  any, All, sum_of, arith, Bool-cases, inl, inr, if◌then◌else◌,
}
use lineleader.Base.Int.{ℤ}
use lineleader.Base.Sort.{IsSorted, sort_slice, sum_of-sort_slice, sort_slice-IsSorted}
use lineleader.Base.Text.{Text, codes}
use lineleader.Dvc.Search.{contains_string}
use lineleader.Dvc.Types.{Column, FilterSet, ResortChart}
use lineleader.Dvc.Filters.Options.{
  less_text, less_string, ResortOption, RoomTypeOption, FilterOptionsView, add_new, distinct,
  resort_names, name_in, all_columns, room_types_of, filter_options_for,
}
use lineleader.Dvc.Filters.Options.Distinct.{has_key, occurs, one_if, key_there, times-distinct}

less_text_asym : (s t : Text) → less_text s t ≡ true → less_text t s ≡ false
unfolding less_text
less_text_asym [] [] h = refl
less_text_asym [] (d ∷ t) h = refl
less_text_asym (c ∷ s) [] h = cc
less_text_asym (c ∷ s) (d ∷ t) h = ground (arith, less_text_asym s t)

abbrev Named : Type 0
Named = String × String

-- The name of the first chart with a code.
abbrev pub first_name : List ResortChart → String → String
first_name [] k = ""
first_name (c ∷ cs) k =
    let rest = first_name cs k in if str_eq c.resort_code k then c.resort_name else rest

module _ (k : String) where
  -- A name behind one with the same code, or of another code, is not found.
  name_in_skip :
      (acc : List Named) (x : Named) (xs : List Named)
      → (has_key (λ (p : Named). p.0) k acc || not (str_eq x.0 k)) ≡ true
      → name_in (acc ++ xs) k ≡ name_in (acc ++ (x ∷ xs)) k
  unfolding name_in
  name_in_skip [] x xs h = ground arith
  name_in_skip (y ∷ acc) x xs h = ground (arith, name_in_skip acc x xs)

  name_in-add_new :
      (acc : List Named) (x : Named) (xs : List Named)
      → name_in (add_new (λ (p : Named). p.0) acc x ++ xs) k ≡ name_in (acc ++ (x ∷ xs)) k
  unfolding add_new
  name_in-add_new acc x xs = elim (Bool-cases (any (λ (y : Named). str_eq y.0 x.0) acc)) [
    | inl h ↦ rw h (elim (Bool-cases (str_eq x.0 k)) [
      | inl e ↦
          name_in_skip acc x xs (ground (arith, key_there (λ (p : Named). p.0) k x acc true e h))
      | inr e ↦ name_in_skip acc x xs (ground arith)
    ])
    | inr h ↦ rw h (ap (λ (l : List Named). name_in l k) (append_assoc acc (x ∷ []) xs))
  ]

  name_in-foldl :
      (acc xs : List Named)
      → name_in (foldl (add_new (λ (p : Named). p.0)) acc xs) k ≡ name_in (acc ++ xs) k
  name_in-foldl acc [] = ap (λ (l : List Named). name_in l k) (sym (append-nil acc))
  name_in-foldl acc (x ∷ xs) =
      name_in-foldl (add_new (λ (p : Named). p.0) acc x) xs ∙ name_in-add_new acc x xs

  name_in-charts :
      (charts : List ResortChart)
      → name_in (map (λ (c : ResortChart). (c.resort_code, c.resort_name)) charts) k
        ≡ first_name charts k
  unfolding name_in
  name_in-charts [] = refl
  name_in-charts (c ∷ cs) = rw (name_in-charts cs) refl

  name_in-resort_names :
      (charts : List ResortChart) → name_in (resort_names charts) k ≡ first_name charts k
  unfolding resort_names distinct
  name_in-resort_names charts =
      name_in-foldl [] (map (λ (c : ResortChart). (c.resort_code, c.resort_name)) charts)
      ∙ name_in-charts charts

  has_key-charts :
      (charts : List ResortChart)
      → has_key
          (λ (p : Named). p.0)
          k
          (map (λ (c : ResortChart). (c.resort_code, c.resort_name)) charts)
        ≡ any (λ (c : ResortChart). str_eq c.resort_code k) charts
  has_key-charts [] = refl
  has_key-charts (c ∷ cs) = rw (has_key-charts cs) refl

  has_key-columns :
      (cols : List Column)
      → has_key (λ (s : String). s) k (map (λ (c : Column). c.room_type) cols)
        ≡ any (λ (c : Column). str_eq c.room_type k) cols
  has_key-columns [] = refl
  has_key-columns (c ∷ cs) = rw (has_key-columns cs) refl

sum_of-map {ℓ κ} :
    {A : Type ℓ} {B : Type κ} (f : B → ℤ) (g : A → B) (xs : List A)
    → sum_of f (map g xs) ≡ sum_of (λ x. f (g x)) xs
sum_of-map f g [] = refl
sum_of-map f g (x ∷ xs) = rw (sum_of-map f g xs) refl

All-of-map {ℓ κ} :
    {A : Type ℓ} {B : Type κ} (P : B → Type 0) (g : A → B) (xs : List A)
    → ((x : A) → P (g x))
    → All P (map g xs)
All-of-map P g [] h = tt
All-of-map P g (x ∷ xs) h = (h x, All-of-map P g xs h)

map_id :
    {A : Type 0} (g : String → A) (f : A → String) (xs : List String)
    → ((s : String) → f (g s) ≡ s)
    → map f (map g xs) ≡ xs
map_id g f [] h = refl
map_id g f (x ∷ xs) h = rw (h x, map_id g f xs h) refl

resort_times :
    (charts : List ResortChart) (k : String)
    → sum_of (λ (p : Named). occurs k p.0) (resort_names charts)
      ≡ one_if (
          has_key
            (λ (p : Named). p.0)
            k
            (map (λ (c : ResortChart). (c.resort_code, c.resort_name)) charts))
unfolding resort_names
resort_times charts k = times-distinct (λ (p : Named). p.0) k _

room_times :
    (charts : List ResortChart) (k : String)
    → sum_of (occurs k) (room_types_of charts)
      ≡ one_if
          (has_key (λ (s : String). s) k (map (λ (c : Column). c.room_type) (all_columns charts)))
unfolding room_types_of
room_times charts k = times-distinct (λ (s : String). s) k _

-- What a panel promises: each resort of the charts and each room type of their columns is listed once,
-- and nothing else, in the order of the codes and names; a resort has the name of its first chart; and
-- a box is ticked exactly if the set does not exclude it.
pub record IsPanel (charts : List ResortChart) (excluded : FilterSet) (v : FilterOptionsView)
    : Type 0 where
  pub resorts_once :
      (k : String)
      → sum_of (λ (o : ResortOption). occurs k o.code) v.resorts
        ≡ one_if (any (λ (c : ResortChart). str_eq c.resort_code k) charts)
  pub resorts_sorted : IsSorted less_string (map (λ (o : ResortOption). o.code) v.resorts)
  pub resorts_named :
      All
        (λ (o : ResortOption).
          (o.name ≡ first_name charts o.code)
          × (o.enabled ≡ not (contains_string excluded.exclude_resorts o.code)))
        v.resorts
  pub rooms_once :
      (k : String)
      → sum_of (λ (o : RoomTypeOption). occurs k o.name) v.room_types
        ≡ one_if (any (λ (c : Column). str_eq c.room_type k) (all_columns charts))
  pub rooms_sorted : IsSorted less_string (map (λ (o : RoomTypeOption). o.name) v.room_types)
  pub rooms_ticked :
      All
        (λ (o : RoomTypeOption).
          o.enabled ≡ not (contains_string excluded.exclude_room_types o.name))
        v.room_types

sort_slice-less_string : (xs : List String) → IsSorted less_string (sort_slice less_string xs)
sort_slice-less_string xs =
    sort_slice-IsSorted less_string (λ s t h. less_text_asym (codes s) (codes t) h) xs

-- `FilterOptionsFor` gives such a panel for any charts and any set.
pub filter_options_for-IsPanel :
    (charts : List ResortChart) (excluded : FilterSet)
    → IsPanel charts excluded (filter_options_for charts excluded)
unfolding filter_options_for
filter_options_for-IsPanel charts excluded =
    let resort = λ (code : String).
      let o : ResortOption = record {
        code = code;
        name = name_in (resort_names charts) code;
        enabled = not (contains_string excluded.exclude_resorts code);
      } in
      o in
    let room = λ (rt : String).
      let o : RoomTypeOption = record {
        name = rt;
        enabled = not (contains_string excluded.exclude_room_types rt);
      } in
      o in
    let codes_listed = map (λ (p : Named). p.0) (resort_names charts) in
    record {
      resorts_once = λ k.
          sum_of-map (λ (o : ResortOption). occurs k o.code) resort
            (sort_slice less_string codes_listed)
          ∙ sum_of-sort_slice less_string (occurs k) codes_listed
          ∙ sum_of-map (occurs k) (λ (p : Named). p.0) (resort_names charts)
          ∙ resort_times charts k
          ∙ ap one_if (has_key-charts k charts);
      resorts_sorted =
          subst (IsSorted less_string)
            (sym (
              map_id resort (λ (o : ResortOption). o.code) (sort_slice less_string codes_listed)
                (λ s. refl)))
            (sort_slice-less_string codes_listed);
      resorts_named =
          All-of-map _ resort (sort_slice less_string codes_listed)
            (λ s. (name_in-resort_names s charts, refl));
      rooms_once = λ k.
          sum_of-map (λ (o : RoomTypeOption). occurs k o.name) room
            (sort_slice less_string (room_types_of charts))
          ∙ sum_of-sort_slice less_string (occurs k) (room_types_of charts)
          ∙ room_times charts k
          ∙ ap one_if (has_key-columns k (all_columns charts));
      rooms_sorted =
          subst (IsSorted less_string)
            (sym (
              map_id room (λ (o : RoomTypeOption). o.name)
                (sort_slice less_string (room_types_of charts)) (λ s. refl)))
            (sort_slice-less_string (room_types_of charts));
      rooms_ticked = All-of-map _ room (sort_slice less_string (room_types_of charts)) (λ s. refl);
    }
