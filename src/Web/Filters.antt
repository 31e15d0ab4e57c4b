-- ===== src/Web/Filters.antt =====
-- internal/web/global_filters.go: the filters that trips inherit.
pub mod Toggling
use lineleader.Base.{Bool, ◌||◌, List, [], ◌∷◌, ◌++◌, String, str_eq, if◌then◌else◌}
use lineleader.Dvc.Types.{Config}
use lineleader.Dvc.Search.{contains_string}

-- `slices.Delete` at `slices.Index`.
unfoldable pub delete_first : List String → String → List String
delete_first [] v = []
delete_first (x ∷ xs) v = let rest = delete_first xs v in if str_eq x v then xs else x ∷ rest

-- `toggleString`
unfoldable pub toggle_string : List String → String → List String
toggle_string s v = if contains_string s v then delete_first s v else s ++ v ∷ []

-- `ToggleResort` on the config in memory, which is kept whether it can be saved or not.
unfoldable pub toggle_resort : Config → String → Config
toggle_resort cfg code = record cfg { exclude_resorts = toggle_string cfg.exclude_resorts code }

-- `ToggleRoomType`
unfoldable pub toggle_room_type : Config → String → Config
toggle_room_type cfg name = record cfg {
  exclude_room_types = toggle_string cfg.exclude_room_types name;
}
