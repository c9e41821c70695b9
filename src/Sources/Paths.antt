-- ===== src/Sources/Paths.antt =====
-- What crates/sources uses of `std::path`: a path is the list of its components, as `components()`
-- gives them.
use contextd.Prelude.{ℕ, Bool, true, false, ◌&&◌, Option, none, some, List, [], ◌∷◌}
use contextd.Text.{Text, str, text_eq}

pub data Component : Type 0 where
  root cur_dir parent_dir : Component
  normal : Text → Component
  -- a name that is not UTF-8, with its bytes
  foreign : List ℕ → Component

abbrev pub FilePath : Type 0
FilePath = List Component

-- `==` on components
unfoldable pub component_eq : Component → Component → Bool
component_eq root root = true
component_eq cur_dir cur_dir = true
component_eq parent_dir parent_dir = true
component_eq (normal a) (normal b) = text_eq a b
component_eq (foreign a) (foreign b) = text_eq a b
component_eq _ _ = false

-- `path.starts_with(base)`
unfoldable pub starts_with_path : FilePath → FilePath → Bool
starts_with_path path [] = true
starts_with_path [] (b ∷ base) = false
starts_with_path (c ∷ path) (b ∷ base) = component_eq c b && starts_with_path path base

-- `component.as_os_str().to_str()`
unfoldable pub to_str : Component → Option Text
to_str root = some (str "/")
to_str cur_dir = some (str ".")
to_str parent_dir = some (str "..")
to_str (normal name) = some name
to_str (foreign bytes) = none

-- `path.file_name()`, as a component
unfoldable pub file_name : FilePath → Option Component
file_name [] = none
file_name (normal name ∷ []) = some (normal name)
file_name (foreign bytes ∷ []) = some (foreign bytes)
file_name (c ∷ []) = none
file_name (c ∷ d ∷ path) = file_name (d ∷ path)

-- `path.parent()`: none for the empty path and for a path that ends in the root
unfoldable pub parent : FilePath → Option FilePath
parent [] = none
parent (root ∷ []) = none
parent (c ∷ []) = some []
parent (c ∷ d ∷ path) = elim (parent (d ∷ path)) [ none ↦ none | some up ↦ some (c ∷ up) ]
