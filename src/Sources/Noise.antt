-- ===== src/Sources/Noise.antt =====
-- crates/sources/src/noise.rs: the paths that are not worth an event, or a watch.
pub mod Owned
use contextd.Prelude.{
  Bool, true, false, not, ◌&&◌, ◌||◌, Option, none, some, List, [], ◌∷◌, ◌++◌, any, if◌then◌else◌,
}
use contextd.Text.{Text, str, starts_with, ends_with, rsplit_once, member}
use contextd.Sources.Paths.{FilePath, Component, starts_with_path, to_str, file_name, parent}

abbrev pub ignored_directory_names : List Text
ignored_directory_names =
    str ".git"
    ∷ str ".hg"
    ∷ str ".svn"
    ∷ str "target"
    ∷ str "build"
    ∷ str "dist"
    ∷ str "out"
    ∷ str "node_modules"
    ∷ str "vendor"
    ∷ str "__pycache__"
    ∷ str ".venv"
    ∷ str "venv"
    ∷ str ".tox"
    ∷ str ".mypy_cache"
    ∷ str ".pytest_cache"
    ∷ str ".ruff_cache"
    ∷ str ".gradle"
    ∷ str "Pods"
    ∷ str "DerivedData"
    ∷ str ".next"
    ∷ str ".nuxt"
    ∷ str ".svelte-kit"
    ∷ str ".turbo"
    ∷ str ".parcel-cache"
    ∷ str ".cache"
    ∷ str ".terraform"
    ∷ str "coverage"
    ∷ str ".idea"
    ∷ str ".vscode"
    ∷ []

abbrev ignored_extensions : List Text
ignored_extensions =
    str "log"
    ∷ str "tmp"
    ∷ str "temp"
    ∷ str "swp"
    ∷ str "swo"
    ∷ str "swx"
    ∷ str "pyc"
    ∷ str "pyo"
    ∷ str "class"
    ∷ str "o"
    ∷ str "obj"
    ∷ str "lock~"
    ∷ str "bak"
    ∷ str "orig"
    ∷ str "rej"
    ∷ []

abbrev ignored_filenames : List Text
ignored_filenames = str ".DS_Store" ∷ str "Thumbs.db" ∷ str "desktop.ini" ∷ []

pub record NoiseFilter : Type 0 where
  pub own_paths : List FilePath
  pub ignored_directories : List Text

-- `NoiseFilter::new()`
abbrev pub new : NoiseFilter
new = record { own_paths = []; ignored_directories = ignored_directory_names }

-- What one configured path adds to `own_paths`.
unfoldable pub owned_by : FilePath → List FilePath
owned_by path = elim (parent path) [ none ↦ path ∷ [] | some up ↦ path ∷ up ∷ [] ]

-- `for_config`, on the paths of the database and of the socket
unfoldable pub for_config : FilePath → FilePath → NoiseFilter
for_config db_path socket_path = record new { own_paths = owned_by db_path ++ owned_by socket_path }

unfoldable pub ignoring : NoiseFilter → FilePath → NoiseFilter
ignoring filter path = record filter { own_paths = filter.own_paths ++ path ∷ [] }

unfoldable pub is_our_own : NoiseFilter → FilePath → Bool
is_our_own filter path = any (starts_with_path path) filter.own_paths

abbrev pub is_ignored_name : List Text → Component → Bool
is_ignored_name names c = elim (to_str c) [ none ↦ false | some name ↦ member name names ]

unfoldable pub is_ignored_directory : NoiseFilter → FilePath → Bool
is_ignored_directory filter path =
    is_our_own filter path || any (is_ignored_name filter.ignored_directories) path

unfoldable pub is_noisy_filename : Text → Bool
is_noisy_filename name =
    member name ignored_filenames
    || starts_with name (str ".#")
    || (starts_with name (str "#") && ends_with name (str "#"))
    || ends_with name (str "~")
    || ends_with name (str "-journal")
    || ends_with name (str "-wal")
    || ends_with name (str "-shm")
    || (elim (rsplit_once b'.' name) [
      | some (stem, extension) ↦ member extension ignored_extensions
      | none ↦ false
    ])

-- The name that `is_noise` looks at, if there is one in UTF-8.
unfoldable pub name_of : FilePath → Option Text
name_of path = elim (file_name path) [ none ↦ none | some c ↦ to_str c ]

unfoldable pub is_noise : NoiseFilter → FilePath → Bool
is_noise filter path =
    if is_ignored_directory filter path
    then true
    else elim (name_of path) [ none ↦ false | some name ↦ is_noisy_filename name ]

unfoldable pub is_interesting : NoiseFilter → FilePath → Bool
is_interesting filter path = not (is_noise filter path)

unfoldable pub is_interesting_directory : NoiseFilter → FilePath → Bool
is_interesting_directory filter path = not (is_ignored_directory filter path)
