-- ===== src/Sources/Noise/Owned.antt =====
-- Which files and directories the filter of crates/sources/src/noise.rs lets through.
use contextd.Prelude.{◌≡◌, refl, true, false, some, List, [], ◌∷◌, ◌++◌, arith, any, any-append}
use contextd.Text.{Text}
use contextd.Text.Equality.{text_eq_refl}
use contextd.Sources.Paths.{
  FilePath, Component, root, cur_dir, parent_dir, normal, foreign, component_eq, starts_with_path,
  parent,
}
use contextd.Sources.Noise.{
  NoiseFilter, for_config, owned_by, ignoring, is_our_own, is_ignored_name, is_ignored_directory,
  is_noise, is_interesting, is_interesting_directory,
}

component_eq_refl : (c : Component) → component_eq c c ≡ true
unfolding component_eq
component_eq_refl root = refl
component_eq_refl cur_dir = refl
component_eq_refl parent_dir = refl
component_eq_refl (normal name) = text_eq_refl name
component_eq_refl (foreign bytes) = text_eq_refl bytes

starts_with_path_refl : (base rest : FilePath) → starts_with_path (base ++ rest) base ≡ true
unfolding starts_with_path
starts_with_path_refl [] rest = refl
starts_with_path_refl (c ∷ base) rest = rw component_eq_refl (starts_with_path_refl base rest)

starts_with_path-append :
    (path rest base : FilePath)
    → starts_with_path path base ≡ true
    → starts_with_path (path ++ rest) base ≡ true
unfolding starts_with_path
starts_with_path-append path rest [] h = refl
starts_with_path-append [] rest (b ∷ base) h = ground arith
starts_with_path-append (c ∷ path) rest (b ∷ base) h =
    ground (arith, starts_with_path-append path rest base)

own-append :
    (path rest : FilePath) (owned : List FilePath)
    → any (starts_with_path path) owned ≡ true
    → any (starts_with_path (path ++ rest)) owned ≡ true
unfolding any
own-append path rest [] h = ground arith
own-append path rest (o ∷ owned) h =
    ground (arith, starts_with_path-append path rest o, own-append path rest owned)

ignored-below :
    (filter : NoiseFilter) (path rest : FilePath)
    → is_ignored_directory filter path ≡ true
    → is_ignored_directory filter (path ++ rest) ≡ true
unfolding is_ignored_directory is_our_own
ignored-below filter path rest h = ground (
  arith,
  own-append path rest filter.own_paths,
  any-append (is_ignored_name filter.ignored_directories) path rest,
)

-- A path that is worth an event lies in directories that are all worth a watch: no directory that
-- the watcher leaves out holds an interesting file, at any depth.
pub is_interesting-ancestors :
    (filter : NoiseFilter) (path rest : FilePath)
    → is_interesting filter (path ++ rest) ≡ true
    → is_interesting_directory filter path ≡ true
unfolding is_interesting is_noise is_interesting_directory
is_interesting-ancestors filter path rest h = ground (arith, ignored-below filter path rest)

parent-append : (up : FilePath) (name : Text) → parent (up ++ normal name ∷ []) ≡ some up
unfolding parent
parent-append [] name = refl
parent-append (c ∷ []) name = refl
parent-append (c ∷ d ∷ up) name = rw (parent-append (d ∷ up) name) refl

owned_by-parent :
    (up rest : FilePath) (name : Text)
    → any (starts_with_path (up ++ rest)) (owned_by (up ++ normal name ∷ [])) ≡ true
unfolding owned_by any
owned_by-parent up rest name =
    rw (parent-append up name, owned_by) (ground (arith, starts_with_path_refl up rest))

for_config-ignored :
    (up rest socket_path : FilePath) (name : Text)
    → is_our_own (for_config (up ++ normal name ∷ []) socket_path) (up ++ rest) ≡ true
unfolding is_our_own for_config
for_config-ignored up rest socket_path name = ground (
  arith,
  owned_by-parent up rest name,
  any-append (starts_with_path (up ++ rest)) (owned_by (up ++ normal name ∷ []))
      (owned_by socket_path),
)

own-dropped :
    (filter : NoiseFilter) (path : FilePath)
    → is_our_own filter path ≡ true
    → (is_interesting filter path ≡ false) × (is_interesting_directory filter path ≡ false)
unfolding is_interesting is_noise is_interesting_directory is_ignored_directory
own-dropped filter path h = ground arith

ignoring-own :
    (filter : NoiseFilter) (path more : FilePath)
    → is_our_own filter path ≡ true
    → is_our_own (ignoring filter more) path ≡ true
unfolding is_our_own ignoring
ignoring-own filter path more h =
    ground (arith, any-append (starts_with_path path) filter.own_paths (more ∷ []))

-- Nothing in the directory of the database, at any depth, is worth an event or a watch, wherever the
-- socket is and whatever path is ignored besides.
pub for_config-owned :
    (up rest socket_path more : FilePath) (name : Text)
    → (is_interesting (ignoring (for_config (up ++ normal name ∷ []) socket_path) more) (up ++ rest)
        ≡ false)
      × (is_interesting_directory
            (ignoring (for_config (up ++ normal name ∷ []) socket_path) more)
            (up ++ rest)
          ≡ false)
for_config-owned up rest socket_path more name =
    let filter = for_config (up ++ normal name ∷ []) socket_path in
    own-dropped (ignoring filter more) (up ++ rest)
      (ignoring-own filter (up ++ rest) more (for_config-ignored up rest socket_path name))
