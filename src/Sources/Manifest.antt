-- ===== src/Sources/Manifest.antt =====
-- crates/sources/src/manifest.rs: the paths that say that dependencies changed.
use contextd.Prelude.{
  ◌≡◌, refl, ap, ◌∙◌, Bool, true, false, not, ◌&&◌, ◌||◌, none, some, arith, any, Bool-cases,
  Option-cases, inl, inr,
}
use contextd.Text.{Text, str, text_eq, member, starts_with, ends_with, rsplit_once}
use contextd.Text.Equality.{text_eq→eq}
use contextd.Sources.Paths.{
  FilePath, Component, root, cur_dir, parent_dir, normal, foreign, component_eq, file_name, to_str,
}
use contextd.Sources.Noise.{
  NoiseFilter, is_noise, is_interesting, is_interesting_directory, is_noisy_filename, name_of,
}

unfoldable is_manifest_file_name : Component → Bool
is_manifest_file_name c =
    component_eq c (normal (str "Cargo.toml")) || component_eq c (normal (str "package.json"))

unfoldable has_component : FilePath → Component → Bool
has_component path component = any (λ c. component_eq c component) path

unfoldable pub is_project_manifest_path : FilePath → Bool
unfolding is_manifest_file_name has_component
is_project_manifest_path path = elim (file_name path) [
  | none ↦ false
  | some c ↦ is_manifest_file_name c && not (has_component path (normal (str "node_modules")))
]

cargo_toml-plain : is_noisy_filename (str "Cargo.toml") ≡ false
unfolding is_noisy_filename member any text_eq starts_with ends_with rsplit_once str
cargo_toml-plain = refl

package_json-plain : is_noisy_filename (str "package.json") ≡ false
unfolding is_noisy_filename member any text_eq starts_with ends_with rsplit_once str
package_json-plain = refl

-- A manifest's name is a text that is no noise.
manifest_name-plain :
    (c : Component)
    → is_manifest_file_name c ≡ true
    → (name : Text) × (to_str c ≡ some name) × (is_noisy_filename name ≡ false)
unfolding is_manifest_file_name component_eq to_str
manifest_name-plain (normal name) h = (
  name,
  refl,
  elim (Bool-cases (text_eq name (str "Cargo.toml"))) [
    | inl cargo ↦ ap is_noisy_filename (text_eq→eq name (str "Cargo.toml") cargo) ∙ cargo_toml-plain
    | inr other ↦
        ap is_noisy_filename (text_eq→eq name (str "package.json") (ground arith))
        ∙ package_json-plain
  ],
)
manifest_name-plain root h = ground arith
manifest_name-plain cur_dir h = ground arith
manifest_name-plain parent_dir h = ground arith
manifest_name-plain (foreign bytes) h = ground arith

-- The noise filter never hides a manifest for its name: a path that is recognised as a project's
-- manifest is worth an event exactly if its directories are worth a watch.
is_project_manifest_path-kept :
    (filter : NoiseFilter) (path : FilePath)
    → is_project_manifest_path path ≡ true
    → is_interesting filter path ≡ is_interesting_directory filter path
unfolding is_project_manifest_path is_interesting is_interesting_directory is_noise name_of
is_project_manifest_path-kept filter path h = elim (Option-cases (file_name path)) [
  | inl nameless ↦ absurd (ground arith)
  | inr (c, named) ↦
      let (name, written, plain) = manifest_name-plain c (ground arith) in
      ground (arith, named, written, plain)
]
