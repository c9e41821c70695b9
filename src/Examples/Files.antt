-- ===== src/Examples/Files.antt =====
-- The theorems on the noise filter, at a few paths.
use contextd.Prelude.{◌≡◌, refl, true, false, [], ◌∷◌, ◌++◌, any}
use contextd.Text.{str, text_eq, member, starts_with, ends_with, rsplit_once}
use contextd.Sources.Paths.{FilePath, root, normal, to_str, file_name}
use contextd.Sources.Noise.{
  new, for_config, ignoring, is_interesting, is_interesting_directory, is_noise,
  is_ignored_directory, is_our_own, is_noisy_filename, name_of,
}
use contextd.Sources.Noise.Owned.{is_interesting-ancestors, for_config-owned}

-- /a, and a socket at /s/t
abbrev repo : FilePath
repo = root ∷ normal (97 ∷ []) ∷ []

abbrev socket : FilePath
socket = root ∷ normal (115 ∷ []) ∷ normal (116 ∷ []) ∷ []

is_interesting-ancestors_example : is_interesting_directory new repo ≡ true
unfolding is_interesting is_noise is_ignored_directory is_our_own is_noisy_filename name_of to_str
    file_name any member text_eq starts_with ends_with rsplit_once str
is_interesting-ancestors_example = is_interesting-ancestors new repo (normal (98 ∷ []) ∷ []) refl

for_config-owned_example :
    (is_interesting
        (ignoring (for_config (repo ++ normal (101 ∷ []) ∷ []) socket) socket)
        (repo ++ normal (98 ∷ []) ∷ [])
      ≡ false)
    × (is_interesting_directory
          (ignoring (for_config (repo ++ normal (101 ∷ []) ∷ []) socket) socket)
          (repo ++ normal (98 ∷ []) ∷ [])
        ≡ false)
for_config-owned_example = for_config-owned repo (normal (98 ∷ []) ∷ []) socket socket (101 ∷ [])
