-- ===== src/Examples/Profiles.antt =====
-- The theorems on the managed block, at a small shell profile.
use contextd.Prelude.{◌≡◌, refl, inr, none, some, [], ◌∷◌, ◌++◌, drop, true}
use contextd.Prelude.Result.{ok}
use contextd.Text.{Text, str, starts_with, trim_end}
use contextd.Text.Search.{split_first}
use contextd.Sources.Install.{
  begin_marker, end_marker, Outcome, installed, already_current, Profile, text_file, unreadable,
  Disk, read_or_empty, find_block, end_block, install_shell_hook, uninstall_shell_hook,
}
use contextd.Sources.Install.Block.{IsSnippet}
use contextd.Sources.Install.Twice.{Writes, install_shell_hook-again, install_shell_hook-updated}
use contextd.Sources.Install.Undo.{
  uninstall_shell_hook-install_shell_hook, install_shell_hook-unreadable,
}

-- A file system that takes every write.
abbrev disk : Disk Text
disk = record { create_parent = ok tt; write = λ text old. (ok tt, text_file text) }

disk-Writes : Writes disk
disk-Writes = record { makes = refl; keeps = λ text old. refl }

abbrev tail : Text
tail = 10 ∷ 120 ∷ 10 ∷ (end_marker ++ 10 ∷ [])

abbrev snippet : Text
snippet = begin_marker ++ tail

snippet-IsSnippet : IsSnippet snippet
unfolding split_first str starts_with
snippet-IsSnippet = record {
  body = tail;
  begins = refl;
  inside = begin_marker ++ 10 ∷ 120 ∷ 10 ∷ [];
  ends = refl;
}

-- "a", and a line feed
abbrev profile : Profile
profile = text_file (97 ∷ 10 ∷ [])

profile_free : split_first begin_marker (read_or_empty profile) ≡ none
unfolding split_first str starts_with
profile_free = refl

install_shell_hook-again_example :
    (answer : Outcome) × (left : Profile) × (install_shell_hook disk snippet profile
      ≡ (ok answer, left))
    × (install_shell_hook disk snippet left ≡ (ok already_current, left))
install_shell_hook-again_example =
    install_shell_hook-again disk disk-Writes snippet snippet-IsSnippet profile (inr profile_free)

-- An older block, "b" before it and "c" after it.
abbrev older : Text
older = begin_marker ++ 10 ∷ (end_marker ++ 10 ∷ [])

abbrev updated_profile : Profile
updated_profile = text_file (98 ∷ 10 ∷ (older ++ 99 ∷ []))

updated_profile_block :
    find_block (read_or_empty updated_profile) ≡ some (98 ∷ 10 ∷ [], older, 99 ∷ [])
unfolding find_block end_block split_first str starts_with drop
updated_profile_block = refl

install_shell_hook-updated_example :
    (answer : Outcome) × (left : Profile) × (install_shell_hook disk snippet updated_profile
      ≡ (ok answer, left))
    × (find_block (read_or_empty left) ≡ some (98 ∷ 10 ∷ [], snippet, 99 ∷ []))
install_shell_hook-updated_example =
    install_shell_hook-updated disk disk-Writes snippet snippet-IsSnippet updated_profile
      (98 ∷ 10 ∷ []) older (99 ∷ []) updated_profile_block

uninstall_shell_hook-install_shell_hook_example :
    (left : Profile) × (install_shell_hook disk snippet profile ≡ (ok installed, left))
    × (uninstall_shell_hook disk left ≡ (ok true, text_file (trim_end (97 ∷ 10 ∷ []) ++ 10 ∷ [])))
uninstall_shell_hook-install_shell_hook_example =
    uninstall_shell_hook-install_shell_hook disk disk-Writes snippet snippet-IsSnippet profile
      (97 ∷ 10 ∷ []) refl profile_free

-- The byte 0xff, which is not UTF-8
install_shell_hook-unreadable_example :
    (install_shell_hook disk snippet (unreadable (255 ∷ [])) ≡ (ok installed, text_file snippet))
    × (uninstall_shell_hook disk (text_file snippet) ≡ (ok true, text_file (10 ∷ [])))
install_shell_hook-unreadable_example =
    install_shell_hook-unreadable disk disk-Writes snippet snippet-IsSnippet (255 ∷ [])
