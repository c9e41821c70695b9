-- ===== src/Sources/Install/Twice.antt =====
-- What a second run of `install_shell_hook` of crates/sources/src/install.rs finds.
use contextd.Prelude.{
  ap, refl, ◌≡◌, ◌≢◌, sym, ◌⊎◌, inl, inr, false, none, some, [], ◌++◌, append-nil, append_assoc,
  Bool-cases, Option-cases,
}
use contextd.Prelude.Result.{ok}
use contextd.Text.{Text, text_eq}
use contextd.Text.Equality.{text_eq→eq, text_eq_refl}
use contextd.Text.Search.{split_first, split_first-replace}
use contextd.Sources.Install.{
  begin_marker, Outcome, installed, updated, already_current, Profile, text_file, Disk,
  read_or_empty, find_block, separator, write_then, answer_with, install_shell_hook,
}
use contextd.Sources.Install.Block.{
  IsSnippet, find_block-at, appended, split_first-appended, find_block-begins, find_block-none,
}

-- The file system takes every write.
pub record Writes {E : Type 0} (disk : Disk E) : Type 0 where
  pub makes : Disk.create_parent disk ≡ ok tt
  pub keeps : (text : Text) (old : Profile) → Disk.write disk text old ≡ (ok tt, text_file text)

pub write_then-ok :
    {E A : Type 0} (disk : Disk E)
    → Writes disk
    → (text : Text) (answer : A) (profile : Profile)
    → write_then disk text answer profile ≡ (ok answer, text_file text)
unfolding write_then answer_with
write_then-ok disk writes text answer profile =
    ap (answer_with answer) (Writes.keeps writes text profile)

module _ {E : Type 0} (disk : Disk E) (snippet : Text) where
  install_shell_hook-appends :
      Writes disk
      → (profile : Profile) → find_block (read_or_empty profile) ≡ none
      → install_shell_hook disk snippet profile
        ≡ (ok installed, text_file (appended (read_or_empty profile) snippet))
  unfolding install_shell_hook
  install_shell_hook-appends writes profile h =
      rw (h, install_shell_hook, Writes.makes writes)
        (write_then-ok disk writes _ installed profile)

  install_shell_hook-replaces :
      Writes disk
      → (profile : Profile) (before block after : Text)
      → find_block (read_or_empty profile) ≡ some (before, block, after)
      → text_eq block snippet ≡ false
      → install_shell_hook disk snippet profile
        ≡ (ok updated, text_file (before ++ (snippet ++ after)))
  unfolding install_shell_hook
  install_shell_hook-replaces writes profile before block after h differs =
      rw (h, install_shell_hook, differs) (write_then-ok disk writes _ updated profile)

  install_shell_hook-current :
      (profile : Profile) (before after : Text)
      → find_block (read_or_empty profile) ≡ some (before, snippet, after)
      → install_shell_hook disk snippet profile ≡ (ok already_current, profile)
  unfolding install_shell_hook
  install_shell_hook-current profile before after h =
      rw (h, install_shell_hook, text_eq_refl snippet)

module _ {E : Type 0} (disk : Disk E) (writes : Writes disk) (snippet : Text)
    (whole : IsSnippet snippet) where
  -- For a profile with no begin marker, a file system that takes every write and a snippet with
  -- one end marker, at its end: installing answers `Installed`, and the profile's first block is
  -- then the snippet, behind the user's whole text and the separator, with nothing else in the file.
  pub install_shell_hook-installed :
      (profile : Profile)
      → split_first begin_marker (read_or_empty profile) ≡ none
      → (left : Text) × (install_shell_hook disk snippet profile ≡ (ok installed, text_file left))
        × (left ≡ appended (read_or_empty profile) snippet)
        × (find_block left
            ≡ some (read_or_empty profile ++ separator (read_or_empty profile), snippet, []))
  install_shell_hook-installed profile h =
      let existing = read_or_empty profile in
      (
        appended existing snippet,
        install_shell_hook-appends disk snippet writes profile (find_block-none existing h),
        refl,
        find_block-at snippet whole (appended existing snippet) _ [] (begins existing h),
      )
    where
      begins :
          (existing : Text)
          → split_first begin_marker existing ≡ none
          → split_first begin_marker (appended existing snippet)
            ≡ some (existing ++ separator existing, IsSnippet.body whole ++ [])
      begins existing h =
          rw (append-nil, IsSnippet.begins whole)
            (split_first-appended existing (IsSnippet.body whole) h)

  -- For a profile with a block, a file system that takes every write and a snippet with one end
  -- marker, at its end: installing answers `AlreadyCurrent` or `Updated`; the text before and
  -- after the block is as it was, and the block between them is then the snippet.
  pub install_shell_hook-updated :
      (profile : Profile) (before block after : Text)
      → find_block (read_or_empty profile) ≡ some (before, block, after)
      → (answer : Outcome) × (left : Profile) × (install_shell_hook disk snippet profile
          ≡ (ok answer, left))
        × (find_block (read_or_empty left) ≡ some (before, snippet, after))
  install_shell_hook-updated profile before block after h =
      elim (Bool-cases (text_eq block snippet)) [
        | inl same ↦
            let current : find_block (read_or_empty profile) ≡ some (before, snippet, after) =
              rw (sym (text_eq→eq block snippet same)) h in
            (
              already_current,
              profile,
              install_shell_hook-current disk snippet profile before after current,
              current,
            )
        | inr differs ↦ (
          updated,
          text_file (before ++ (snippet ++ after)),
          install_shell_hook-replaces disk snippet writes profile before block after h differs,
          find_block-at snippet whole (before ++ (snippet ++ after)) before after
              (begins (find_block-begins (read_or_empty profile) before block after h)),
        )
      ]
    where
      begins :
          (rest : Text) × (split_first begin_marker (read_or_empty profile) ≡ some (before, rest))
          → split_first begin_marker (before ++ (snippet ++ after))
            ≡ some (before, IsSnippet.body whole ++ after)
      begins (rest, place) =
          rw (IsSnippet.begins whole, append_assoc begin_marker (IsSnippet.body whole) after)
            (split_first-replace begin_marker (read_or_empty profile) before rest
              (IsSnippet.body whole ++ after) place)

  -- For a file system that takes every write, a snippet with one end marker, at its end, and a
  -- profile that has a block or has no begin marker: installing succeeds, and installing again
  -- answers `AlreadyCurrent` and leaves the profile as the first time left it.
  pub install_shell_hook-again :
      (profile : Profile)
      → (find_block (read_or_empty profile) ≢ none)
        ⊎ (split_first begin_marker (read_or_empty profile) ≡ none)
      → (answer : Outcome) × (left : Profile) × (install_shell_hook disk snippet profile
          ≡ (ok answer, left))
        × (install_shell_hook disk snippet left ≡ (ok already_current, left))
  install_shell_hook-again profile (inr no_marker) =
      let (left, done, _, found) = install_shell_hook-installed profile no_marker in
      (
        installed,
        text_file left,
        done,
        install_shell_hook-current disk snippet (text_file left) _ [] found,
      )
  install_shell_hook-again profile (inl has_block) =
      elim (Option-cases (find_block (read_or_empty profile))) [
        | inl no_block ↦ absurd (has_block no_block)
        | inr ((before, block, after), found) ↦
            let (answer, left, done, again) =
              install_shell_hook-updated profile before block after found in
            (answer, left, done, install_shell_hook-current disk snippet left before after again)
      ]
