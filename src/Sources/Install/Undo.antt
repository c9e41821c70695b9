-- ===== src/Sources/Install/Undo.antt =====
-- What `uninstall_shell_hook` of crates/sources/src/install.rs leaves of a profile.
use contextd.Prelude.{
  ℕ, List, arith, ◌≡◌, refl, sym, ap, ◌∙◌, inl, inr, true, ◌||◌, Option, none, some, [], ◌∷◌, ◌++◌,
  append-nil, append_assoc, Bool-cases,
}
use contextd.Prelude.Result.{ok}
use contextd.Text.{Text, is_empty, is_whitespace, trim_end, keep_end, ends_with, starts_with, str}
use contextd.Text.Search.{split_first}
use contextd.Sources.Install.{
  begin_marker, installed, Profile, absent, text_file, unreadable, Disk, read_or_empty, find_block,
  separator, trim_newlines, install_shell_hook, uninstall_shell_hook,
}
use contextd.Sources.Install.Block.{IsSnippet, appended}
use contextd.Sources.Install.Twice.{Writes, write_then-ok, install_shell_hook-installed}

trim_end-newline : (s : Text) → trim_end (s ++ 10 ∷ []) ≡ trim_end s
unfolding trim_end keep_end is_whitespace
trim_end-newline [] = refl
trim_end-newline (c ∷ s) = ap (keep_end c) (trim_end-newline s)

trim_end-separator : (s : Text) → trim_end (s ++ separator s) ≡ trim_end s
unfolding separator
trim_end-separator s = elim (Bool-cases (is_empty s || ends_with s (10 ∷ 10 ∷ []))) [
  | inl blank ↦ rw (blank, append-nil)
  | inr no_blank ↦ elim (Bool-cases (ends_with s (10 ∷ []))) [
    | inl line ↦ rw (no_blank, line) (trim_end-newline s)
    | inr inside ↦
        rw (no_blank, inside)
          (ap trim_end (sym (append_assoc s (10 ∷ []) (10 ∷ [])))
            ∙ trim_end-newline (s ++ 10 ∷ [])
            ∙ trim_end-newline s)
  ]
]

-- For a profile with a block and a file system that takes every write: uninstalling removes the
-- block, keeps the text before it up to white space at its end, and the text after it from its
-- first character that is no line feed; a line feed stands between them.
pub uninstall_shell_hook-removes :
    {E : Type 0} (disk : Disk E)
    → Writes disk
    → (profile : Profile) (before block after : Text)
    → find_block (read_or_empty profile) ≡ some (before, block, after)
    → uninstall_shell_hook disk profile
      ≡ (ok true, text_file (trim_end before ++ 10 ∷ trim_newlines after))
unfolding uninstall_shell_hook
uninstall_shell_hook-removes disk writes profile before block after h =
    rw (h, uninstall_shell_hook) (write_then-ok disk writes _ true profile)

-- Installing and then uninstalling, on whatever is read as a text with no begin marker.
install-uninstall :
    {E : Type 0} (disk : Disk E)
    → Writes disk
    → (snippet : Text) → IsSnippet snippet
    → (profile : Profile) → split_first begin_marker (read_or_empty profile) ≡ none
    → (left : Text) × (install_shell_hook disk snippet profile ≡ (ok installed, text_file left))
      × (left ≡ appended (read_or_empty profile) snippet)
      × (uninstall_shell_hook disk (text_file left)
          ≡ (ok true, text_file (trim_end (read_or_empty profile) ++ 10 ∷ [])))
unfolding trim_newlines
install-uninstall disk writes snippet whole profile h =
    let existing = read_or_empty profile in
    let (left, done, whole_file, found) =
      install_shell_hook-installed disk writes snippet whole profile h in
    (
      left,
      done,
      whole_file,
      rw (sym (trim_end-separator existing)) (
          uninstall_shell_hook-removes disk writes (text_file left) (existing ++ separator existing)
            snippet [] found),
    )

-- What the user has written: nothing, if there is no file, and unknown, if it is not read as text.
abbrev pub user_text : Profile → Option Text
user_text absent = some []
user_text (text_file text) = some text
user_text (unreadable bytes) = none

reads_as :
    (profile : Profile) (text : Text) → user_text profile ≡ some text → read_or_empty profile ≡ text
reads_as absent text h = ground arith
reads_as (text_file s) text h = ground arith
reads_as (unreadable bytes) text h = cc

-- For a profile that is absent or can be read as text, with no begin marker, a file system that
-- takes every write and a snippet with one end marker, at its end: uninstalling after installing
-- leaves the user's text as it was before, up to white space at its end, which becomes one line
-- feed.
pub uninstall_shell_hook-install_shell_hook :
    {E : Type 0} (disk : Disk E)
    → Writes disk
    → (snippet : Text) → IsSnippet snippet
    → (profile : Profile) (text : Text) → user_text profile ≡ some text
    → split_first begin_marker text ≡ none
    → (left : Profile) × (install_shell_hook disk snippet profile ≡ (ok installed, left))
      × (uninstall_shell_hook disk left ≡ (ok true, text_file (trim_end text ++ 10 ∷ [])))
uninstall_shell_hook-install_shell_hook disk writes snippet whole profile text reads h =
    let same = reads_as profile text reads in
    let (left, done, _, undone) =
      install-uninstall disk writes snippet whole profile
        (ap (split_first begin_marker) same ∙ h) in
    (
      text_file left,
      done,
      undone ∙ ap (λ (t : Text). (ok true, text_file (trim_end t ++ 10 ∷ []))) same,
    )

-- A profile that is there but cannot be read as text is lost: for a file system that takes every
-- write and a snippet with one end marker, at its end, installing answers `Installed` and leaves a
-- file that holds the snippet alone, whatever the bytes were, and uninstalling then leaves a single
-- line feed.
pub install_shell_hook-unreadable :
    {E : Type 0} (disk : Disk E)
    → Writes disk
    → (snippet : Text) → IsSnippet snippet
    → (bytes : List ℕ)
    → (install_shell_hook disk snippet (unreadable bytes) ≡ (ok installed, text_file snippet))
      × (uninstall_shell_hook disk (text_file snippet) ≡ (ok true, text_file (10 ∷ [])))
unfolding split_first separator trim_end starts_with str
install_shell_hook-unreadable disk writes snippet whole bytes =
    let (left, done, alone, undone) =
      install-uninstall disk writes snippet whole (unreadable bytes) refl in
    (
      done ∙ ap (λ (t : Text). (ok installed, text_file t)) alone,
      ap (λ (t : Text). uninstall_shell_hook disk (text_file t)) (sym alone) ∙ undone,
    )
