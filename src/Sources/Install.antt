-- ===== src/Sources/Install.antt =====
-- The managed block of crates/sources/src/install.rs: the hook that `contextd install` keeps inside
-- a shell profile, between two markers. The profile is absent, a file of text, or a file that cannot
-- be read as text; the file system's calls are the parameter `Disk`.
pub mod Block
pub mod Twice
pub mod Undo
use contextd.Prelude.{
  ℕ, ◌≡◌, Bool, true, false, ◌&&◌, ◌||◌, Option, none, some, List, [], ◌∷◌, ◌++◌, ◌==◌,
  if◌then◌else◌,
}
use contextd.Text.{Text, str, text_eq, is_empty, ends_with, starts_with, trim_end, after_last}
use contextd.Prelude.Result.{Result, ok, err}
use contextd.Text.Search.{split_first}

abbrev pub begin_marker : Text
begin_marker = str "# >>> contextd >>>"

abbrev pub end_marker : Text
end_marker = str "# <<< contextd <<<"

pub data Outcome : Type 0 where
  installed updated already_current : Outcome

-- What is at the profile's path: `read_to_string` fails on an absent file, and on one whose bytes
-- are not UTF-8 or may not be read.
pub data Profile : Type 0 where
  absent : Profile
  text_file : Text → Profile
  unreadable : List ℕ → Profile

-- `std::fs`, on the profile's path: whether its directory can be made, and what a write answers
-- and leaves behind, from what was there.
pub record Disk (E : Type 0) : Type 0 where
  pub create_parent : Result E (Unit {0})
  pub write : Text → Profile → Result E (Unit {0}) × Profile

-- `read_to_string(path).unwrap_or_default()`
abbrev pub read_or_empty : Profile → Text
read_or_empty absent = []
read_or_empty (text_file text) = text
read_or_empty (unreadable bytes) = []

-- `name == "config.fish" || name.ends_with(".fish")`, of the profile's file name
unfoldable pub snippet_for : Text → Text → Option Text → Text
snippet_for fish_snippet shell_snippet none = shell_snippet
snippet_for fish_snippet shell_snippet (some name) =
    if text_eq name (str "config.fish") || ends_with name (str ".fish")
    then fish_snippet
    else shell_snippet

-- The text before the block, the block, and the text after it.
unfoldable pub end_block : Text → Text → Text → Text × Text × Text
end_block before inside [] = (before, inside ++ end_marker, [])
end_block before inside (c ∷ after) =
    if c == 10
    then (before, inside ++ (end_marker ++ 10 ∷ []), after)
    else (before, inside ++ end_marker, c ∷ after)

unfoldable pub find_block : Text → Option (Text × Text × Text)
unfolding end_block
find_block text = elim (split_first begin_marker text) [
  | none ↦ none
  | some (before, rest) ↦ elim (split_first end_marker (begin_marker ++ rest)) [
    | none ↦ none
    | some (inside, after) ↦ some (end_block before inside after)
  ]
]

unfoldable pub separator : Text → Text
separator existing =
    if is_empty existing || ends_with existing (10 ∷ 10 ∷ [])
    then []
    else if ends_with existing (10 ∷ [])
    then 10 ∷ []
    else 10 ∷ 10 ∷ []

-- `std::fs::write(...)?; Ok(answer)`
unfoldable pub answer_with :
    {E A : Type 0} → A → Result E (Unit {0}) × Profile → Result E A × Profile
answer_with answer (ok done, left) = (ok answer, left)
answer_with answer (err e, left) = (err e, left)

unfoldable pub write_then : {E A : Type 0} → Disk E → Text → A → Profile → Result E A × Profile
unfolding answer_with
write_then disk text answer profile = answer_with answer (Disk.write disk text profile)

-- The answer, and the profile afterwards.
unfoldable pub install_shell_hook :
    {E : Type 0} → Disk E → Text → Profile → Result E Outcome × Profile
unfolding find_block separator write_then
install_shell_hook disk snippet profile =
    let existing = read_or_empty profile in
    elim (find_block existing) [
      | none ↦ elim (Disk.create_parent disk) [
        | err e ↦ (err e, profile)
        | ok made ↦ write_then disk (existing ++ (separator existing ++ snippet)) installed profile
      ]
      | some (before, block, after) ↦
          if text_eq block snippet
          then (ok already_current, profile)
          else write_then disk (before ++ (snippet ++ after)) updated profile
    ]

-- `trim_start_matches('\n')`
unfoldable pub trim_newlines : Text → Text
trim_newlines [] = []
trim_newlines (c ∷ s) = let rest = trim_newlines s in if c == 10 then rest else c ∷ s

unfoldable pub uninstall_shell_hook : {E : Type 0} → Disk E → Profile → Result E Bool × Profile
unfolding find_block trim_newlines write_then
uninstall_shell_hook disk profile = elim (find_block (read_or_empty profile)) [
  | none ↦ (ok false, profile)
  | some (before, block, after) ↦
      write_then disk (trim_end before ++ 10 ∷ trim_newlines after) true profile
]
