-- ===== src/Memory/Entities.antt =====
-- The entities of crates/memory/src/graph.rs: what of an event is worth a node.
use contextd.Prelude.{
  ℕ, Bool, ◌&&◌, Option, none, some, List, [], ◌∷◌, ◌++◌, not, ◌==◌, if◌then◌else◌,
}
use contextd.Text.{Text, str, text_eq, split_whitespace, after_last, member, starts_with}
use contextd.Json.{Json, str_at}
use contextd.Core.Event.{ProcessedEvent, EventSource}
use contextd.Core.Validate.{trimmed}
use contextd.Pipeline.Content.{extract_error}

pub data EntityKind : Type 0 where
  file command repo error intent : EntityKind

unfoldable pub as_str : EntityKind → Text
as_str EntityKind.file = str "file"
as_str EntityKind.command = str "command"
as_str EntityKind.repo = str "repo"
as_str EntityKind.error = str "error"
as_str EntityKind.intent = str "intent"

unfoldable pub parse : Text → Option EntityKind
parse value =
    if text_eq value (str "file")
    then some file
    else if text_eq value (str "command")
    then some command
    else if text_eq value (str "repo")
    then some repo
    else if text_eq value (str "error")
    then some error
    else if text_eq value (str "intent")
    then some intent
    else none

abbrev pub tag : EntityKind → ℕ
tag EntityKind.file = 0
tag EntityKind.command = 1
tag EntityKind.repo = 2
tag EntityKind.error = 3
tag EntityKind.intent = 4

pub record Entity : Type 0 where
  pub kind : EntityKind
  pub name : Text

-- The derived `==`.
unfoldable pub entity_eq : Entity → Entity → Bool
entity_eq a b = tag a.kind == tag b.kind && text_eq a.name b.name

unfoldable pub key : Entity → Text
unfolding as_str
key e = as_str e.kind ++ (str ":" ++ e.name)

-- The subcommand of a multiplexer, unless it is an option.
unfoldable pub with_subcommand : Text → List Text → Text
with_subcommand name (head ∷ word ∷ words) =
    if member name (str "cargo" ∷ str "git" ∷ str "npm" ∷ str "pnpm" ∷ str "yarn" ∷ str "go" ∷ [])
      && not (starts_with word (str "-"))
    then name ++ (str " " ++ word)
    else name
with_subcommand name _ = name

unfoldable pub first_word : Text → List Text → Text
first_word line [] = line
first_word line (word ∷ words) = word

unfoldable pub program_of : Text → Text
unfolding with_subcommand first_word
program_of line =
    let words = split_whitespace line in
    with_subcommand (after_last 47 (first_word line words)) words

module _ {V : Type 0} (json : Json V) where
  -- The closure `string`: a field that is a string, trimmed and not blank.
  unfoldable pub string_at : V → Text → Option Text
  string_at payload key = trimmed (str_at json payload key)

  unfoldable pub entity_at : EntityKind → Option Text → List Entity
  entity_at kind none = []
  entity_at kind (some name) = record { kind = kind; name = name } ∷ []

  unfoldable pub of_source : EventSource → V → List Entity
  unfolding entity_at program_of string_at
  of_source EventSource.shell payload = elim (string_at payload (str "command")) [
    | none ↦ []
    | some text ↦ entity_at command (some (program_of text))
  ]
  of_source EventSource.proc payload = elim (string_at payload (str "command")) [
    | none ↦ []
    | some text ↦ entity_at command (some (program_of text))
  ]
  of_source EventSource.file_system payload = entity_at file (string_at payload (str "path"))
  of_source EventSource.editor payload = entity_at file (string_at payload (str "path"))
  of_source EventSource.manifest payload = entity_at file (string_at payload (str "file"))
  of_source EventSource.git payload = entity_at repo (string_at payload (str "repo"))
  of_source EventSource.claim payload = []
  of_source EventSource.note payload = []

  -- `filter_map` of the fields to their strings, then `find_map(extract_error)`
  unfoldable pub find_error : V → List Text → Option Text
  unfolding string_at
  find_error payload [] = none
  find_error payload (field ∷ fields) =
      let rest = find_error payload fields in
      elim (string_at payload field) [
        | none ↦ rest
        | some text ↦ elim (extract_error text) [ none ↦ rest | some line ↦ some line ]
      ]

  unfoldable pub entities_of : ProcessedEvent V → List Entity
  unfolding of_source find_error entity_at
  entities_of event =
      let payload = event.raw.payload in
      of_source event.raw.source payload
      ++ entity_at error
          (find_error payload (str "stderr" ∷ str "output" ∷ str "error" ∷ str "message" ∷ []))
