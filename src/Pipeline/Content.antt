-- ===== src/Pipeline/Content.antt =====
-- crates/pipeline/src/content.rs: one line of text for an event, and the failures in its output.
pub mod Summaries
pub mod Errors
use contextd.Prelude.{
  ℕ, ◌-◌, ◌/◌, ◌%◌, Bool, true, false, not, ◌||◌, Option, none, some, List, [], ◌∷◌, ◌++◌, any,
  find?, take, length, ltb, leb, map, if◌then◌else◌,
}
use contextd.Prelude.Int.{ℤ, is_zero}
use contextd.Text.{
  Text, str, text_eq, is_empty, trim, trim_end, contains, starts_with, rsplit_once, after_last,
  lines, split_whitespace, split_once_whitespace, join,
}
use contextd.Text.Decimal.{decimal, int_decimal}
use contextd.Json.{Json, str_at, i64_at, u64_at}
use contextd.Core.Event.{RawEvent, EventSource}
use contextd.Core.Validate.{trimmed}

abbrev pub max_summary_chars : ℕ
max_summary_chars = 160

abbrev pub error_markers : List Text
error_markers =
    str "panicked at"
    ∷ str "Traceback (most recent call last)"
    ∷ str "AssertionError"
    ∷ str "SyntaxError"
    ∷ str "TypeError"
    ∷ str "ValueError"
    ∷ str "NullPointerException"
    ∷ str "Segmentation fault"
    ∷ str "error[E"
    ∷ str "fatal:"
    ∷ str "FAILED"
    ∷ str "Exception"
    ∷ str "error:"
    ∷ str "Error:"
    ∷ str "ERROR"
    ∷ []

unfoldable pub collapse_whitespace : Text → Text
collapse_whitespace text = join (str " ") (split_whitespace text)

unfoldable pub truncate : Text → ℕ → Text
truncate text limit =
    if leb (length text) limit then text else trim_end (take (limit - 1) text) ++ 0x2026 ∷ []

-- The line that one marker finds, unless it is empty.
unfoldable pub marked_line : Text → Text → Option Text
marked_line text marker = elim (find? (λ line. contains line marker) (map trim (lines text))) [
  | none ↦ none
  | some line ↦ if is_empty line then none else some line
]

unfoldable pub first_marked : Text → List Text → Option Text
first_marked text [] = none
first_marked text (marker ∷ markers) =
    let rest = first_marked text markers in
    elim (marked_line text marker) [ some line ↦ some line | none ↦ rest ]

unfoldable pub extract_error : Text → Option Text
extract_error text = elim (first_marked text error_markers) [
  | none ↦ none
  | some line ↦ some (truncate (collapse_whitespace line) max_summary_chars)
]

abbrev pub is_some : {A : Type 0} → Option A → Bool
is_some none = false
is_some (some a) = true

-- Strips the directory from the program of a command line.
unfoldable pub shorten_command : Text → Text
shorten_command command =
    let (program, args) = split_once_whitespace (trim command) in
    elim args [
      | some rest ↦ after_last b'/' program ++ str " " ++ rest
      | none ↦ after_last b'/' program
    ]

-- The last two components of a path.
unfoldable pub short_path : Text → Text
short_path path = elim (rsplit_once b'/' path) [
  | none ↦ path
  | some (directory, name) ↦ after_last b'/' directory ++ str "/" ++ name
]

-- `runtime`, once the milliseconds are read.
unfoldable pub runtime_text : ℕ → Option Text
runtime_text ms =
    if leb ms 999
    then none
    else if leb ms 59999
    then some (decimal (ms / 1000) ++ str "s")
    else some (decimal (ms / 60000) ++ str "m" ++ decimal (ms % 60000 / 1000) ++ str "s")

unfoldable pub or_else : Option Text → Option Text → Option Text
or_else (some a) b = some a
or_else none b = b

unfoldable pub verb_of : Option Text → Text
verb_of none = str "touched"
verb_of (some action) =
    if starts_with action (str "Create")
    then str "created"
    else if starts_with action (str "Remove")
    then str "deleted"
    else if starts_with action (str "Modify")
    then str "edited"
    else str "touched"

-- `message.lines().next().unwrap_or(message)`
unfoldable pub subject_line : Text → Text
subject_line message = elim (lines message) [ line ∷ rest ↦ line | [] ↦ message ]

-- The match of `summarize_git` on the action and the message.
unfoldable pub git_text : Text → Option Text → Text
git_text action (some message) =
    if text_eq action (str "commit")
    then str "committed: " ++ subject_line message
    else if text_eq action (str "checkout")
    then str "switched to " ++ message
    else if text_eq action (str "push")
    then str "pushed"
    else str "git " ++ action ++ str ": " ++ message
git_text action none =
    if text_eq action (str "commit")
    then str "committed"
    else if text_eq action (str "push")
    then str "pushed"
    else str "git " ++ action

-- The match of `summarize_proc` on the action.
unfoldable pub proc_text : Text → Text → Option Text → Text
proc_text action command runtime =
    if text_eq action (str "process_start")
    then str "started `" ++ command ++ str "`"
    else if text_eq action (str "process_end")
    then elim runtime [
      | some t ↦ str "finished `" ++ command ++ str "` after " ++ t
      | none ↦ str "finished `" ++ command ++ str "`"
    ]
    else action ++ str ": `" ++ command ++ str "`"

abbrev pub bind : {A B : Type 0} → Option A → (A → Option B) → Option B
bind none f = none
bind (some a) f = f a

unfoldable pub finish : Text → Option Text
finish summary =
    let line = collapse_whitespace summary in
    if is_empty line then none else some (truncate line max_summary_chars)

module _ {V : Type 0} (json : Json V) where
  -- `filter_map` of the fields to their strings, then `find_map(extract_error)`
  unfoldable pub first_error : V → List Text → Option Text
  first_error payload [] = none
  first_error payload (field ∷ fields) =
      let rest = first_error payload fields in
      elim (bind (str_at json payload field) extract_error) [ some e ↦ some e | none ↦ rest ]

  -- Some string among the fields has an error line.
  unfoldable pub any_error : V → List Text → Bool
  any_error payload fields =
      any (λ field. is_some (bind (str_at json payload field) extract_error)) fields

  unfoldable pub looks_like_failure : RawEvent V → Bool
  looks_like_failure event = elim (i64_at json event.payload (str "exit_code")) [
    | some code ↦ not (is_zero code)
    | none ↦
        any_error event.payload (str "stderr" ∷ str "output" ∷ str "message" ∷ str "error" ∷ [])
  ]

  -- The end of `summarize_shell`.
  unfoldable pub shell_text : Text → Option Text → Option ℤ → Text
  shell_text command (some error) exit_code = str "ran `" ++ command ++ str "` — failed: " ++ error
  shell_text command none none = str "ran `" ++ command ++ str "`"
  shell_text command none (some code) =
      if is_zero code
      then str "ran `" ++ command ++ str "`"
      else str "ran `" ++ command ++ str "` — exited " ++ int_decimal code

  unfoldable pub summarize_shell : V → Option Text
  summarize_shell payload = bind (str_at json payload (str "command")) λ command. some (
      shell_text (shorten_command command)
        (first_error payload (str "stderr" ∷ str "output" ∷ str "error" ∷ []))
        (i64_at json payload (str "exit_code")))

  -- The command of a process event, or its name.
  unfoldable pub process_command : V → Option Text
  process_command payload = elim (trimmed (str_at json payload (str "command"))) [
    | some command ↦ some (shorten_command command)
    | none ↦ trimmed (str_at json payload (str "process_name"))
  ]

  unfoldable pub runtime : V → Option Text
  runtime payload = bind (u64_at json payload (str "ran_for_ms")) runtime_text

  unfoldable pub summarize_proc : V → Option Text
  summarize_proc payload = bind (str_at json payload (str "action")) λ action.
      bind (process_command payload) λ command. some (proc_text action command (runtime payload))

  unfoldable pub summarize_filesystem : V → Option Text
  summarize_filesystem payload =
      bind (str_at json payload (str "path"))
        λ path. some (verb_of (str_at json payload (str "action")) ++ str " " ++ short_path path)

  unfoldable pub summarize_git : V → Option Text
  summarize_git payload =
      bind (str_at json payload (str "action"))
        λ action. some (git_text action (trimmed (str_at json payload (str "message"))))

  unfoldable pub summarize_manifest : V → Option Text
  summarize_manifest payload = elim (str_at json payload (str "file")) [
    | some file ↦ some (str "changed dependencies in " ++ short_path file)
    | none ↦ some (str "changed dependencies in " ++ str "a manifest")
  ]

  -- The match of `summarize` on the source.
  unfoldable pub draft : RawEvent V → Option Text
  draft event = elim event.source [
    | EventSource.shell ↦ summarize_shell event.payload
    | EventSource.proc ↦ summarize_proc event.payload
    | EventSource.file_system ↦ summarize_filesystem event.payload
    | EventSource.git ↦ summarize_git event.payload
    | EventSource.manifest ↦ summarize_manifest event.payload
    | EventSource.editor ↦ none
    | EventSource.claim ↦ none
    | EventSource.note ↦ none
  ]

  unfoldable pub summarize : RawEvent V → Option Text
  summarize event = bind (draft event) finish
