-- ===== src/Pipeline/Classify.antt =====
-- crates/pipeline/src/classify.rs: the kind of work, and how long an event matters. Lower case is
-- a parameter: `str::to_lowercase` maps by the tables of Unicode.
use contextd.Prelude.{ℕ, Bool, false, ◌||◌, Option, none, some, List, [], ◌∷◌, any, if◌then◌else◌}
use contextd.Text.{
  Text, str, text_eq, is_empty, contains, starts_with, member, rsplit_once, after_last,
}
use contextd.Json.{Json, str_at}
use contextd.Core.Event.{RawEvent, EventSource}
use contextd.Core.Memory.{
  UseCase, MemoryType, coding, research, general_productivity, episodic, semantic, procedural,
}

abbrev pub code_extensions : List Text
code_extensions =
    str "rs"
    ∷ str "ts"
    ∷ str "tsx"
    ∷ str "js"
    ∷ str "jsx"
    ∷ str "py"
    ∷ str "go"
    ∷ str "java"
    ∷ str "kt"
    ∷ str "rb"
    ∷ str "php"
    ∷ str "c"
    ∷ str "h"
    ∷ str "cpp"
    ∷ str "hpp"
    ∷ str "cs"
    ∷ str "swift"
    ∷ str "scala"
    ∷ str "clj"
    ∷ str "ex"
    ∷ str "exs"
    ∷ str "sql"
    ∷ str "sh"
    ∷ str "bash"
    ∷ str "zsh"
    ∷ str "vue"
    ∷ str "svelte"
    ∷ []

abbrev pub document_extensions : List Text
document_extensions =
    str "md" ∷ str "mdx" ∷ str "rst" ∷ str "txt" ∷ str "adoc" ∷ str "org" ∷ str "pdf" ∷ []

abbrev pub coding_commands : List Text
coding_commands =
    str "cargo"
    ∷ str "rustc"
    ∷ str "npm"
    ∷ str "pnpm"
    ∷ str "yarn"
    ∷ str "bun"
    ∷ str "tsc"
    ∷ str "go "
    ∷ str "gcc"
    ∷ str "clang"
    ∷ str "make"
    ∷ str "cmake"
    ∷ str "gradle"
    ∷ str "mvn"
    ∷ str "pytest"
    ∷ str "jest"
    ∷ str "vitest"
    ∷ str "tox"
    ∷ str "dotnet"
    ∷ str "docker build"
    ∷ str "bazel"
    ∷ []

abbrev pub research_commands : List Text
research_commands =
    str "man "
    ∷ str "curl"
    ∷ str "wget"
    ∷ str "grep"
    ∷ str "rg "
    ∷ str "ag "
    ∷ str "find "
    ∷ str "less "
    ∷ str "cat "
    ∷ str "tail "
    ∷ str "head "
    ∷ str "--help"
    ∷ str "-h"
    ∷ str "which "
    ∷ str "whereis"
    ∷ []

abbrev pub procedural_needles : List Text
procedural_needles =
    str "make "
    ∷ str "just "
    ∷ str "npm run"
    ∷ str "pnpm run"
    ∷ str "yarn run"
    ∷ str "docker compose"
    ∷ str "docker-compose"
    ∷ str "kubectl apply"
    ∷ str "terraform apply"
    ∷ str "ansible-playbook"
    ∷ str "./scripts/"
    ∷ str "migrate"
    ∷ str "deploy"
    ∷ []

abbrev pub config_files : List Text
config_files =
    str "Cargo.toml"
    ∷ str "package.json"
    ∷ str "pyproject.toml"
    ∷ str "go.mod"
    ∷ str "Dockerfile"
    ∷ str "docker-compose.yml"
    ∷ str "Makefile"
    ∷ str "justfile"
    ∷ str "tsconfig.json"
    ∷ str ".env"
    ∷ str "requirements.txt"
    ∷ str "build.gradle"
    ∷ str "pom.xml"
    ∷ []

abbrev pub config_extensions : List Text
config_extensions = str "toml" ∷ str "ini" ∷ str "conf" ∷ str "cfg" ∷ []

abbrev pub slash : ℕ
slash = b'/'

-- `needles.iter().any(|needle| text.contains(needle))`
abbrev pub contains_any : Text → List Text → Bool
contains_any text needles = any (contains text) needles

module _ (to_lowercase : Text → Text) where
  unfoldable pub extension : Text → Option Text
  extension path = elim (rsplit_once b'.' (after_last slash path)) [
    | none ↦ none
    | some (stem, ext) ↦ if is_empty stem then none else some (to_lowercase ext)
  ]

  -- Both `lowered` and the tests are those of the source, in its order.
  unfoldable pub classify_command : Text → UseCase
  classify_command command =
      let lowered = to_lowercase command in
      if contains_any lowered coding_commands
      then coding
      else if contains_any lowered research_commands
      then research
      else if starts_with lowered (str "git ")
          || starts_with lowered (str "vim ")
          || starts_with lowered (str "nvim ")
      then coding
      else general_productivity

  unfoldable pub is_procedural_command : Text → Bool
  is_procedural_command command = contains_any (to_lowercase command) procedural_needles

  abbrev is_among : Option Text → List Text → Bool
  is_among none ts = false
  is_among (some t) ts = member t ts

  unfoldable pub is_configuration : Text → Bool
  is_configuration path =
      let name = after_last slash path in
      member name config_files || is_among (extension name) config_extensions

  module _ {V : Type 0} (json : Json V) where
    -- The value at `path`, or at `file` if there is none, as a string.
    unfoldable pub path_of : RawEvent V → Option Text
    path_of event = elim (json.get event.payload (str "path")) [
      | some v ↦ json.as_str v
      | none ↦ str_at json event.payload (str "file")
    ]

    abbrev pub command_of : RawEvent V → Option Text
    command_of event = str_at json event.payload (str "command")

    abbrev pub action_of : RawEvent V → Option Text
    action_of event = str_at json event.payload (str "action")

    abbrev or_default : Option Text → Text
    or_default none = str ""
    or_default (some t) = t

    -- The match on an extension in `classify_use_case`.
    unfoldable pub classify_extension : Option Text → UseCase
    classify_extension none = general_productivity
    classify_extension (some ext) =
        if member ext code_extensions
        then coding
        else if member ext document_extensions
        then research
        else general_productivity

    unfoldable pub classify_run : Option Text → UseCase
    classify_run none = general_productivity
    classify_run (some command) = classify_command command

    unfoldable pub classify_use_case : RawEvent V → UseCase
    classify_use_case event = elim event.source [
      | EventSource.git ↦ coding
      | EventSource.manifest ↦ coding
      | EventSource.file_system ↦ classify_extension (extension (or_default (path_of event)))
      | EventSource.shell ↦ classify_run (command_of event)
      | EventSource.proc ↦ classify_run (command_of event)
      | EventSource.editor ↦ coding
      | EventSource.claim ↦ general_productivity
      | EventSource.note ↦ general_productivity
    ]

    unfoldable pub git_memory : Option Text → MemoryType
    git_memory none = episodic
    git_memory (some action) = if text_eq action (str "commit") then semantic else episodic

    unfoldable pub run_memory : Option Text → MemoryType
    run_memory none = episodic
    run_memory (some command) = if is_procedural_command command then procedural else episodic

    unfoldable pub file_memory : Option Text → MemoryType
    file_memory none = episodic
    file_memory (some path) = if is_configuration path then semantic else episodic

    unfoldable pub classify_memory_type : RawEvent V → MemoryType
    classify_memory_type event = elim event.source [
      | EventSource.manifest ↦ semantic
      | EventSource.git ↦ git_memory (action_of event)
      | EventSource.shell ↦ run_memory (command_of event)
      | EventSource.proc ↦ run_memory (command_of event)
      | EventSource.file_system ↦ file_memory (path_of event)
      | EventSource.editor ↦ episodic
      | EventSource.claim ↦ episodic
      | EventSource.note ↦ episodic
    ]
