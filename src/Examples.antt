-- ===== src/Examples.antt =====
-- Concrete payloads and logs, at which the theorems of the components apply.
pub mod Log
pub mod Claims
pub mod Briefing
pub mod Capture
pub mod Polls
pub mod Runs
pub mod Requests
pub mod Files
pub mod Profiles
pub mod Entities
pub mod Hits
pub mod Hooks
pub mod Notes
pub mod Archives
use contextd.Prelude.{ℕ, Option, none, some, [], ◌∷◌, if◌then◌else◌}
use contextd.Prelude.Int.{ℤ, pos}
use contextd.Text.{Text, str, text_eq}
use contextd.Json.{Json}
use contextd.Core.Event.{RawEvent, EventSource}
use contextd.Core.Claim.{ClaimEvent, assert, user, stated, intent, reality}
use contextd.Memory.Project.{Outside}

-- The payloads of a few events, with their fields.
pub data Value : Type 0 where
  word : Text → Value
  number : ℤ → Value
  shell_run : Text → ℤ → Value
  commit : Text → Value
  claimed : ClaimEvent → Value

abbrev field : Value → Text → Option Value
field (shell_run command code) key =
    if text_eq key (str "command")
    then some (word command)
    else if text_eq key (str "exit_code")
    then some (number code)
    else none
field (commit message) key =
    if text_eq key (str "action")
    then some (word (str "commit"))
    else if text_eq key (str "message")
    then some (word message)
    else none
field _ key = none

abbrev as_word : Value → Option Text
as_word (word t) = some t
as_word _ = none

abbrev as_number : Value → Option ℤ
as_number (number n) = some n
as_number _ = none

abbrev as_natural : Value → Option ℕ
as_natural (number (pos n)) = some n
as_natural _ = none

abbrev written : Value → Text
written (word t) = t
written (shell_run command code) = command
written (commit message) = message
written _ = []

abbrev pub json : Json Value
json = record {
  get = field;
  as_str = as_word;
  as_i64 = as_number;
  as_u64 = as_natural;
  to_string = written;
}

abbrev decoded : Value → Option ClaimEvent
decoded (claimed e) = some e
decoded _ = none

abbrev pub outside : Outside Value
outside = record { json = json; decode = decoded; digest = λ bytes. bytes }

-- A user's intent on a task.
abbrev pub intent_of : Text → Text → ClaimEvent
intent_of claim_id task_id = record {
  op = assert;
  claim_id = claim_id;
  task_id = task_id;
  kind = some intent;
  subject = none;
  text = some (str "fix");
  confidence = some stated;
  origin = user;
  outcome = none;
  artifact_refs = [];
  evidence_ids = [];
  supersedes = none;
}

abbrev pub event_of : EventSource → ℕ → Value → RawEvent Value
event_of source n payload = record {
  id = 101 ∷ n ∷ [];
  timestamp_ms = n;
  source = source;
  payload = payload;
}
