-- ===== src/Broker/Handoff.antt =====
-- What the extraction of crates/broker/src/extract.rs reads of the log and of the claim view, and
-- the report it writes. A `BTreeMap` is an association list in the order of insertion.
use contextd.Prelude.{
  ℕ, ◌+◌, ◌-◌, Bool, true, false, not, ◌&&◌, ◌||◌, Option, none, some, List, [], ◌∷◌, ◌++◌, min,
  max, ltb, leb, ◌==◌, if◌then◌else◌, any, find?, filter, drop,
}
use contextd.Prelude.Int.{ℤ, is_zero}
use contextd.Prelude.Sorting.{sort_by, max_by}
use contextd.Text.{Text, str, text_eq, text_le, is_empty, contains, byte_len}
use contextd.Json.{str_at, i64_at}
use contextd.Core.Event.{RawEvent, EventSource, source_eq}
use contextd.Core.Claim.{Claim, ClaimEvent, ClaimOp, assert, kind_str, is_current}
use contextd.Core.Projection.{Projection}
use contextd.Memory.Project.{Outside, shell_subject}
use contextd.Broker.Words.{collapse}

-- `Candidate`, and `Draft` with the same fields.
pub record Candidate : Type 0 where
  pub claim_id : Text
  pub kind : Text
  pub origin : Text
  pub confidence : Text
  pub text : Text
  pub subject : Option Text
  pub evidence_ids : List Text
  pub source_text : Text
  pub support_text : Option Text
  pub task_subject : Text

-- The entries of a report: an admitted candidate, a retraction, a unit with a reason.
pub data Accepted : Type 0 where
  admitted : Candidate → Accepted
  retracted : Text → Text → Text → Accepted

pub record Refusal : Type 0 where
  pub unit : Text
  pub reason : Text

pub record HandoffReport : Type 0 where
  pub accepted : List Accepted
  pub rejected : List Refusal
  pub skipped : List Refusal

abbrev pub empty_report : HandoffReport
empty_report = record { accepted = []; rejected = []; skipped = [] }

unfoldable pub skip : HandoffReport → Text → Text → HandoffReport
skip report unit reason = record report {
  skipped = report.skipped ++ record { unit = unit; reason = reason } ∷ [];
}

-- What extraction takes from outside: what the fold takes, Unicode's lower case, the encoding of a
-- claim event, and an object with one more string in it.
pub record Extractor (V : Type 0) : Type 0 where
  pub out : Outside V
  pub to_lowercase : Text → Text
  pub encode : ClaimEvent → V
  pub insert : V → Text → Text → V

abbrev pub u64_max : ℕ
u64_max = 18446744073709551615

-- `map.insert(key, value)` and `map.get(&key)`, for keys that `same` compares
abbrev pub insert_entry : {A B : Type 0} → (A → A → Bool) → A → B → List (A × B) → List (A × B)
insert_entry same key value [] = (key, value) ∷ []
insert_entry same key value ((k, v) ∷ rest) =
    let later = insert_entry same key value rest in
    if same k key then (k, value) ∷ rest else (k, v) ∷ later

abbrev pub get_entry : {A B : Type 0} → (A → A → Bool) → A → List (A × B) → Option B
get_entry same key [] = none
get_entry same key ((k, v) ∷ rest) =
    let later = get_entry same key rest in if same k key then some v else later

abbrev pub pair_eq : Text × Text → Text × Text → Bool
pair_eq (a, b) (c, d) = text_eq a c && text_eq b d

abbrev pub or_empty : Option Text → Text
or_empty none = []
or_empty (some text) = text

-- `code.is_some_and(|code| code != 0)`
abbrev pub is_failure : Option ℤ → Bool
is_failure none = false
is_failure (some code) = not (is_zero code)

abbrev pub is_shell : {V : Type 0} → RawEvent V → Bool
is_shell event = source_eq event.source EventSource.shell

module _ {V : Type 0} (x : Extractor V) where
  unfoldable pub payload_str : RawEvent V → Text → Text
  payload_str event key = or_empty (str_at x.out.json event.payload key)

  unfoldable pub event_by_id : List (RawEvent V) → Text → Option (RawEvent V)
  event_by_id events id = find? (λ event. text_eq event.id id) events

  abbrev pub log_le : RawEvent V → RawEvent V → Bool
  log_le left right =
      ltb left.timestamp_ms right.timestamp_ms
      || (left.timestamp_ms == right.timestamp_ms && text_le left.id right.id)

  unfoldable pub sort_log : List (RawEvent V) → List (RawEvent V)
  sort_log log = sort_by log_le log

  unfoldable pub latest_ms : List (RawEvent V) → ℕ
  latest_ms [] = 0
  latest_ms (event ∷ log) = max event.timestamp_ms (latest_ms log)

  abbrev pub log_entry : List (RawEvent V) → ClaimEvent → Text → RawEvent V
  log_entry log event id = record {
    id = id;
    timestamp_ms = min (latest_ms log + 1000) u64_max;
    source = EventSource.claim;
    payload = x.encode event;
  }

  unfoldable pub push_event : List (RawEvent V) → ClaimEvent → Text → List (RawEvent V)
  push_event log event id = log ++ log_entry log event id ∷ []

  -- The claim event that a log entry holds.
  unfoldable pub claim_of : RawEvent V → Option ClaimEvent
  claim_of event =
      if source_eq event.source EventSource.claim then x.out.decode event.payload else none

  abbrev pub is_assert : ClaimOp → Bool
  is_assert assert = true
  is_assert _ = false

  unfoldable pub seen_of : ClaimEvent → List (Text × Text)
  seen_of claim = elim (is_assert claim.op) [
    | false ↦ []
    | true ↦ elim claim.kind [
      | none ↦ []
      | some kind ↦ elim claim.text [
        | none ↦ []
        | some text ↦ (kind_str kind, x.to_lowercase (collapse text)) ∷ []
      ]
    ]
  ]

  unfoldable pub seed_seen : List (RawEvent V) → List (Text × Text)
  seed_seen [] = []
  seed_seen (event ∷ events) = elim (claim_of event) [
    | none ↦ seed_seen events
    | some claim ↦ seen_of claim ++ seed_seen events
  ]

  unfoldable pub cited_notes : List (RawEvent V) → List Text
  cited_notes [] = []
  cited_notes (event ∷ events) = elim (claim_of event) [
    | none ↦ cited_notes events
    | some claim ↦ claim.evidence_ids ++ cited_notes events
  ]

  unfoldable pub shell_state : RawEvent V → Option ((Text × Text) × Option ℤ)
  shell_state event =
      if is_shell event
      then some (
        (payload_str event (str "session"), collapse (payload_str event (str "command"))),
        i64_at x.out.json event.payload (str "exit_code"),
      )
      else none

  -- The loop that keeps the latest code of each session and command, for the keys that pass.
  unfoldable pub latest_from :
      (Text × Text → Bool)
      → List (RawEvent V)
      → List ((Text × Text) × Option ℤ)
      → List ((Text × Text) × Option ℤ)
  latest_from wanted [] latest = latest
  latest_from wanted (event ∷ events) latest = elim (shell_state event) [
    | none ↦ latest_from wanted events latest
    | some (key, code) ↦
        latest_from wanted events
          (if wanted key then insert_entry pair_eq key code latest else latest)
  ]

  -- Whether `open_sessions` has the session.
  unfoldable pub is_open_session : List (RawEvent V) → Text → Bool
  is_open_session events session =
      any (λ entry. is_failure entry.1 && text_eq entry.0.0 session)
        (latest_from (λ key. true) events [])

  abbrev pub still_fails : List ((Text × Text) × Option ℤ) → Text × Text → Bool
  still_fails latest key = elim (get_entry pair_eq key latest) [
    | none ↦ false
    | some code ↦ is_failure code
  ]

  -- The first event of a key that still fails; `earlier` has the keys that are past.
  unfoldable pub first_failing :
      Text
      → List ((Text × Text) × Option ℤ)
      → List (Text × Text)
      → List (RawEvent V)
      → Option (RawEvent V)
  first_failing session latest earlier [] = none
  first_failing session latest earlier (event ∷ events) = elim (shell_state event) [
    | none ↦ first_failing session latest earlier events
    | some (key, code) ↦ elim (text_eq key.0 session) [
      | false ↦ first_failing session latest earlier events
      | true ↦ elim (still_fails latest key && not (any (pair_eq key) earlier)) [
        | true ↦ some event
        | false ↦ first_failing session latest (key ∷ earlier) events
      ]
    ]
  ]

  unfoldable pub failing_command : List (RawEvent V) → Text → Option (RawEvent V)
  failing_command events session =
      first_failing session (latest_from (λ key. text_eq key.0 session) events []) [] events

  unfoldable pub note_task : List (RawEvent V) → RawEvent V → Option (RawEvent V)
  note_task events note =
      let session = payload_str note (str "session") in
      if is_open_session events session then failing_command events session else none

  unfoldable pub task_for : RawEvent V → Text
  task_for event = shell_subject (payload_str event (str "cwd")) (payload_str event (str "command"))

  -- `Some(&events[index - 1])`
  abbrev pub at_index : List (RawEvent V) → ℕ → Option (RawEvent V)
  at_index events index = elim (drop index events) [ [] ↦ none | event ∷ rest ↦ some event ]

  unfoldable pub support_by_id : List (RawEvent V) → RawEvent V → Option (RawEvent V)
  support_by_id events note =
      let support_id = payload_str note (str "support_event_id") in
      if is_empty support_id then none else event_by_id events support_id

  unfoldable pub support_event : List (RawEvent V) → RawEvent V → ℕ → Option (RawEvent V)
  support_event events note index =
      let support_id = payload_str note (str "support_event_id") in
      if not (is_empty support_id)
      then event_by_id events support_id
      else if index == 0
      then none
      else at_index events (index - 1)

  -- The loop over the events with a command and a code.
  unfoldable pub subjects_from : List (RawEvent V) → List (Text × ℤ) → List (Text × ℤ)
  subjects_from [] latest = latest
  subjects_from (event ∷ events) latest =
      elim (is_shell event && not (is_empty (payload_str event (str "command")))) [
        | false ↦ subjects_from events latest
        | true ↦ elim (i64_at x.out.json event.payload (str "exit_code")) [
          | none ↦ subjects_from events latest
          | some code ↦ subjects_from events (insert_entry text_eq (task_for event) code latest)
        ]
      ]

  -- Whether `failing_subjects` has the subject.
  unfoldable pub is_failing_subject : List (RawEvent V) → Text → Bool
  is_failing_subject events subject =
      any (λ entry. not (is_zero entry.1) && text_eq entry.0 subject) (subjects_from events [])

-- `max_by_key(|claim| claim.text.len())` keeps the last of the longest.
unfoldable pub longest_quoted_claim : Projection → Text → Option Claim
longest_quoted_claim p text =
    max_by (λ a b. leb (byte_len a.text) (byte_len b.text))
      (filter (λ claim. is_current claim.status && contains text claim.text) p.claims)

unfoldable pub current_with_text : Projection → Text → Option Claim
current_with_text p text =
    let wanted = collapse text in
    if is_empty wanted
    then none
    else find? (λ claim. is_current claim.status && text_eq (collapse claim.text) wanted) p.claims
