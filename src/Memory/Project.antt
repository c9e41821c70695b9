-- ===== src/Memory/Project.antt =====
-- crates/memory/src/project.rs: the fold of the event log into the claim view.
pub mod Keeps
pub mod Applied
pub mod Retired
pub mod Unique
pub mod Lifecycle
pub mod Failing
use contextd.Prelude.{
  ℕ, Bool, true, false, not, ◌&&◌, ◌||◌, Option, none, some, List, [], ◌∷◌, ◌++◌, ltb, ◌==◌, take,
  find?, filter, if◌then◌else◌,
}
use contextd.Prelude.Int.{ℤ, is_zero}
use contextd.Prelude.Sorting.{sort_by, max_by}
use contextd.Text.{Text, str, is_empty, text_eq, text_le, trim, split_whitespace, join, as_bytes}
use contextd.Text.Decimal.{int_decimal}
use contextd.Json.{Json, str_at, i64_at}
use contextd.Core.Event.{RawEvent, EventSource}
use contextd.Core.Claim.{
  Task, Claim, ClaimEvent, ClaimKind, ClaimConfidence, ClaimOrigin, assert, supersede, close_task,
  projector, user, agent, observed, stated, inferred, reality, intent, next_action, current,
  intent_subject, frontier_subject, is_current, is_active, kind_eq, origin_eq, unique_slot,
}
use contextd.Core.Projection
use contextd.Core.Projection.{
  Projection, task, current_slot, has_failing_reality, open_task, supersede_claim, supersede_slot,
  push_claim,
}
use contextd.Core.Validate.{trimmed}

-- What the fold takes from outside the repository: the payloads, `serde_json::from_value` for a
-- claim event, and the hexadecimal digest of `blake3`.
pub record Outside (V : Type 0) : Type 0 where
  pub json : Json V
  pub decode : V → Option ClaimEvent
  pub digest : List ℕ → Text

-- `hasher.update` of every part, with a zero byte between two
unfoldable pub hash_input : List Text → List ℕ
hash_input [] = []
hash_input (part ∷ []) = as_bytes part
hash_input (part ∷ next ∷ parts) = as_bytes part ++ 0 ∷ hash_input (next ∷ parts)

unfoldable pub collapse_ws : Text → Text
collapse_ws value = join (str " ") (split_whitespace value)

unfoldable pub shell_subject : Text → Text → Text
shell_subject cwd command = trim cwd ++ str "\n" ++ collapse_ws command

-- The projector's own claims.
abbrev observed_claim : Text → Text → Text → Text → ℤ → Text → ℕ → Option Text → Claim
observed_claim claim_id task_id subject command exit_code event_id at_ms previous = record {
  id = claim_id;
  task_id = task_id;
  kind = reality;
  subject = subject;
  status = current;
  confidence = observed;
  origin = projector;
  text = command ++ str " exited " ++ int_decimal exit_code;
  outcome = some exit_code;
  artifact_refs = [];
  evidence_ids = event_id ∷ [];
  supersedes = previous;
  asserted_by_event_id = event_id;
  updated_at_ms = at_ms;
}

abbrev frontier_claim : Text → Text → Text → Text → ℕ → Option Text → Claim
frontier_claim claim_id task_id command event_id at_ms previous = record {
  id = claim_id;
  task_id = task_id;
  kind = next_action;
  subject = frontier_subject;
  status = current;
  confidence = inferred;
  origin = projector;
  text = str "Re-run and inspect: " ++ command;
  outcome = none;
  artifact_refs = [];
  evidence_ids = event_id ∷ [];
  supersedes = previous;
  asserted_by_event_id = event_id;
  updated_at_ms = at_ms;
}

-- The slot's holder, if there is one, was not written by the projector.
abbrev pub is_authored : Option Claim → Bool
is_authored none = false
is_authored (some c) = not (origin_eq c.origin projector)

unfoldable pub supersede_projector_frontier : Projection → Text → ℕ → Projection
supersede_projector_frontier p task_id at_ms =
    elim (current_slot p task_id next_action frontier_subject) [
      | none ↦ p
      | some c ↦ if not (origin_eq c.origin projector) then p else (supersede_claim p c.id at_ms).0
    ]

-- `unwrap_or_else` of the subject in `assert_claim`
unfoldable pub subject_or : Option Text → ClaimKind → Text → Text
subject_or (some s) kind claim_id = s
subject_or none intent claim_id = intent_subject
subject_or none next_action claim_id = frontier_subject
subject_or none kind claim_id = claim_id

unfoldable pub confidence_or : Option ClaimConfidence → ClaimOrigin → ClaimConfidence
confidence_or (some c) origin = c
confidence_or none user = stated
confidence_or none agent = inferred
confidence_or none projector = observed

-- The first superseding step of `assert_claim`: the slot, if the kind has one.
unfoldable pub vacate : Projection → ClaimEvent → ClaimKind → Text → ℕ → Projection × Option Text
vacate p e kind subject at_ms =
    if unique_slot kind then supersede_slot p e.task_id kind subject at_ms else (p, none)

-- The second one: the claim that the event names.
unfoldable pub retire_named : Projection → Option Text → ℕ → Projection
retire_named p none at_ms = p
retire_named p (some id) at_ms = (supersede_claim p id at_ms).0

abbrev or_else : Option Text → Option Text → Option Text
or_else (some a) b = some a
or_else none b = b

abbrev asserted_claim : ClaimEvent → ClaimKind → Text → Text → Option Text → Text → ℕ → Claim
asserted_claim e kind text subject superseded event_id at_ms = record {
  id = e.claim_id;
  task_id = e.task_id;
  kind = kind;
  subject = subject;
  status = current;
  confidence = confidence_or e.confidence e.origin;
  origin = e.origin;
  text = text;
  outcome = e.outcome;
  artifact_refs = e.artifact_refs;
  evidence_ids = e.evidence_ids;
  supersedes = or_else superseded e.supersedes;
  asserted_by_event_id = event_id;
  updated_at_ms = at_ms;
}

-- `assert_claim`, once the kind and the text are there.
unfoldable pub assert_as : Projection → ClaimEvent → ClaimKind → Text → Text → ℕ → Projection
assert_as p e kind text event_id at_ms =
    let subject = subject_or e.subject kind e.claim_id in
    let (q, superseded) = vacate p e kind subject at_ms in
    push_claim (retire_named q e.supersedes at_ms)
      (asserted_claim e kind text subject superseded event_id at_ms)

unfoldable pub assert_claim : Projection → ClaimEvent → Text → ℕ → Projection
assert_claim p e event_id at_ms = elim e.kind [
  | none ↦ p
  | some kind ↦ elim (trimmed e.text) [
    | none ↦ p
    | some text ↦ assert_as p e kind text event_id at_ms
  ]
]

-- `.filter(|id| !id.is_empty()).unwrap_or(claim_id)`
unfoldable pub target_of : ClaimEvent → Text
target_of e = elim e.supersedes [
  | none ↦ e.claim_id
  | some id ↦ if is_empty id then e.claim_id else id
]

abbrev pub is_some : {A : Type 0} → Option A → Bool
is_some none = false
is_some (some a) = true

-- `fold_claim` behind its early returns.
unfoldable pub apply_claim : Projection → ClaimEvent → Text → ℕ → Projection
apply_claim p e event_id at_ms =
    let q = open_task p e.task_id event_id at_ms in
    elim e.op [
      | close_task ↦ Projection.close_task q e.task_id event_id at_ms
      | supersede ↦
          let r = (supersede_claim q (target_of e) at_ms).0 in
          if is_some e.text && is_some e.kind then assert_claim r e event_id at_ms else r
      | assert ↦ assert_claim q e event_id at_ms
    ]

unfoldable pub fold_decoded : Projection → Option ClaimEvent → Text → ℕ → Projection
fold_decoded p none event_id at_ms = p
fold_decoded p (some e) event_id at_ms =
    if is_empty e.task_id then p else apply_claim p e event_id at_ms

module _ {V : Type 0} (out : Outside V) where
  unfoldable pub hashed_id : Text → List Text → Text
  hashed_id prefix parts = prefix ++ take 32 (out.digest (hash_input parts))

  unfoldable pub task_id_for_subject : Text → Text
  task_id_for_subject subject = hashed_id (str "t_") (subject ∷ [])

  unfoldable pub ensure_projector_frontier : Projection → Text → Text → Text → ℕ → Projection
  ensure_projector_frontier p task_id command event_id at_ms =
      if is_authored (current_slot p task_id next_action frontier_subject)
      then p
      else let (q, previous) = supersede_slot p task_id next_action frontier_subject at_ms in
        push_claim q (
          frontier_claim (hashed_id (str "c_") (task_id ∷ frontier_subject ∷ event_id ∷ [])) task_id
            command event_id at_ms previous)

  -- The reality of `fold_shell`: the task is opened, the slot is vacated, the new reality recorded.
  unfoldable pub record_run : Projection → Text → Text → ℤ → Text → Text → ℕ → Projection
  record_run p task_id command exit_code subject event_id at_ms =
      let opened = open_task p task_id event_id at_ms in
      let (q, previous) = supersede_slot opened task_id reality subject at_ms in
      push_claim q (
        observed_claim (hashed_id (str "c_") (task_id ∷ subject ∷ event_id ∷ [])) task_id subject
          command exit_code event_id at_ms previous)

  -- `fold_shell` behind its early returns.
  unfoldable pub apply_run : Projection → Text → ℤ → Text → Text → ℕ → Projection
  apply_run p command exit_code subject event_id at_ms =
      let task_id = task_id_for_subject subject in
      let q = record_run p task_id command exit_code subject event_id at_ms in
      if not (is_zero exit_code)
      then ensure_projector_frontier q task_id command event_id at_ms
      else supersede_projector_frontier q task_id at_ms

  -- The command and the exit code of a shell event, if both are there.
  unfoldable pub run_of : V → Option (Text × ℤ)
  run_of payload = elim (trimmed (str_at out.json payload (str "command"))) [
    | none ↦ none
    | some command ↦ elim (i64_at out.json payload (str "exit_code")) [
      | none ↦ none
      | some code ↦ some (collapse_ws command, code)
    ]
  ]

  abbrev pub cwd_of : V → Text
  cwd_of payload = elim (str_at out.json payload (str "cwd")) [ none ↦ [] | some cwd ↦ cwd ]

  unfoldable pub fold_shell : Projection → RawEvent V → Projection
  fold_shell p event = elim (run_of event.payload) [
    | none ↦ p
    | some (command, code) ↦
        apply_run p command code (shell_subject (cwd_of event.payload) command) event.id
          event.timestamp_ms
  ]

  unfoldable pub fold_claim : Projection → RawEvent V → Projection
  fold_claim p event = fold_decoded p (out.decode event.payload) event.id event.timestamp_ms

  unfoldable pub fold_event : Projection → RawEvent V → Projection
  fold_event p event = elim event.source [
    | EventSource.shell ↦ fold_shell p event
    | EventSource.claim ↦ fold_claim p event
    | _ ↦ p
  ]

  unfoldable pub fold_from : Projection → List (RawEvent V) → Projection
  fold_from p [] = p
  fold_from p (event ∷ events) = fold_from (fold_event p event) events

  unfoldable pub fold : List (RawEvent V) → Projection
  fold events = fold_from Projection.default events
