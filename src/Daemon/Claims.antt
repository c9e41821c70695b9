-- ===== src/Daemon/Claims.antt =====
-- bin/contextd/src/main.rs: the handlers that turn a request into a claim event. The view that they
-- read, the minted event id and the clock are arguments; a handler returns the event that it
-- appends to the log and the two ids of its reply, or an error message.
pub mod Admission
pub mod Recorded
use contextd.Prelude.{Bool, true, false, not, ◌&&◌, Option, none, some, [], ◌∷◌, ◌++◌}
use contextd.Prelude.Result.{Result, ok, err, ◌>>=◌, ◌>>◌, ok_or}
use contextd.Text.{Text, str}
use contextd.Core.Claim.{
  ClaimEvent, ClaimKind, ClaimConfidence, Task, assert, supersede, close_task, user, agent, stated,
  inferred, hypothesis, intent, next_action, unknown, intent_subject, frontier_subject, kind_eq,
  origin_eq,
}
use contextd.Core.Projection.{Projection, claim, current_slot}
use contextd.Core.Validate.{validate, validate_against_projection, check_text, ClaimError, or_else}
use contextd.Memory.Project.{Outside, hashed_id}
use contextd.Memory.Focal.{focal_task}

-- `UserClaimKind` of crates/core/src/protocol.rs
pub data UserClaimKind : Type 0 where
  constraint decision ruled_out retract done : UserClaimKind

abbrev pub no_active_task : Text
no_active_task = str "no active task; run contextd intent \"...\" first"

-- The appended event and the ids of `write_ok`.
pub record Reply : Type 0 where
  pub event : ClaimEvent
  pub claim_id : Text
  pub task_id : Text

abbrev pub claim_id_of : Text → Text
claim_id_of event_id = str "c_" ++ event_id

abbrev pub intent_event : Text → Text → Text → ClaimEvent
intent_event event_id task_id text = record {
  op = assert;
  claim_id = claim_id_of event_id;
  task_id = task_id;
  kind = some intent;
  subject = some intent_subject;
  text = some text;
  confidence = some stated;
  origin = user;
  outcome = none;
  artifact_refs = [];
  evidence_ids = [];
  supersedes = none;
}

abbrev pub close_event : Text → Text → ClaimEvent
close_event event_id task_id = record {
  op = close_task;
  claim_id = claim_id_of event_id;
  task_id = task_id;
  kind = none;
  subject = none;
  text = none;
  confidence = none;
  origin = user;
  outcome = none;
  artifact_refs = [];
  evidence_ids = [];
  supersedes = none;
}

abbrev pub retract_event : Text → Text → ClaimEvent
retract_event claim_id task_id = record {
  op = supersede;
  claim_id = claim_id;
  task_id = task_id;
  kind = none;
  subject = none;
  text = none;
  confidence = none;
  origin = user;
  outcome = none;
  artifact_refs = [];
  evidence_ids = [];
  supersedes = some claim_id;
}

abbrev pub user_event : Text → Text → ClaimKind → Text → ClaimEvent
user_event event_id task_id kind text = record {
  op = assert;
  claim_id = claim_id_of event_id;
  task_id = task_id;
  kind = some kind;
  subject = some (claim_id_of event_id);
  text = some text;
  confidence = some stated;
  origin = user;
  outcome = none;
  artifact_refs = [];
  evidence_ids = [];
  supersedes = none;
}

-- `subject` and `supersedes` of `record_agent_claim`.
abbrev pub agent_subject : ClaimKind → Text → Text
agent_subject next_action claim_id = frontier_subject
agent_subject kind claim_id = claim_id

unfoldable pub agent_supersedes : Projection → Text → ClaimKind → Option Text → Option Text
agent_supersedes p task_id next_action replaces =
    elim (current_slot p task_id next_action frontier_subject) [
      | some c ↦ elim (origin_eq c.origin user) [ true ↦ replaces | false ↦ some c.id ]
      | none ↦ replaces
    ]
agent_supersedes p task_id kind replaces = replaces

-- Unknowns are hypotheses, and what has no confidence is inferred.
abbrev pub agent_confidence : ClaimKind → Option ClaimConfidence → ClaimConfidence
agent_confidence unknown c = hypothesis
agent_confidence kind none = inferred
agent_confidence kind (some c) = c

abbrev pub agent_event : Text → Text → ClaimKind → Text → ClaimConfidence → Option Text → ClaimEvent
agent_event event_id task_id kind text confidence supersedes = record {
  op = assert;
  claim_id = claim_id_of event_id;
  task_id = task_id;
  kind = some kind;
  subject = some (agent_subject kind (claim_id_of event_id));
  text = some text;
  confidence = some confidence;
  origin = agent;
  outcome = none;
  artifact_refs = [];
  evidence_ids = [];
  supersedes = supersedes;
}

abbrev pub id_or_new : Option Task → Text → Text
id_or_new (some t) new = t.id
id_or_new none new = new

abbrev task_of : Projection → Text → Text
task_of p claim_id = elim (claim p claim_id) [ some c ↦ c.task_id | none ↦ [] ]

abbrev text_or_empty : Option Text → Text
text_or_empty none = str ""
text_or_empty (some t) = t

unfoldable pub record_user_intent :
    {V : Type 0} → Outside V → Projection → Text → Text → Result ClaimError Reply
record_user_intent out p event_id raw_text = do
  text ← check_text raw_text
  let task_id = id_or_new (focal_task p) (hashed_id out (str "t_") (event_id ∷ []))
  let body = intent_event event_id task_id text
  validate user body
  ok (record { event = body; claim_id = claim_id_of event_id; task_id = task_id })

-- The three branches of `record_user_claim`.
unfoldable pub record_done : Projection → Text → Result ClaimError Reply
record_done p event_id = do
  task ← ok_or (focal_task p) no_active_task
  let body = close_event event_id task.id
  validate user body
  ok (record { event = body; claim_id = str ""; task_id = task.id })

unfoldable pub record_retract : Projection → Option Text → Result ClaimError Reply
record_retract p raw_text = do
  claim_id ← check_text (text_or_empty raw_text)
  let body = retract_event claim_id (task_of p claim_id)
  validate user body
  validate_against_projection user body p
  ok (record { event = body; claim_id = claim_id; task_id = body.task_id })

unfoldable pub record_statement :
    Projection → Text → ClaimKind → Option Text → Result ClaimError Reply
record_statement p event_id kind raw_text = do
  task ← ok_or (focal_task p) no_active_task
  text ← check_text (text_or_empty raw_text)
  let body = user_event event_id task.id kind text
  validate user body
  ok (record { event = body; claim_id = claim_id_of event_id; task_id = task.id })

unfoldable pub record_user_claim :
    Projection → Text → UserClaimKind → Option Text → Result ClaimError Reply
record_user_claim p event_id UserClaimKind.done text = record_done p event_id
record_user_claim p event_id UserClaimKind.retract text = record_retract p text
record_user_claim p event_id UserClaimKind.constraint text =
    record_statement p event_id ClaimKind.constraint text
record_user_claim p event_id UserClaimKind.decision text =
    record_statement p event_id ClaimKind.decision text
record_user_claim p event_id UserClaimKind.ruled_out text =
    record_statement p event_id ClaimKind.ruled_out text

unfoldable pub record_agent_claim :
    Projection
    → Text
    → ClaimKind
    → Text
    → Option ClaimConfidence
    → Option Text
    → Result ClaimError Reply
record_agent_claim p event_id kind raw_text confidence replaces = do
  task ← ok_or (focal_task p) no_active_task
  text ← check_text raw_text
  let supersedes = agent_supersedes p task.id kind replaces
  let body = agent_event event_id task.id kind text (agent_confidence kind confidence) supersedes
  validate agent body
  validate_against_projection agent body p
  ok (record { event = body; claim_id = claim_id_of event_id; task_id = task.id })
