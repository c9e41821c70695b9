-- ===== src/Examples/Requests.antt =====
-- A request of a user that is recorded and folded.
use contextd.Prelude.{◌≤◌, ◌≡◌, refl, none, some, [], ◌∷◌, arith, count, find?, filter, any}
use contextd.Prelude.Result.{ok}
use contextd.Prelude.Sorting.{sort_by, insert_by, max_by, max_from}
use contextd.Text.{Text, text_eq, trim, trim_start, trim_end, keep_end, is_whitespace}
use contextd.Core.Event.{RawEvent, EventSource}
use contextd.Core.Claim.{
  Claim, Task, active, current, intent, stated, user, intent_subject, kind_eq, origin_eq,
}
use contextd.Core.Projection.{Projection, task, current_slot, has_failing_reality, current_for_task}
use contextd.Core.Projection.Slots.{IsUnique, id_count}
use contextd.Core.Validate.{
  check_text, validate, validate_op, validate_content, validate_role, trimmed, is_user_kind,
}
use contextd.Memory.Project.{fold_event}
use contextd.Memory.Focal.{focal_task, failing_tasks, newest_intent}
use contextd.Daemon.Claims.{Reply, record_user_intent, intent_event, claim_id_of}
use contextd.Daemon.Claims.Recorded.{record_user_intent-current}
use contextd.Examples.{Value, claimed, outside, event_of}

-- A task with an intent.
abbrev old_intent : Claim
old_intent = record {
  id = 3 ∷ [];
  task_id = 7 ∷ [];
  kind = intent;
  subject = intent_subject;
  status = current;
  confidence = stated;
  origin = user;
  text = 66 ∷ [];
  outcome = none;
  artifact_refs = [];
  evidence_ids = [];
  supersedes = none;
  asserted_by_event_id = 1 ∷ [];
  updated_at_ms = 1;
}

abbrev open_task_of_user : Task
open_task_of_user = record {
  id = 7 ∷ [];
  status = active;
  opened_by_event_id = 1 ∷ [];
  closed_by_event_id = none;
  created_at_ms = 1;
  updated_at_ms = 1;
}

abbrev before : Projection
before = record { tasks = open_task_of_user ∷ []; claims = old_intent ∷ [] }

-- The new intent, with white space before it.
abbrev new_intent : RawEvent Value
new_intent = event_of EventSource.claim 2 (claimed (intent_event (101 ∷ 2 ∷ []) (7 ∷ []) (65 ∷ [])))

abbrev reply : Reply
reply = record {
  event = intent_event (101 ∷ 2 ∷ []) (7 ∷ []) (65 ∷ []);
  claim_id = claim_id_of (101 ∷ 2 ∷ []);
  task_id = 7 ∷ [];
}

before-distinct : (j : Text) → id_count j before ≤ 1
before-distinct j = unfold count in ground arith

before-IsUnique : IsUnique before
before-IsUnique = record { at_most_one = λ t k s g. unfold count in ground arith }

accepted : record_user_intent outside before (101 ∷ 2 ∷ []) (32 ∷ 65 ∷ []) ≡ ok reply
unfolding record_user_intent check_text trim trim_start trim_end keep_end is_whitespace focal_task
    failing_tasks newest_intent has_failing_reality current_for_task filter sort_by insert_by max_by
    max_from any find? task text_eq kind_eq origin_eq validate validate_op validate_content
    validate_role trimmed is_user_kind
accepted = refl

record_user_intent-current_example :
    (c : Claim) × (current_slot
        (fold_event outside before new_intent)
        (7 ∷ [])
        intent
        intent_subject
      ≡ some c)
    × (c.text ≡ 65 ∷ [])
    × (c.id ≡ claim_id_of (101 ∷ 2 ∷ []))
    × (c.origin ≡ user)
unfolding check_text trim trim_start trim_end keep_end is_whitespace
record_user_intent-current_example =
    record_user_intent-current outside before new_intent (32 ∷ 65 ∷ []) (65 ∷ []) reply refl
      before-distinct before-IsUnique accepted refl refl refl
