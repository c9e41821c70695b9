-- ===== src/Examples/Claims.antt =====
-- The theorems on the rules for claims and on the handlers, at a small view.
use contextd.Prelude.{
  ◌⊎◌, inl, inr, ◌≤◌, length, ◌≡◌, ◌≢◌, ◌↔◌, refl, none, some, [], ◌∷◌, find?, filter, any, count,
  not, ◌&&◌, true,
}
use contextd.Prelude.Members.{Among}
use contextd.Prelude.Sorting.{sort_by, insert_by}
use contextd.Prelude.Int.{pos}
use contextd.Prelude.Result.{ok}
use contextd.Text.{str, text_eq, trim}
use contextd.Core.Claim.{
  Claim, ClaimEvent, Task, active, current, assert, user, agent, projector, inferred, observed,
  reality, next_action, decision, frontier_subject, origin_eq, kind_eq,
}
use contextd.Core.Projection.{
  Projection, claim, current_slot, has_failing_reality, current_for_task, in_slot,
}
use contextd.Core.Validate.{
  validate, validate_against_projection, validate_target, validate_existing, replaced_id,
}
use contextd.Core.Validate.Policy.{validate-ok_iff, IsPermitted}
use contextd.Memory.Project.{hashed_id, apply_claim}
use contextd.Memory.Project.Retired.{apply_claim-retires, Replaces, Displaces}
use contextd.Memory.Focal.Choice.{focal_task-IsOldestFailing, focal_task-active}
use contextd.Memory.Focal.{is_failing_task, task_le, focal_task, failing_tasks}
use contextd.Daemon.Claims.{Reply, record_user_intent, record_agent_claim, id_or_new}
use contextd.Daemon.Claims.Admission.{
  record_user_intent-ok_iff, declared, record_agent_claim-blocked,
}
use contextd.Examples.{outside, intent_of}

validate-ok_iff_example :
    (validate user (intent_of (1 ∷ []) (7 ∷ [])) ≡ ok tt)
    ↔ ((user ≡ user) × (user ≢ projector) × IsPermitted assert user (intent_of (1 ∷ []) (7 ∷ [])))
validate-ok_iff_example = validate-ok_iff user (intent_of (1 ∷ []) (7 ∷ []))

-- A task whose last run failed, with the next action that the projector recorded.
abbrev failing_task : Task
failing_task = record {
  id = 7 ∷ [];
  status = active;
  opened_by_event_id = 1 ∷ [];
  closed_by_event_id = none;
  created_at_ms = 1;
  updated_at_ms = 1;
}

abbrev failed_run : Claim
failed_run = record {
  id = 3 ∷ [];
  task_id = 7 ∷ [];
  kind = reality;
  subject = 8 ∷ [];
  status = current;
  confidence = observed;
  origin = projector;
  text = 9 ∷ [];
  outcome = some (pos 1);
  artifact_refs = [];
  evidence_ids = (1 ∷ []) ∷ [];
  supersedes = none;
  asserted_by_event_id = 1 ∷ [];
  updated_at_ms = 1;
}

abbrev frontier : Claim
frontier = record failed_run {
  id = 4 ∷ [];
  kind = next_action;
  subject = frontier_subject;
  confidence = inferred;
  outcome = none;
}

abbrev agent_decision : Claim
agent_decision = record failed_run {
  id = 5 ∷ [];
  kind = decision;
  confidence = inferred;
  origin = agent;
  outcome = none;
}

abbrev view : Projection
view = record { tasks = failing_task ∷ []; claims = failed_run ∷ frontier ∷ agent_decision ∷ [] }

-- An agent replaces its own decision.
abbrev second_thought : ClaimEvent
second_thought = record (intent_of (6 ∷ []) (7 ∷ [])) {
  kind = some decision;
  confidence = some inferred;
  origin = agent;
  supersedes = some (5 ∷ []);
}

apply_claim-retires_example :
    Among agent_decision (apply_claim view second_thought (6 ∷ []) 2).claims
    ⊎ Replaces agent view second_thought agent_decision
    ⊎ Displaces agent view second_thought agent_decision
unfolding validate_against_projection validate_target validate_existing replaced_id claim find?
    text_eq origin_eq
apply_claim-retires_example =
    apply_claim-retires agent second_thought view (6 ∷ []) 2 agent_decision refl refl
      (inr (inr (inl refl)))

-- The text " A"
record_user_intent-ok_iff_example :
    (record_user_intent outside view (9 ∷ []) (32 ∷ 65 ∷ [])
      ≡ ok (declared (9 ∷ []) (7 ∷ []) (65 ∷ [])))
    ↔ ((1 ≤ length (trim (32 ∷ 65 ∷ [])))
        × (length (trim (32 ∷ 65 ∷ [])) ≤ 500)
        × (declared (9 ∷ []) (7 ∷ []) (65 ∷ [])
            ≡ declared
                (9 ∷ [])
                (id_or_new (focal_task view) (hashed_id outside (str "t_") ((9 ∷ []) ∷ [])))
                (trim (32 ∷ 65 ∷ []))))
record_user_intent-ok_iff_example =
    record_user_intent-ok_iff outside view (9 ∷ []) (32 ∷ 65 ∷ [])
      (declared (9 ∷ []) (7 ∷ []) (65 ∷ []))

abbrev any_reply : Reply
any_reply = record { event = second_thought; claim_id = []; task_id = [] }

record_agent_claim-blocked_example :
    record_agent_claim view (9 ∷ []) next_action (65 ∷ []) none none ≢ ok any_reply
unfolding focal_task failing_tasks has_failing_reality current_for_task filter sort_by insert_by any
    kind_eq current_slot in_slot text_eq find? claim str
record_agent_claim-blocked_example =
    record_agent_claim-blocked view (9 ∷ []) (65 ∷ []) none none failing_task frontier any_reply
      refl refl refl refl (λ e. cc)

focal_task-IsOldestFailing_example :
    (t : Task) × (focal_task view ≡ some t)
    × Among t view.tasks
    × (is_failing_task view t ≡ true)
    × (count (λ u. is_failing_task view u && not (task_le t u)) view.tasks ≡ 0)
unfolding has_failing_reality current_for_task filter any kind_eq text_eq
focal_task-IsOldestFailing_example = focal_task-IsOldestFailing view refl

focal_task-active_example : failing_task.status ≡ active
unfolding focal_task failing_tasks has_failing_reality current_for_task filter sort_by insert_by any
    kind_eq text_eq
focal_task-active_example = focal_task-active view failing_task refl
