-- ===== src/Daemon/Claims/Admission.antt =====
-- What the handlers of bin/contextd/src/main.rs admit.
use contextd.Prelude.{
  ◌≤◌, ◌≡◌, ◌≢◌, ◌↔◌, ◌∙◌, ap, refl, sym, subst, true, Option, none, some, [], ◌∷◌, ◌++◌, arith,
  length,
}
use contextd.Prelude.Result.{ok, ok_or, bind-ok}
use contextd.Text.{Text, str, trim}
use contextd.Text.Spaces.{trim-trim}
use contextd.Core.Claim.{
  ClaimKind, ClaimConfidence, Claim, Task, projector, user, agent, stated, intent, next_action,
  intent_subject, frontier_subject, origin_eq, assert,
}
use contextd.Core.Projection.{Projection, claim, current_slot}
use contextd.Core.Validate.{
  validate, validate_against_projection, check_text, replaced_id, non_empty,
}
use contextd.Core.Validate.Policy.{validate-ok_iff, may_state}
use contextd.Core.Validate.Authority.{foreign-rejected}
use contextd.Memory.Project.{Outside, hashed_id}
use contextd.Memory.Focal.{focal_task}
use contextd.Daemon.Claims.{
  Reply, no_active_task, record_user_intent, record_agent_claim, agent_event, agent_supersedes,
  agent_confidence, user_event, id_or_new,
}

pub check_text-ok :
    (raw t : Text) → check_text raw ≡ ok t → (trim t ≡ t) × (1 ≤ length t) × (length t ≤ 500)
unfolding check_text
check_text-ok raw t h = (ap trim (sym same) ∙ trim-trim raw ∙ same, ground arith, ground arith)
  where
    same : trim raw ≡ t
    same = ground arith

-- A statement that a user makes through a handler passes the rules.
user-accepted :
    (raw t id task_id subject : Text) (k : ClaimKind)
    → check_text raw ≡ ok t
    → may_state user stated k ≡ true
    → validate user (record (user_event id task_id k t) { subject = some subject }) ≡ ok tt
user-accepted raw t id task_id subject k h may =
    let (same, low, high) = check_text-ok raw t h in
    (validate-ok_iff user (record (user_event id task_id k t) { subject = some subject })).1
      (refl, λ e. ground arith, (k, stated, t, refl, refl, refl, rw same low, rw same high, may))

-- What declaring an intent is to append: a user's statement of an intent, on that task.
abbrev pub declared : Text → Text → Text → Reply
declared event_id task_id text = record {
  event = record {
    op = assert;
    claim_id = str "c_" ++ event_id;
    task_id = task_id;
    kind = some intent;
    subject = some (str "objective");
    text = some text;
    confidence = some stated;
    origin = user;
    outcome = none;
    artifact_refs = [];
    evidence_ids = [];
    supersedes = none;
  };
  claim_id = str "c_" ++ event_id;
  task_id = task_id;
}

check_text-trims :
    (raw t : Text)
    → check_text raw ≡ ok t
    → (trim raw ≡ t) × (1 ≤ length (trim raw)) × (length (trim raw) ≤ 500)
unfolding check_text
check_text-trims raw t h = (ground arith, ground arith, ground arith)

check_text-within :
    (raw : Text) → 1 ≤ length (trim raw) → length (trim raw) ≤ 500 → check_text raw ≡ ok (trim raw)
unfolding check_text
check_text-within raw low high = ground arith

-- A text that passes the check is declared, on the focal task or a task of its own.
pub record_user_intent-declared :
    {V : Type 0} (out : Outside V) (p : Projection) (event_id raw t : Text)
    → check_text raw ≡ ok t
    → record_user_intent out p event_id raw
      ≡ ok (
          declared event_id (id_or_new (focal_task p) (hashed_id out (str "t_") (event_id ∷ []))) t)
unfolding record_user_intent
record_user_intent-declared out p event_id raw t h =
    let task_id = id_or_new (focal_task p) (hashed_id out (str "t_") (event_id ∷ [])) in
    rw (h, user-accepted raw t event_id task_id intent_subject intent h refl)

passed-check :
    {V : Type 0} (out : Outside V) (p : Projection) (event_id raw : Text) (r : Reply)
    → record_user_intent out p event_id raw ≡ ok r
    → (t : Text) × (check_text raw ≡ ok t)
unfolding record_user_intent
passed-check out p event_id raw r h =
    let (t, checked, _) = bind-ok (check_text raw) _ r h in (t, checked)

-- Declaring an intent succeeds exactly if the text has 1 to 500 characters after trimming: no rule
-- then rejects it, and the reply holds a user's statement of an intent with the trimmed text, on
-- the focal task or, if there is none, on a task whose id is hashed from the event's.
pub record_user_intent-ok_iff :
    {V : Type 0} (out : Outside V) (p : Projection) (event_id raw : Text) (r : Reply)
    → (record_user_intent out p event_id raw ≡ ok r) ↔ (
        (1 ≤ length (trim raw))
        × (length (trim raw) ≤ 500)
        × (r
            ≡ declared event_id
                (id_or_new (focal_task p) (hashed_id out (str "t_") (event_id ∷ [])))
                (trim raw)))
record_user_intent-ok_iff out p event_id raw r = (
  λ h.
      let (t, checked) = passed-check out p event_id raw r h in
      let (same, low, high) = check_text-trims raw t checked in
      let ran = record_user_intent-declared out p event_id raw t checked in
      (low, high, rw same (ground arith)),
  λ (low, high, same).
      rw same (
        record_user_intent-declared out p event_id raw (trim raw) (check_text-within raw low high)),
)

supersedes-frontier :
    (p : Projection) (task_id : Text) (replaces : Option Text) (c : Claim)
    → current_slot p task_id next_action frontier_subject ≡ some c
    → c.origin ≡ projector
    → agent_supersedes p task_id next_action replaces ≡ some c.id
unfolding agent_supersedes origin_eq
supersedes-frontier p task_id replaces c held ours = rw (held, agent_supersedes, ours)

-- An agent's claim that is recorded has passed the rules on the view.
passed-view :
    (p : Projection) (event_id raw : Text) (kind : ClaimKind) (confidence : Option ClaimConfidence)
    (replaces : Option Text) (t : Task) (r : Reply)
    → focal_task p ≡ some t
    → record_agent_claim p event_id kind raw confidence replaces ≡ ok r
    → (text : Text) × (validate_against_projection agent
          (agent_event event_id t.id kind text
            (agent_confidence kind confidence)
            (agent_supersedes p t.id kind replaces))
          p
        ≡ ok tt)
unfolding record_agent_claim
passed-view p event_id raw kind confidence replaces t r focal h =
    let (t', found, go) = bind-ok (ok_or (focal_task p) no_active_task) _ r h in
    let same : t' ≡ t = ground arith in
    let (text, checked, go_on) = bind-ok (check_text raw) _ r go in
    let (_, valid, last) = bind-ok (validate agent _) _ r go_on in
    let (u, accepted, _) = bind-ok (validate_against_projection agent _ p) _ r last in
    (
      text,
      subst
          (λ (x : Task).
            validate_against_projection agent
              (agent_event event_id x.id kind text (agent_confidence kind confidence)
                (agent_supersedes p x.id kind replaces))
              p
            ≡ ok tt)
          same accepted,
    )

-- An agent cannot state its next action while the projector's own next action is in force on the
-- focal task: the handler names that claim as the one to replace, and the rules reject it. (The
-- claim is the first of its id, and the id is not empty, as for every id that the projector makes.)
pub record_agent_claim-blocked :
    (p : Projection) (event_id raw : Text) (confidence : Option ClaimConfidence)
    (replaces : Option Text) (t : Task) (c : Claim) (r : Reply)
    → focal_task p ≡ some t
    → current_slot p t.id next_action frontier_subject ≡ some c
    → claim p c.id ≡ some c
    → c.origin ≡ projector
    → c.id ≢ []
    → record_agent_claim p event_id next_action raw confidence replaces ≢ ok r
unfolding replaced_id
record_agent_claim-blocked p event_id raw confidence replaces t c r focal held there ours named h =
    let (text, accepted) = passed-view p event_id raw next_action confidence replaces t r focal h in
    foreign-rejected
      (agent_event event_id t.id next_action text (agent_confidence next_action confidence)
        (agent_supersedes p t.id next_action replaces))
      p c.id c
      (replaced (agent_supersedes p t.id next_action replaces)
        (supersedes-frontier p t.id replaces c held ours))
      there (λ e. ground arith) accepted
  where
    keeps_named : (s : Text) → s ≢ [] → non_empty (some s) ≡ some s
    keeps_named [] h = absurd (h refl)
    keeps_named (x ∷ s) h = refl

    replaced : (o : Option Text) → o ≡ some c.id → non_empty o ≡ some c.id
    replaced o e = rw e (keeps_named c.id named)
