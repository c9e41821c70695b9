-- ===== src/Broker/Snapshot/View.antt =====
-- crates/broker/src/snapshot.rs: the parts of a briefing, computed from the claim view.
use contextd.Prelude.{
  ℕ, Bool, true, false, not, ◌&&◌, ◌||◌, Option, none, some, List, [], ◌∷◌, ◌++◌, ltb, ◌==◌, any,
  find?, filter, map, if◌then◌else◌,
}
use contextd.Prelude.Int.{is_zero}
use contextd.Prelude.Sorting.{sort_by}
use contextd.Text.{Text, str, text_eq, text_le, member, strip_suffix}
use contextd.Core.Claim.{
  Task, Claim, ClaimKind, ClaimConfidence, ClaimOrigin, TaskStatus, observed, stated, inferred,
  hypothesis, projector, reality, intent, decision, constraint, ruled_out, unknown, next_action,
  is_current, is_active, kind_eq, origin_eq, intent_subject,
}
use contextd.Core.Projection.{
  Projection, task, current_slot, current_for_task, has_failing_reality, is_failing_reality,
  is_failure,
}
use contextd.Memory.Focal.{task_le, claim_le}

pub record RenderedClaim : Type 0 where
  pub id : Text
  pub text : Text
  pub confidence : ClaimConfidence
  pub origin : ClaimOrigin
  pub evidence_ids : List Text

pub record FocalTaskView : Type 0 where
  pub id : Text
  pub status : TaskStatus
  pub intent : Option RenderedClaim
  pub constraints : List RenderedClaim
  pub reality : List RenderedClaim
  pub decisions : List RenderedClaim
  pub ruled_out : List RenderedClaim
  pub unknowns : List RenderedClaim
  pub next_action : Option RenderedClaim
  pub artifacts : List Text

pub record OtherTaskLine : Type 0 where
  pub id : Text
  pub status : TaskStatus
  pub summary : Text

pub record PassedCheck : Type 0 where
  pub task_id : Text
  pub text : Text
  pub evidence_ids : List Text

unfoldable pub render_claim : Claim → RenderedClaim
render_claim c = record {
  id = c.id;
  text = c.text;
  confidence = c.confidence;
  origin = c.origin;
  evidence_ids = c.evidence_ids;
}

unfoldable pub confidence_rank : ClaimConfidence → ℕ
confidence_rank observed = 0
confidence_rank stated = 1
confidence_rank inferred = 2
confidence_rank hypothesis = 3

unfoldable pub previously_failed : Projection → Claim → Bool
previously_failed p c =
    any
      (λ (d : Claim).
        not (text_eq d.id c.id)
        && text_eq d.task_id c.task_id
        && kind_eq d.kind reality
        && text_eq d.subject c.subject
        && not (is_current d.status)
        && is_failure d.outcome)
      p.claims

unfoldable pub pass_text : Text → Text
pass_text reality_text = elim (strip_suffix reality_text (str " exited 0")) [
  | some command ↦ command ++ str " now passes"
  | none ↦ reality_text ++ str " now passes"
]

abbrev pub is_active_task : Projection → Text → Bool
is_active_task p id = elim (task p id) [ some t ↦ is_active t.status | none ↦ false ]

-- The filter of `passed_checks`.
abbrev pub is_passed : Projection → Claim → Bool
is_passed p c =
    is_current c.status
    && kind_eq c.kind reality
    && (elim c.outcome [ some code ↦ is_zero code | none ↦ false ])
    && previously_failed p c
    && is_active_task p c.task_id

unfoldable pub check_le : PassedCheck → PassedCheck → Bool
check_le a b =
    not (text_le b.task_id a.task_id) || (text_eq a.task_id b.task_id && text_le a.text b.text)

unfoldable pub passed_checks : Projection → List PassedCheck
passed_checks p = sort_by check_le (
    map
      (λ (c : Claim). record {
        task_id = c.task_id;
        text = pass_text c.text;
        evidence_ids = c.evidence_ids;
      })
      (filter (is_passed p) p.claims))

unfoldable pub standing_constraints : Projection → List RenderedClaim
standing_constraints p = map render_claim (
    sort_by claim_le
      (filter (λ (c : Claim). is_current c.status && kind_eq c.kind constraint) p.claims))

unfoldable pub firmer_le : Claim → Claim → Bool
firmer_le a b =
    ltb (confidence_rank a.confidence) (confidence_rank b.confidence)
    || (confidence_rank a.confidence == confidence_rank b.confidence && claim_le a b)

-- A reality that holds (outcome 0) is left out.
abbrev is_picked : ClaimKind → Claim → Bool
is_picked kind c =
    kind_eq c.kind kind
    && (if kind_eq kind reality
        then not (elim c.outcome [ some code ↦ is_zero code | none ↦ false ])
        else true)

-- The closure `pick` of `focal_view`.
unfoldable pub pick : List Claim → ClaimKind → List RenderedClaim
pick claims kind = map render_claim (sort_by firmer_le (filter (is_picked kind) claims))

-- `.into_iter().next()`
abbrev first : {A : Type 0} → List A → Option A
first [] = none
first (x ∷ xs) = some x

-- Artifacts in the order of their first mention.
unfoldable pub add_new : List Text → List Text → List Text
add_new seen [] = seen
add_new seen (a ∷ more) = add_new (if member a seen then seen else seen ++ a ∷ []) more

unfoldable pub artifacts_of : List Text → List Claim → List Text
artifacts_of seen [] = seen
artifacts_of seen (c ∷ cs) = artifacts_of (add_new seen c.artifact_refs) cs

unfoldable pub focal_view : Projection → Task → FocalTaskView
focal_view p t =
    let claims = current_for_task p t.id in
    record {
      id = t.id;
      status = t.status;
      intent = first (pick claims intent);
      constraints = [];
      reality = pick claims reality;
      decisions = pick claims decision;
      ruled_out = pick claims ruled_out;
      unknowns = pick claims unknown;
      next_action = first (pick claims next_action);
      artifacts = artifacts_of [] claims;
    }

-- The match of `has_authored_continuation`.
unfoldable pub continues : Claim → Bool
continues c = elim c.kind [
  | decision ↦ true
  | ruled_out ↦ true
  | unknown ↦ true
  | intent ↦ true
  | next_action ↦ not (origin_eq c.origin projector)
  | reality ↦ not (origin_eq c.origin projector)
  | constraint ↦ false
]

unfoldable pub has_authored_continuation : Projection → Text → Bool
has_authored_continuation p task_id = any continues (current_for_task p task_id)

abbrev is_focal : Option Text → Text → Bool
is_focal none id = false
is_focal (some focal_id) id = text_eq focal_id id

abbrev pub is_open : Projection → Option Text → Task → Bool
is_open p focal_id t =
    is_active t.status && not (is_focal focal_id t.id) && has_authored_continuation p t.id

unfoldable pub open_work_of : Projection → Option Text → List FocalTaskView
open_work_of p focal_id = map (focal_view p) (sort_by task_le (filter (is_open p focal_id) p.tasks))

unfoldable pub task_summary : Projection → Task → Text
task_summary p t = elim (current_slot p t.id intent intent_subject) [
  | some c ↦ c.text
  | none ↦ elim (find? is_failing_reality (current_for_task p t.id)) [
    | some c ↦ c.text
    | none ↦ elim (current_for_task p t.id) [ c ∷ cs ↦ c.text | [] ↦ t.id ]
  ]
]

abbrev is_other : Projection → Text → Task → Bool
is_other p focal_id t =
    is_active t.status && not (text_eq t.id focal_id) && has_failing_reality p t.id

unfoldable pub other_tasks : Projection → Text → List OtherTaskLine
other_tasks p focal_id =
    sort_by (λ (a b : OtherTaskLine). text_le a.id b.id)
      (map (λ (t : Task). record { id = t.id; status = t.status; summary = task_summary p t })
        (filter (is_other p focal_id) p.tasks))
