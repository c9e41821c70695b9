-- ===== src/Core/Validate.antt =====
-- crates/core/src/claim.rs: `validate`, `validate_against_projection` and `check_text`, the rules
-- on who may write which claim.
pub mod Policy
pub mod Authority
use contextd.Prelude.{
  Bool, true, false, not, ◌&&◌, ◌||◌, Option, none, some, ◌++◌, ltb, leb, length, if◌then◌else◌,
}
use contextd.Prelude.Result.{Result, ok, ◌>>=◌, ◌>>◌, reject_if, ok_or}
use contextd.Text.{Text, str, is_empty, text_eq, trim}
use contextd.Core.Claim.{
  ClaimEvent, ClaimKind, ClaimConfidence, ClaimOrigin, ClaimOp, Claim, assert, supersede,
  close_task, projector, user, agent, observed, stated, inferred, hypothesis, reality, intent,
  decision, constraint, ruled_out, unknown, next_action, max_claim_text, frontier_subject, kind_eq,
  origin_eq, kind_str, origin_str,
}
use contextd.Core.Projection.{Projection, claim, current_slot}

-- `ClaimError` carries its message.
abbrev pub ClaimError : Type 0
ClaimError = Text

-- `.filter(|s| !s.is_empty())`
abbrev pub non_empty : Option Text → Option Text
non_empty none = none
non_empty (some s) = if is_empty s then none else some s

abbrev pub or_else : Option Text → Option Text → Option Text
or_else (some a) b = some a
or_else none b = b

abbrev pub is_none : {A : Type 0} → Option A → Bool
is_none none = true
is_none (some a) = false

-- The target of a retraction: `supersedes` if it is not empty, else the claim's own id.
abbrev pub retract_target : ClaimEvent → Option Text
retract_target e = or_else (non_empty e.supersedes) (non_empty (some e.claim_id))

-- `.map(str::trim).filter(|text| !text.is_empty())`
unfoldable pub trimmed : Option Text → Option Text
trimmed none = none
trimmed (some t) = non_empty (some (trim t))

unfoldable pub is_user_kind : ClaimKind → Bool
is_user_kind intent = true
is_user_kind constraint = true
is_user_kind decision = true
is_user_kind ruled_out = true
is_user_kind _ = false

unfoldable pub is_agent_kind : ClaimKind → Bool
is_agent_kind reality = true
is_agent_kind decision = true
is_agent_kind ruled_out = true
is_agent_kind unknown = true
is_agent_kind next_action = true
is_agent_kind _ = false

abbrev is_stated : ClaimConfidence → Bool
is_stated stated = true
is_stated _ = false

abbrev is_hypothesis : ClaimConfidence → Bool
is_hypothesis hypothesis = true
is_hypothesis _ = false

abbrev is_observed_or_stated : ClaimConfidence → Bool
is_observed_or_stated observed = true
is_observed_or_stated stated = true
is_observed_or_stated _ = false

abbrev is_inferred_or_hypothesis : ClaimConfidence → Bool
is_inferred_or_hypothesis inferred = true
is_inferred_or_hypothesis hypothesis = true
is_inferred_or_hypothesis _ = false

-- The last match of `validate`. Its arm for the projector is unreachable; here it accepts.
unfoldable pub validate_role :
    ClaimOrigin → ClaimKind → ClaimConfidence → Result ClaimError (Unit {0})
unfolding is_user_kind is_agent_kind kind_eq
validate_role user kind confidence = do
  reject_if (not (is_stated confidence)) (str "user claims must be stated")
  reject_if (not (is_user_kind kind)) (str "user cannot author a " ++ kind_str kind ++ str " claim")
  ok tt
validate_role agent kind confidence = do
  reject_if (is_observed_or_stated confidence)
      (str "an agent cannot write observed or stated claims")
  reject_if (not (is_inferred_or_hypothesis confidence))
      (str "an agent can only write inferred or hypothesis claims")
  reject_if (kind_eq kind intent || kind_eq kind constraint)
      (str "an agent cannot author a " ++ kind_str kind ++ str " claim")
  reject_if (kind_eq kind unknown && not (is_hypothesis confidence))
      (str "unknowns must be hypothesis")
  reject_if (not (is_agent_kind kind))
      (str "an agent cannot author a " ++ kind_str kind ++ str " claim")
  ok tt
validate_role projector kind confidence = ok tt

-- From `let kind = event.kind` to the end.
unfoldable pub validate_content : ClaimOrigin → ClaimEvent → Result ClaimError (Unit {0})
unfolding trimmed validate_role
validate_content origin e = do
  kind ← ok_or e.kind (str "claim needs a kind")
  confidence ← ok_or e.confidence (str "claim needs a confidence")
  text ← ok_or (trimmed e.text) (str "claim text must be 1 to 500 characters")
  reject_if (ltb max_claim_text (length text)) (str "claim text must be 1 to 500 characters")
  validate_role origin kind confidence

-- The match on `event.op`.
unfoldable pub validate_op : ClaimOp → ClaimOrigin → ClaimEvent → Result ClaimError (Unit {0})
unfolding validate_content origin_eq
validate_op close_task origin e =
    reject_if (not (origin_eq origin user)) (str "only the user can close a task")
validate_op supersede origin e = do
  reject_if (is_none (retract_target e)) (str "retract needs a claim id")
  if is_none e.text then ok tt else validate_content origin e
validate_op assert origin e = validate_content origin e

unfoldable pub validate : ClaimOrigin → ClaimEvent → Result ClaimError (Unit {0})
unfolding validate_op origin_eq
validate origin e = do
  reject_if (not (origin_eq e.origin origin))
      (str "origin must be " ++ origin_str origin ++ str ", not " ++ origin_str e.origin)
  reject_if (origin_eq origin projector)
      (str "projector claims are derived from the log, not authored")
  validate_op e.op origin e

-- `target_id` of `validate_against_projection`
unfoldable pub replaced_id : ClaimEvent → Option Text
replaced_id e = elim e.op [
  | supersede ↦ or_else (non_empty e.supersedes) (non_empty (some e.claim_id))
  | _ ↦ non_empty e.supersedes
]

abbrev is_observed : ClaimConfidence → Bool
is_observed observed = true
is_observed _ = false

-- The checks on the claim that is replaced.
unfoldable pub validate_existing : ClaimOrigin → ClaimEvent → Claim → Result ClaimError (Unit {0})
unfolding origin_eq
validate_existing origin e existing = do
  reject_if
      (origin_eq origin user
        && origin_eq existing.origin projector
        && is_observed existing.confidence)
      (str "cannot retract an observed reality; re-run the command")
  reject_if (origin_eq origin agent && not (origin_eq existing.origin agent))
      (str "an agent may only replace its own claims")
  reject_if (origin_eq origin agent && not (text_eq existing.task_id e.task_id))
      (str "an agent may only replace claims on the focal task")

unfoldable pub validate_target :
    ClaimOrigin → ClaimEvent → Projection → Option Text → Result ClaimError (Unit {0})
unfolding validate_existing
validate_target origin e p none = ok tt
validate_target origin e p (some id) = do
  existing ← ok_or (claim p id) (str "unknown claim " ++ id)
  validate_existing origin e existing

abbrev pub is_next_action : Option ClaimKind → Bool
is_next_action (some next_action) = true
is_next_action _ = false

abbrev pub is_by_user : Option Claim → Bool
is_by_user none = false
is_by_user (some c) = elim c.origin [ user ↦ true | _ ↦ false ]

unfoldable pub validate_against_projection :
    ClaimOrigin → ClaimEvent → Projection → Result ClaimError (Unit {0})
unfolding validate_target replaced_id origin_eq
validate_against_projection origin e p = do
  validate_target origin e p (replaced_id e)
  reject_if
      (origin_eq origin agent
        && is_next_action e.kind
        && is_by_user (current_slot p e.task_id next_action frontier_subject))
      (str "cannot overwrite a user next action")

unfoldable pub check_text : Text → Result ClaimError Text
check_text text =
    let t = trim text in
    if leb 1 (length t) && leb (length t) max_claim_text
    then ok t
    else Result.err (str "claim text must be 1 to 500 characters")
