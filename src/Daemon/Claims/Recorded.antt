-- ===== src/Daemon/Claims/Recorded.antt =====
-- A request that bin/contextd/src/main.rs records, followed through the fold of the log.
use contextd.Prelude.{ℕ, ◌≤◌, ◌≡◌, ◌∙◌, refl, ap, false, some, [], ◌∷◌, arith, count, subst, length}
use contextd.Prelude.Result.{ok}
use contextd.Text.{Text, str, is_empty, trim}
use contextd.Core.Event.{RawEvent, EventSource}
use contextd.Core.Claim.{Claim, ClaimEvent, user, intent, intent_subject, unique_slot}
use contextd.Core.Projection.{Projection, current_slot, open_task}
use contextd.Core.Projection.Slots.{IsUnique, id_count}
use contextd.Core.Validate.{check_text, trimmed}
use contextd.Memory.Project.{
  Outside, hashed_id, fold_event, fold_claim, fold_decoded, apply_claim, assert_claim, subject_or,
}
use contextd.Memory.Project.Keeps.{times}
use contextd.Memory.Project.Applied.{Keeps-open, assert_as-current}
use contextd.Daemon.Claims.{Reply, record_user_intent, intent_event, id_or_new}
use contextd.Memory.Focal.{focal_task}
use contextd.Daemon.Claims.Admission.{record_user_intent-declared, declared, check_text-ok}

trimmed-same : (t : Text) → trim t ≡ t → 1 ≤ length t → trimmed (some t) ≡ some t
unfolding trimmed
trimmed-same [] same long = absurd (omega arith)
trimmed-same (x ∷ t) same long = rw same refl

-- An intent that is applied to a view with distinct ids takes the slot of its task.
intent-current :
    (p : Projection) (event_id task_id t id : Text) (at_ms : ℕ)
    → trimmed (some t) ≡ some t
    → ((j : Text) → id_count j p ≤ 1)
    → IsUnique p
    → (c : Claim) × (current_slot
          (apply_claim p (intent_event event_id task_id t) id at_ms)
          task_id
          intent
          intent_subject
        ≡ some c)
      × (c.text ≡ t)
      × (c.id ≡ (intent_event event_id task_id t).claim_id)
      × (c.origin ≡ user)
unfolding apply_claim assert_claim unique_slot str subject_or
intent-current p event_id task_id t id at_ms says ids u =
    let opened = open_task p task_id id at_ms in
    let keeps = Keeps-open p task_id id at_ms in
    rw (says, assert_claim)
      (assert_as-current opened (intent_event event_id task_id t) intent t id at_ms refl
        (λ j. unfold times count in omega (arith, keeps.fewer j, ids j))
        (keeps.unique (λ j. unfold times count in omega (arith, ids j)) u))

module _ {V : Type 0} (out : Outside V) (p : Projection) (event : RawEvent V) where
  apply-recorded :
      (e : ClaimEvent)
      → event.source ≡ EventSource.claim
      → out.decode event.payload ≡ some e
      → is_empty e.task_id ≡ false
      → fold_event out p event ≡ apply_claim p e event.id event.timestamp_ms
  unfolding fold_event fold_claim fold_decoded
  apply-recorded e source read named = rw (source, fold_event, read, fold_claim, named)

  -- An intent that a user declares is in force afterwards: if the ids of the view are distinct and
  -- no slot of it holds two claims, and the handler accepts the text and its event reaches the log,
  -- then the intent's slot of the task in the reply holds the user's claim with exactly the checked
  -- text. (The task id in the reply is not empty.)
  pub record_user_intent-current :
      (raw t : Text) (r : Reply)
      → check_text raw ≡ ok t
      → ((j : Text) → id_count j p ≤ 1)
      → IsUnique p
      → record_user_intent out p event.id raw ≡ ok r
      → event.source ≡ EventSource.claim
      → out.decode event.payload ≡ some r.event
      → is_empty r.task_id ≡ false
      → (c : Claim) × (current_slot (fold_event out p event) r.task_id intent intent_subject
          ≡ some c)
        × (c.text ≡ t)
        × (c.id ≡ r.event.claim_id)
        × (c.origin ≡ user)
  record_user_intent-current raw t r checked ids u accepted source read named =
      let task_id = id_or_new (focal_task p) (hashed_id out (str "t_") (event.id ∷ [])) in
      let ran = record_user_intent-declared out p event.id raw t checked in
      let same : declared event.id task_id t ≡ r = ground arith in
      let event_is : r.event ≡ intent_event event.id r.task_id t =
        subst (λ (x : Reply). x.event ≡ intent_event event.id x.task_id t) same refl in
      let (trims, long, _) = check_text-ok raw t checked in
      rw
        (
          apply-recorded (intent_event event.id r.task_id t) source (read ∙ ap some event_is) named,
          event_is,
        )
        (intent-current p event.id r.task_id t event.id event.timestamp_ms
          (trimmed-same t trims long) ids u)
