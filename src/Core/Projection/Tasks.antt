-- ===== src/Core/Projection/Tasks.antt =====
-- The status of tasks under the operations of `Projection` (crates/core/src/claim.rs).
use contextd.Prelude.{
  ℕ, ◌≡◌, refl, Option, none, some, List, [], ◌∷◌, ◌++◌, arith, find?, modify_first, if◌then◌else◌,
  Option-cases, inl, inr,
}
use contextd.Text.{Text, text_eq}
use contextd.Text.Equality.{text_eq_iff}
use contextd.Core.Claim.{Task, Claim, TaskStatus, active, done, ClaimKind}
use contextd.Core.Projection.{
  Projection, has_task_id, task, open_task, close_task, push_claim, supersede_claim, supersede_slot,
  touch_task, finish, new_task, current_slot,
}

-- The status of the first task with an id.
abbrev found_status : Option Task → Option TaskStatus
found_status none = none
found_status (some t) = some t.status

unfoldable pub status_of : Projection → Text → Option TaskStatus
status_of p id = found_status (task p id)

-- How far a task has come: unknown, active, done.
abbrev pub rank : Option TaskStatus → ℕ
rank none = 0
rank (some active) = 1
rank (some done) = 2

abbrev opened : Option TaskStatus → Option TaskStatus
opened none = some active
opened (some s) = some s

abbrev closed : Option TaskStatus → Option TaskStatus
closed none = none
closed (some s) = some done

find-touch :
    (i j : Text) (at_ms : ℕ) (ts : List Task)
    → found_status (find? (has_task_id j) (modify_first (has_task_id i) (touch_task at_ms) ts))
      ≡ found_status (find? (has_task_id j) ts)
unfolding find? modify_first
find-touch i j at_ms [] = refl
find-touch i j at_ms (t ∷ ts) = ground (arith, find-touch i j at_ms ts)

find-finish :
    (i j event_id : Text) (at_ms : ℕ) (ts : List Task)
    → found_status (find? (has_task_id j) (modify_first (has_task_id i) (finish event_id at_ms) ts))
      ≡ (if text_eq i j
          then closed (found_status (find? (has_task_id j) ts))
          else found_status (find? (has_task_id j) ts))
unfolding find? modify_first
find-finish i j event_id at_ms [] = ground arith
find-finish i j event_id at_ms (t ∷ ts) = ground (
  arith,
  find-finish i j event_id at_ms ts,
  text_eq_iff t.id i,
  text_eq_iff t.id j,
  text_eq_iff i j,
)

find-append_one :
    (j : Text) (ts : List Task) (t : Task)
    → find? (has_task_id j) (ts ++ t ∷ []) ≡ (elim (find? (has_task_id j) ts) [
      | some u ↦ some u
      | none ↦ if text_eq t.id j then some t else none
    ])
unfolding find?
find-append_one j [] t = refl
find-append_one j (u ∷ ts) t = ground (arith, find-append_one j ts t)

module _ (p : Projection) (i event_id : Text) (at_ms : ℕ) (j : Text) where
  pub status-open_task :
      status_of (open_task p i event_id at_ms) j
      ≡ (if text_eq i j then opened (status_of p j) else status_of p j)
  unfolding status_of open_task task
  status-open_task = ground (
    arith,
    find-touch i j at_ms p.tasks,
    find-append_one j p.tasks (new_task i event_id at_ms),
    text_eq_iff i j,
  )

  pub status-close_task :
      status_of (close_task p i event_id at_ms) j
      ≡ (if text_eq i j then closed (status_of p j) else status_of p j)
  unfolding status_of close_task task
  status-close_task = find-finish i j event_id at_ms p.tasks

  pub status-supersede_claim : status_of (supersede_claim p i at_ms).0 j ≡ status_of p j
  unfolding status_of supersede_claim task
  status-supersede_claim = refl

pub status-push_claim :
    (p : Projection) (c : Claim) (j : Text) → status_of (push_claim p c) j ≡ status_of p j
unfolding status_of push_claim task
status-push_claim p c j = find-touch c.task_id j c.updated_at_ms p.tasks

pub status-supersede_slot :
    (p : Projection) (task_id : Text) (kind : ClaimKind) (subject : Text) (at_ms : ℕ) (j : Text)
    → status_of (supersede_slot p task_id kind subject at_ms).0 j ≡ status_of p j
unfolding supersede_slot
status-supersede_slot p task_id kind subject at_ms j =
    elim (Option-cases (current_slot p task_id kind subject)) [
      | inl free ↦ rw (free, supersede_slot)
      | inr (c, held) ↦ rw (held, supersede_slot) (status-supersede_claim p c.id c.id at_ms j)
    ]
