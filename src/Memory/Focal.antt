-- ===== src/Memory/Focal.antt =====
-- crates/memory/src/project.rs: `focal_task`, the task that a briefing is about.
pub mod Choice
use contextd.Prelude.{Bool, false, ◌&&◌, ◌||◌, Option, none, some, List, [], ◌∷◌, ltb, ◌==◌, filter}
use contextd.Prelude.Sorting.{sort_by, max_by}
use contextd.Text.{Text, text_le}
use contextd.Core.Claim.{Task, Claim, user, intent, is_current, is_active, kind_eq, origin_eq}
use contextd.Core.Projection.{Projection, task, has_failing_reality}

-- The comparison of `focal_task` on tasks: older first, then by id.
unfoldable pub task_le : Task → Task → Bool
task_le a b =
    ltb a.created_at_ms b.created_at_ms || (a.created_at_ms == b.created_at_ms && text_le a.id b.id)

unfoldable pub claim_le : Claim → Claim → Bool
claim_le a b =
    ltb a.updated_at_ms b.updated_at_ms || (a.updated_at_ms == b.updated_at_ms && text_le a.id b.id)

abbrev pub is_failing_task : Projection → Task → Bool
is_failing_task p t = is_active t.status && has_failing_reality p t.id

-- `is_some_and(|task| task.status == TaskStatus::Active)`
abbrev pub is_some_active : Option Task → Bool
is_some_active none = false
is_some_active (some t) = is_active t.status

-- A current intent of the user on an active task.
abbrev pub is_live_intent : Projection → Claim → Bool
is_live_intent p c =
    is_current c.status
    && kind_eq c.kind intent
    && origin_eq c.origin user
    && is_some_active (task p c.task_id)

unfoldable pub failing_tasks : Projection → List Task
failing_tasks p = sort_by task_le (filter (is_failing_task p) p.tasks)

unfoldable pub newest_intent : Projection → Option Claim
newest_intent p = max_by claim_le (filter (is_live_intent p) p.claims)

unfoldable pub focal_task : Projection → Option Task
focal_task p = elim (failing_tasks p) [
  | t ∷ ts ↦ some t
  | [] ↦ elim (newest_intent p) [ some c ↦ task p c.task_id | none ↦ none ]
]
