-- ===== src/Core/Projection.antt =====
-- crates/core/src/claim.rs: `Projection`, the view that the fold of the log builds.
pub mod Slots
pub mod Tasks
use contextd.Prelude.{
  ℕ, Bool, true, false, not, ◌&&◌, Option, none, some, List, [], ◌∷◌, ◌++◌, any, find?, filter,
  modify_first,
}
use contextd.Prelude.Int.{ℤ, is_zero}
use contextd.Text.{Text, text_eq}
use contextd.Core.Claim.{
  Task, Claim, ClaimKind, active, done, superseded, is_current, kind_eq, reality,
}

pub record Projection : Type 0 where
  pub tasks : List Task
  pub claims : List Claim

-- `Projection::default()`
abbrev pub default : Projection
default = record { tasks = []; claims = [] }

abbrev pub has_task_id : Text → Task → Bool
has_task_id id task = text_eq task.id id

abbrev pub has_claim_id : Text → Claim → Bool
has_claim_id id claim = text_eq claim.id id

-- `task`; `task_mut` is the same search, followed by an update of what it finds
unfoldable pub task : Projection → Text → Option Task
task p id = find? (has_task_id id) p.tasks

unfoldable pub claim : Projection → Text → Option Claim
claim p id = find? (has_claim_id id) p.claims

-- The test of `current_slot`.
unfoldable pub in_slot : Text → ClaimKind → Text → Claim → Bool
in_slot task_id kind subject c =
    is_current c.status
    && text_eq c.task_id task_id
    && kind_eq c.kind kind
    && text_eq c.subject subject

unfoldable pub current_slot : Projection → Text → ClaimKind → Text → Option Claim
current_slot p task_id kind subject = find? (in_slot task_id kind subject) p.claims

abbrev pub is_current_for : Text → Claim → Bool
is_current_for task_id c = text_eq c.task_id task_id && is_current c.status

unfoldable pub current_for_task : Projection → Text → List Claim
current_for_task p task_id = filter (is_current_for task_id) p.claims

-- `outcome.is_some_and(|code| code != 0)`
abbrev pub is_failure : Option ℤ → Bool
is_failure none = false
is_failure (some code) = not (is_zero code)

abbrev pub is_failing_reality : Claim → Bool
is_failing_reality c = kind_eq c.kind reality && is_failure c.outcome

unfoldable pub has_failing_reality : Projection → Text → Bool
unfolding current_for_task
has_failing_reality p task_id = any is_failing_reality (current_for_task p task_id)

abbrev new_task : Text → Text → ℕ → Task
new_task id event_id at_ms = record {
  id = id;
  status = active;
  opened_by_event_id = event_id;
  closed_by_event_id = none;
  created_at_ms = at_ms;
  updated_at_ms = at_ms;
}

abbrev touch_task : ℕ → Task → Task
touch_task at_ms t = record t { updated_at_ms = at_ms }

unfoldable pub open_task : Projection → Text → Text → ℕ → Projection
unfolding task
open_task p id event_id at_ms = elim (task p id) [
  | some _ ↦ record p { tasks = modify_first (has_task_id id) (touch_task at_ms) p.tasks }
  | none ↦ record p { tasks = p.tasks ++ new_task id event_id at_ms ∷ [] }
]

abbrev finish : Text → ℕ → Task → Task
finish event_id at_ms t = record t {
  status = done;
  closed_by_event_id = some event_id;
  updated_at_ms = at_ms;
}

unfoldable pub close_task : Projection → Text → Text → ℕ → Projection
close_task p id event_id at_ms = record p {
  tasks = modify_first (has_task_id id) (finish event_id at_ms) p.tasks;
}

abbrev pub retire : ℕ → Claim → Claim
retire at_ms c = record c { status = superseded; updated_at_ms = at_ms }

-- The new state, and whether a claim was found.
unfoldable pub supersede_claim : Projection → Text → ℕ → Projection × Bool
unfolding claim
supersede_claim p claim_id at_ms = (
  record p { claims = modify_first (has_claim_id claim_id) (retire at_ms) p.claims },
  elim (claim p claim_id) [ some _ ↦ true | none ↦ false ],
)

-- The new state, and the id of the claim that held the slot.
unfoldable pub supersede_slot : Projection → Text → ClaimKind → Text → ℕ → Projection × Option Text
unfolding current_slot supersede_claim
supersede_slot p task_id kind subject at_ms = elim (current_slot p task_id kind subject) [
  | none ↦ (p, none)
  | some c ↦ ((supersede_claim p c.id at_ms).0, some c.id)
]

unfoldable pub push_claim : Projection → Claim → Projection
push_claim p c = record {
  tasks = modify_first (has_task_id c.task_id) (touch_task c.updated_at_ms) p.tasks;
  claims = p.claims ++ c ∷ [];
}
