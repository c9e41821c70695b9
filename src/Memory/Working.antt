-- ===== src/Memory/Working.antt =====
-- crates/memory/src/working.rs: Tier 0. The lock's `poisoned` flag is part of the state: a writer
-- gives up on a poisoned lock, a reader goes on. The clock is an argument.
pub mod Bounds
use contextd.Prelude.{
  ℕ, zero, suc, ◌*◌, ◌-◌, Bool, true, false, not, Option, none, some, List, [], ◌∷◌, ◌++◌, leb,
  ◌==◌, length, take, filter, reverse, max, if◌then◌else◌,
}
use contextd.Text.{Text, text_eq}
use contextd.Core.Event.{ProcessedEvent, Intent}

abbrev pub capacity_default : ℕ
capacity_default = 256

abbrev pub horizon_default : ℕ
horizon_default = 30 * 60 * 1000

pub record Inner (V : Type 0) : Type 0 where
  pub events : List (ProcessedEvent V)
  pub intent : Option Intent
  pub session_id : Text
  pub capacity : ℕ
  pub horizon_ms : ℕ

-- What `Arc<RwLock<Inner>>` holds.
pub record WorkingSet (V : Type 0) : Type 0 where
  pub inner : Inner V
  pub open inner use *
  pub poisoned : Bool

module _ {V : Type 0} where
  unfoldable pub with_bounds : Text → ℕ → ℕ → WorkingSet V
  with_bounds session capacity horizon = record {
    inner = record {
      events = [];
      intent = none;
      session_id = session;
      capacity = max capacity 1;
      horizon_ms = horizon;
    };
    poisoned = false;
  }

  unfoldable pub new : Text → WorkingSet V
  unfolding with_bounds
  new session = with_bounds session capacity_default horizon_default

  -- `write()` and an update; nothing happens if the lock is poisoned.
  abbrev pub write : (Inner V → Inner V) → WorkingSet V → WorkingSet V
  write f w = if w.poisoned then w else record w { inner = f w.inner }

  -- `pop_front`
  abbrev pub pop_front : List (ProcessedEvent V) → List (ProcessedEvent V)
  pop_front [] = []
  pop_front (e ∷ es) = es

  -- `while events.len() >= capacity { events.pop_front(); }`; `none` is a loop that has not ended
  -- within its fuel.
  unfoldable pub evict : ℕ → ℕ → List (ProcessedEvent V) → Option (List (ProcessedEvent V))
  evict zero capacity events = none
  evict (suc f) capacity events =
      let rest = evict f capacity (pop_front events) in
      if leb capacity (length events) then rest else some events

  -- One round more than there are events is enough for `evict`.
  unfoldable pub push_event : ProcessedEvent V → Inner V → Option (Inner V)
  push_event event inner = elim (evict (suc (length inner.events)) inner.capacity inner.events) [
    | none ↦ none
    | some kept ↦ some (record inner { events = kept ++ event ∷ [] })
  ]

  -- `none` is a call that does not return.
  unfoldable pub record_event : WorkingSet V → ProcessedEvent V → Option (WorkingSet V)
  unfolding push_event
  record_event w event = if w.poisoned then some w else elim (push_event event w.inner) [
    | none ↦ none
    | some inner ↦ some (record w { inner = inner })
  ]

  unfoldable pub forget : WorkingSet V → Text → WorkingSet V
  forget w event_id =
      write
        (λ inner. record inner {
          events = filter (λ (e : ProcessedEvent V). not (text_eq e.raw.id event_id)) inner.events;
        })
        w

  -- The horizon test: `now_ms().saturating_sub(horizon)` is the subtraction that stops at 0.
  abbrev pub is_fresh : ℕ → ℕ → ProcessedEvent V → Bool
  is_fresh now horizon e = leb (now - horizon) e.raw.timestamp_ms

  unfoldable pub recent : WorkingSet V → ℕ → ℕ → List (ProcessedEvent V)
  recent w now limit = take limit (filter (is_fresh now w.horizon_ms) (reverse w.events))

  unfoldable pub set_intent : WorkingSet V → Intent → WorkingSet V
  set_intent w intent = write (λ inner. record inner { intent = some intent }) w

  unfoldable pub len : WorkingSet V → ℕ
  len w = length w.events

  unfoldable pub is_empty : WorkingSet V → Bool
  unfolding len
  is_empty w = len w == 0
