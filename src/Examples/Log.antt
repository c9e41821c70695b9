-- ===== src/Examples/Log.antt =====
-- The theorems on the log and on Tier 0, at small logs.
use contextd.Prelude.{
  ℕ, ◌≤◌, ◌≡◌, leb, refl, false, none, some, List, [], ◌∷◌, ◌++◌, arith, last, max, count, length,
  if◌then◌else◌, not, ◌&&◌, ◌-◌,
}
use contextd.Prelude.Int.{pos}
use contextd.Text.{Text, text_eq}
use contextd.Core.Event.{RawEvent, ProcessedEvent, EventSource, new}
use contextd.Core.Claim.{close_task}
use contextd.Core.Projection.Tasks.{rank, status_of}
use contextd.Memory.Project.{fold}
use contextd.Memory.Project.Keeps.{times}
use contextd.Core.Projection.Slots.{IsUnique}
use contextd.Memory.Project.Unique.{claim_ids, claim_ids_of, fold-IsUnique}
use contextd.Memory.Project.Lifecycle.{fold-rank}
use contextd.Memory.Working.{WorkingSet, with_bounds, record_event, recent, forget}
use contextd.Memory.Working.Bounds.{
  record_all, record_all-last, forget-held, held, recent-record_event, older,
}
use contextd.Examples.{Value, shell_run, claimed, outside, intent_of, event_of}

-- Two intents in one slot.
abbrev two_intents : List (RawEvent Value)
two_intents =
    event_of EventSource.claim 1 (claimed (intent_of (1 ∷ []) (7 ∷ [])))
    ∷ event_of EventSource.claim 2 (claimed (intent_of (2 ∷ []) (7 ∷ [])))
    ∷ []

once : (id : Text) → times id (claim_ids outside two_intents) ≤ 1
unfolding claim_ids claim_ids_of text_eq times
once [] = unfold count in omega arith
once (n ∷ []) = unfold count in ground arith
once (n ∷ m ∷ id) = unfold count in ground arith

fold-IsUnique_example : IsUnique (fold outside two_intents)
fold-IsUnique_example = fold-IsUnique outside two_intents once

-- The user closes the task.
abbrev closing : List (RawEvent Value)
closing =
    event_of EventSource.claim 3
      (claimed (record (intent_of (3 ∷ []) (7 ∷ [])) { op = close_task; kind = none; text = none }))
    ∷ []

fold-rank_example :
    rank (status_of (fold outside two_intents) (7 ∷ []))
    ≤ rank (status_of (fold outside (two_intents ++ closing)) (7 ∷ []))
fold-rank_example = fold-rank outside two_intents closing (7 ∷ [])

-- Two events in a set that has room for two.
abbrev scored : ℕ → ProcessedEvent Value
scored n = new (event_of EventSource.shell n (shell_run [] (pos 0))) 25

abbrev small_set : WorkingSet Value
small_set = record {
  inner = record {
    events = scored 1 ∷ scored 2 ∷ [];
    intent = none;
    session_id = [];
    capacity = 2;
    horizon_ms = 5;
  };
  poisoned = false;
}

record_all-last_example :
    (w : WorkingSet Value) × (record_all (with_bounds [] 0 5) (scored 1 ∷ scored 2 ∷ []) ≡ some w)
    × (w.events ≡ last (max 0 1) (scored 1 ∷ scored 2 ∷ []))
record_all-last_example = record_all-last [] 0 5 (scored 1 ∷ scored 2 ∷ [])

forget-held_example : held (101 ∷ 2 ∷ []) (forget small_set (101 ∷ 1 ∷ [])) ≡ (
    if not small_set.poisoned && text_eq (101 ∷ 1 ∷ []) (101 ∷ 2 ∷ [])
    then 0
    else held (101 ∷ 2 ∷ []) small_set)
forget-held_example = forget-held small_set (101 ∷ 1 ∷ []) (101 ∷ 2 ∷ [])

recent-record_event_example :
    (w : WorkingSet Value) × (record_event small_set (scored 3) ≡ some w)
    × (recent w 6 2 ≡ (
        if leb (6 - small_set.horizon_ms) ((scored 3).raw.timestamp_ms)
        then scored 3 ∷ recent (older small_set) 6 1
        else recent (older small_set) 6 2))
    × (length (recent w 6 1) ≤ 1)
recent-record_event_example = recent-record_event small_set (scored 3) 6 1 (refl, omega arith)
