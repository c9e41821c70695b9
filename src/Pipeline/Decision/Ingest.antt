-- ===== src/Pipeline/Decision/Ingest.antt =====
-- Which events crates/pipeline drops at ingest, and which it promotes.
use contextd.Prelude.{
  ◌≤◌, ◌<◌, ◌≡◌, ◌≢◌, ◌⊎◌, ◌↔◌, inl, inr, refl, true, false, some, arith, ltb, tests, Bool-cases,
}
use contextd.Text.{Text, str}
use contextd.Text.Equality.{text_eq_refl}
use contextd.Json.{Json, str_at}
use contextd.Core.Event.{RawEvent, ProcessedEvent, EventSource, source_eq, new}
use contextd.Core.Memory.{UseCase, MemoryType, research, survives_pruning, semantic}
use contextd.Pipeline.Heuristics.{process_event, score_of, file_score_bounds, git_score_bounds}
use contextd.Pipeline.Classify.{classify_memory_type, git_memory}
use contextd.Pipeline.Content.{looks_like_failure}
use contextd.Pipeline.Decision.{
  decide, should_drop, verdict, analyze, drop, promote, is_drop, is_research, Decision,
}

is_drop-eq : (d : Decision) → is_drop d ≡ true → d ≡ drop
is_drop-eq d h = ground arith

is_research_ne : (u : UseCase) → u ≢ research → is_research u ≡ false
is_research_ne u h = ground arith

is_research-research : is_research research ≡ true
is_research-research = refl

source_eq_ne : (s t : EventSource) → s ≢ t → source_eq s t ≡ false
unfolding source_eq
source_eq_ne s t h = ground arith

source_eq_refl : (s : EventSource) → source_eq s s ≡ true
unfolding source_eq
source_eq_refl s = ground arith

module _ {V : Type 0} (json : Json V) where
  -- An event is dropped exactly if it is quiet, reports no failure and is no research, whatever
  -- the kind of memory.
  pub decide-drop_iff :
      (e : ProcessedEvent V) (u : UseCase) (m : MemoryType)
      → (decide json e u m ≡ drop)
        ↔ ((e.score < 25) × (looks_like_failure json e.raw ≡ false) × (u ≢ research))
  unfolding decide
  decide-drop_iff e u m = (
    λ h. (ground arith, ground arith, λ same. ground (arith, is_research-research)),
    λ h. ground (arith, is_research_ne u h.2),
  )

  -- A failure is promoted, however it scored and whatever it is.
  pub decide-failure :
      (e : ProcessedEvent V) (u : UseCase) (m : MemoryType)
      → looks_like_failure json e.raw ≡ true
      → decide json e u m ≡ promote
  unfolding decide
  decide-failure e u m h = ground arith

  module _ (lower : Text → Text) where
    -- The shortcut of ingest agrees with the verdict: an event is dropped exactly if the verdict
    -- on it is to drop it and it is no claim and no note.
    pub should_drop_iff :
        (e : ProcessedEvent V)
        → (should_drop json lower e ≡ true) ↔ (
            (verdict json lower e ≡ drop)
            × (e.raw.source ≢ EventSource.claim)
            × (e.raw.source ≢ EventSource.note))
    unfolding should_drop
    should_drop_iff e = (
      λ h. (
        is_drop-eq (verdict json lower e) (ground arith),
        λ same. ground (arith, source_eq_refl EventSource.claim),
        λ same. ground (arith, source_eq_refl EventSource.note),
      ),
      λ h.
          let (quiet, _, _) = (decide-drop_iff e _ _).0 h.0 in
          ground (
            arith,
            source_eq_ne e.raw.source EventSource.claim h.1,
            source_eq_ne e.raw.source EventSource.note h.2,
          ),
    )

    quiet-source :
        (source : EventSource) (raw : RawEvent V)
        → raw.source ≡ source
        → score_of json raw < 25
        → (source ≡ EventSource.shell) ⊎ (source ≡ EventSource.proc)
    unfolding score_of
    quiet-source EventSource.shell raw h q = inl refl
    quiet-source EventSource.proc raw h q = inr refl
    quiet-source EventSource.file_system raw h q =
        absurd (ground (arith, file_score_bounds (str_at json raw.payload (str "path"))))
    quiet-source EventSource.git raw h q =
        absurd (ground (arith, git_score_bounds (str_at json raw.payload (str "action"))))
    quiet-source _ raw h q = absurd (ground arith)

    -- What is dropped at ingest, after scoring, comes from the shell or the process poller, reports
    -- no failure, and is no research.
    pub ingest-drop :
        (raw : RawEvent V)
        → should_drop json lower (process_event json raw) ≡ true
        → ((raw.source ≡ EventSource.shell) ⊎ (raw.source ≡ EventSource.proc))
          × (looks_like_failure json raw ≡ false)
          × ((analyze json lower raw).use_case ≢ research)
    unfolding process_event new
    ingest-drop raw h =
        let e = process_event json raw in
        let (quiet, sound, other) = (decide-drop_iff e _ _).0 ((should_drop_iff e).0 h).0 in
        (quiet-source raw.source raw refl quiet, sound, other)

    memory-manifest :
        (raw : RawEvent V)
        → raw.source ≡ EventSource.manifest
        → classify_memory_type lower json raw ≡ semantic
    unfolding classify_memory_type
    memory-manifest raw h = rw (h, classify_memory_type)

    memory-commit :
        (raw : RawEvent V)
        → raw.source ≡ EventSource.git
        → str_at json raw.payload (str "action") ≡ some (str "commit")
        → classify_memory_type lower json raw ≡ semantic
    unfolding classify_memory_type git_memory
    memory-commit raw h a = rw (h, classify_memory_type, a, text_eq_refl (str "commit"))

    loud :
        (source : EventSource) (raw : RawEvent V)
        → raw.source ≡ source
        → (source ≢ EventSource.shell) × (source ≢ EventSource.proc)
        → 25 ≤ score_of json raw
    loud source raw h other = elim (Bool-cases (ltb (score_of json raw) 25)) [
      | inl quiet ↦ absurd (neither (quiet-source source raw h (omega tests)))
      | inr enough ↦ omega tests
    ]
      where
        neither : ((source ≡ EventSource.shell) ⊎ (source ≡ EventSource.proc)) → ⊥
        neither (inl e) = other.0 e
        neither (inr e) = other.1 e

    lasting :
        (raw : RawEvent V)
        → classify_memory_type lower json raw ≡ semantic
        → 25 ≤ score_of json raw
        → verdict json lower (process_event json raw) ≡ promote
    unfolding decide process_event new analyze survives_pruning
    lasting raw m l = ground arith

    -- A change of dependencies, a commit and a failure are promoted after scoring, from whatever
    -- payload.
    pub ingest-promote :
        (raw : RawEvent V)
        → (raw.source ≡ EventSource.manifest)
          ⊎ ((raw.source ≡ EventSource.git)
              × (str_at json raw.payload (str "action") ≡ some (str "commit")))
          ⊎ (looks_like_failure json raw ≡ true)
        → verdict json lower (process_event json raw) ≡ promote
    unfolding process_event new
    ingest-promote raw (inl manifest) =
        lasting raw (memory-manifest raw manifest)
          (loud EventSource.manifest raw manifest (λ e. cc, λ e. cc))
    ingest-promote raw (inr (inl (git, commit))) =
        lasting raw (memory-commit raw git commit) (loud EventSource.git raw git (λ e. cc, λ e. cc))
    ingest-promote raw (inr (inr failure)) = decide-failure (process_event json raw) _ _ failure
