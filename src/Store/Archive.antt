-- ===== src/Store/Archive.antt =====
-- The tables that the pruner works on, its queries in crates/store/src/db.rs, and
-- crates/store/src/archive.rs. A table is the list of its rows; `serde_json` with `zstd` is the
-- parameter `Codec`. SQLite leaves the order of rows with one timestamp open; here it is the table's.
use contextd.Prelude.{
  ℕ, ◌+◌, Bool, true, not, ◌&&◌, Option, none, some, List, [], ◌∷◌, ◌++◌, min, max, ltb, leb,
  if◌then◌else◌, length, take, filter, any,
}
use contextd.Prelude.Sorting.{sort_by}
use contextd.Text.{Text, str, text_eq, join}
use contextd.Text.Decimal.{decimal}
use contextd.Core.Event.{ProcessedEvent, EventSource, source_eq}
use contextd.Core.Claim.{Task, Claim, is_active, is_current}

pub record ArchiveRow (B : Type 0) : Type 0 where
  pub from_ms : ℕ
  pub to_ms : ℕ
  pub event_count : ℕ
  pub digest : Text
  pub blob : B

pub record Tables (V B : Type 0) : Type 0 where
  pub events : List (ProcessedEvent V)
  -- The event ids of `vec_events`.
  pub vectors : List Text
  pub archive : List (ArchiveRow B)
  pub tasks : List Task
  pub claims : List Claim

-- `to_vec` with `encode_all`, and `decode_all` with `from_slice`; each can fail.
pub record Codec (V B : Type 0) : Type 0 where
  pub pack : List (ProcessedEvent V) → Option B
  pub unpack : B → Option (List (ProcessedEvent V))

abbrev pub u64_limit : ℕ
u64_limit = 9223372036854775807

-- `lines.dedup()`: no line after an equal one
abbrev pub dedup : List Text → List Text
dedup [] = []
dedup (line ∷ lines) =
    let rest = dedup lines in
    elim rest [
      | [] ↦ line ∷ []
      | next ∷ more ↦ if text_eq line next then next ∷ more else line ∷ next ∷ more
    ]

abbrev pub is_episodic : Option Text → Bool
is_episodic none = true
is_episodic (some memory_type) = text_eq memory_type (str "episodic")

abbrev pub opened_active : List Task → Text → Bool
opened_active tasks id =
    any (λ task. is_active task.status && text_eq task.opened_by_event_id id) tasks

abbrev pub cited_current : List Claim → Text → Bool
cited_current claims id =
    any (λ claim. is_current claim.status && any (text_eq id) claim.evidence_ids) claims

module _ {V : Type 0} where
  abbrev pub summaries : List (ProcessedEvent V) → List Text
  summaries [] = []
  summaries (event ∷ events) =
      let rest = summaries events in
      elim event.summary [ none ↦ rest | some summary ↦ summary ∷ rest ]

  unfoldable pub digest_of : List (ProcessedEvent V) → Text
  digest_of events = elim (take 12 (dedup (summaries events))) [
    | [] ↦ decimal (length events) ++ str " events"
    | line ∷ lines ↦ join (str "; ") (line ∷ lines)
  ]

  -- `map(timestamp).min()` and `max()`, with 0 for no event
  abbrev pub earliest : List (ProcessedEvent V) → ℕ
  earliest [] = 0
  earliest (event ∷ []) = event.raw.timestamp_ms
  earliest (event ∷ next ∷ events) = min event.raw.timestamp_ms (earliest (next ∷ events))

  abbrev pub latest : List (ProcessedEvent V) → ℕ
  latest [] = 0
  latest (event ∷ events) = max event.raw.timestamp_ms (latest events)

  -- The `WHERE` of `get_prunable_events`.
  unfoldable pub is_prunable : ℕ → ℕ → List Task → List Claim → ProcessedEvent V → Bool
  is_prunable cutoff threshold tasks claims event =
      ltb event.raw.timestamp_ms cutoff
      && ltb event.score threshold
      && is_episodic event.memory_type
      && not (source_eq event.raw.source EventSource.claim)
      && not (opened_active tasks event.raw.id)
      && not (cited_current claims event.raw.id)

module _ {B : Type 0} where
  -- `archived_event_count`
  unfoldable pub archived_event_count : List (ArchiveRow B) → ℕ
  archived_event_count [] = 0
  archived_event_count (row ∷ rows) = row.event_count + archived_event_count rows

  -- `segments_in_range`: the newest first
  unfoldable pub segments_in_range : List (ArchiveRow B) → ℕ → ℕ → List (ArchiveRow B)
  segments_in_range rows from_ms to_ms =
      sort_by (λ a b. leb b.from_ms a.from_ms)
        (filter
          (λ row. leb (min from_ms u64_limit) row.to_ms && leb row.from_ms (min to_ms u64_limit))
          rows)

module _ {V B : Type 0} where
  abbrev pub segment_of : List (ProcessedEvent V) → B → ArchiveRow B
  segment_of events blob = record {
    from_ms = earliest events;
    to_ms = latest events;
    event_count = length events;
    digest = digest_of events;
    blob = blob;
  }

  -- The row that `archive_events` inserts, unless the batch is empty or cannot be packed.
  unfoldable pub archive_row : Codec V B → List (ProcessedEvent V) → Option (ArchiveRow B)
  archive_row codec [] = none
  archive_row codec (event ∷ events) = elim (Codec.pack codec (event ∷ events)) [
    | none ↦ none
    | some blob ↦ some (segment_of (event ∷ events) blob)
  ]

  unfoldable pub insert_row : ArchiveRow B → Tables V B → Tables V B
  insert_row row t = record t { archive = t.archive ++ row ∷ [] }

  unfoldable pub get_prunable_events : Tables V B → ℕ → ℕ → ℕ → List (ProcessedEvent V)
  get_prunable_events t cutoff threshold limit = take limit (
      sort_by (λ a b. leb a.raw.timestamp_ms b.raw.timestamp_ms)
        (filter (is_prunable cutoff threshold t.tasks t.claims) t.events))

  -- One turn of the loop of `delete_events`.
  unfoldable pub delete_event : Text → Tables V B → Tables V B
  delete_event id t = record t {
    events = filter (λ event. not (text_eq event.raw.id id)) t.events;
    vectors = filter (λ event_id. not (text_eq event_id id)) t.vectors;
  }
