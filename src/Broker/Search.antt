-- ===== src/Broker/Search.antt =====
-- crates/broker/src/search.rs: neighbours in embedding space merged with literal matches. The
-- queries on the store and the model are the parameter `Queries`; `D` is the type of a distance.
pub mod Merged
use contextd.Prelude.{
  ℕ, Bool, true, false, Option, none, some, List, [], ◌∷◌, ◌++◌, map, any, take, modify_first,
  if◌then◌else◌,
}
use contextd.Prelude.Result.{Result, ok, err}
use contextd.Text.{Text, text_eq}
use contextd.Core.Event.{ProcessedEvent}

pub data MatchKind : Type 0 where
  semantic text both : MatchKind

pub record SearchHit (V D : Type 0) : Type 0 where
  pub event : ProcessedEvent V
  pub matched_by : MatchKind
  pub distance : Option D

pub record SearchResults (V D : Type 0) : Type 0 where
  pub query : Text
  pub semantic : Bool
  pub matches : List (SearchHit V D)

-- `embed_query` (nothing while the model is away), `search_similar_events`, `get_event_by_id` and
-- `search_events_by_text`; a query of the store can fail.
pub record Queries (V D M E : Type 0) : Type 0 where
  pub embed_query : Text → Option M
  pub search_similar_events : M → ℕ → Result E (List (Text × D))
  pub get_event_by_id : Text → Result E (Option (ProcessedEvent V))
  pub search_events_by_text : Text → ℕ → Result E (List (ProcessedEvent V))

abbrev pub id_of : {V : Type 0} → ProcessedEvent V → Text
id_of event = event.raw.id

module _ {V D : Type 0} where
  -- `hit.event.raw.id == event.raw.id`
  abbrev pub is_hit_of : ProcessedEvent V → SearchHit V D → Bool
  is_hit_of event hit = text_eq (id_of hit.event) (id_of event)

  abbrev pub text_hit : ProcessedEvent V → SearchHit V D
  text_hit event = record { event = event; matched_by = text; distance = none }

  abbrev pub promoted : SearchHit V D → SearchHit V D
  promoted hit = record hit { matched_by = both }

  -- One turn of the loop, on `merged`.
  unfoldable pub merge_one : ProcessedEvent V → List (SearchHit V D) → List (SearchHit V D)
  merge_one event merged =
      if any (is_hit_of event) merged
      then modify_first (is_hit_of event) promoted merged
      else merged ++ text_hit event ∷ []

  unfoldable pub merge_all : List (SearchHit V D) → List (ProcessedEvent V) → List (SearchHit V D)
  merge_all merged [] = merged
  merge_all merged (event ∷ textual) = merge_all (merge_one event merged) textual

  unfoldable pub merge : List (SearchHit V D) → List (ProcessedEvent V) → ℕ → List (SearchHit V D)
  merge similar textual limit = take limit (merge_all similar textual)

module _ {V D M E : Type 0} (queries : Queries V D M E) where
  -- `filter_map` of the neighbours to the events that are still there
  unfoldable pub hits_of : List (Text × D) → List (SearchHit V D)
  hits_of [] = []
  hits_of ((id, distance) ∷ neighbours) =
      let rest = hits_of neighbours in
      elim (Queries.get_event_by_id queries id) [
        | err e ↦ rest
        | ok found ↦ elim found [
          | none ↦ rest
          | some event ↦
              record { event = event; matched_by = semantic; distance = some distance } ∷ rest
        ]
      ]

  unfoldable pub collect_semantic : Option M → ℕ → List (SearchHit V D)
  collect_semantic none limit = []
  collect_semantic (some embedding) limit =
      elim (Queries.search_similar_events queries embedding limit) [
        | ok neighbours ↦ hits_of neighbours
        | err e ↦ []
      ]

  -- `unwrap_or_else` and `unwrap_or_default`
  unfoldable pub or_nothing : {A : Type 0} → Result E (List A) → List A
  or_nothing (ok found) = found
  or_nothing (err e) = []

  abbrev pub is_some : {A : Type 0} → Option A → Bool
  is_some none = false
  is_some (some a) = true

  unfoldable pub search : Text → ℕ → SearchResults V D
  search query limit =
      let embedding = Queries.embed_query queries query in
      record {
        query = query;
        semantic = is_some embedding;
        matches =
            merge (collect_semantic embedding limit)
              (or_nothing (Queries.search_events_by_text queries query limit)) limit;
      }

  unfoldable pub recall : Text → ℕ → SearchResults V D
  recall query limit =
      let embedding = Queries.embed_query queries query in
      record {
        query = query;
        semantic = is_some embedding;
        matches = elim embedding [
          | some vector ↦ collect_semantic (some vector) limit
          | none ↦ map text_hit (or_nothing (Queries.search_events_by_text queries query limit))
        ];
      }
