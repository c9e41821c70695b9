-- ===== src/Memory/Graph.antt =====
-- Tier 2 of crates/memory/src/graph.rs: which entities keep appearing together. The petgraph graph
-- is of an unknown type `G`, used through the operations `ops`; the hash map is an association list.
pub mod Index
pub mod Strength
pub mod Observed
pub mod Grown
use contextd.Prelude.{
  ℕ, suc, ◌+◌, ◌-◌, ◌*◌, ◌≡◌, min, Bool, true, false, ◌&&◌, ◌||◌, Option, none, some, List, [], ◌∷◌,
  ◌++◌, map, ltb, leb, ◌==◌, if◌then◌else◌, filter, last, take,
}
use contextd.Prelude.Sorting.{sort_by}
use contextd.Text.{text_le}
use contextd.Json.{Json}
use contextd.Core.Event.{ProcessedEvent}
use contextd.Memory.Entities.{Entity, entity_eq, entities_of}
use contextd.Memory.UnGraph.{UnGraph}

abbrev pub co_occurrence_window_ms : ℕ
co_occurrence_window_ms = 5 * 60 * 1000

abbrev pub recent_entity_window : ℕ
recent_entity_window = 8

-- From here on adding one to an `f32` leaves it as it is.
abbrev pub max_weight : ℕ
max_weight = 16777216

-- `weight += 1.0`
unfoldable pub add_one : ℕ → ℕ
add_one w = if ltb w max_weight then suc w else w

pub record Related : Type 0 where
  pub entity : Entity
  pub weight : ℕ

pub record GraphSnapshot : Type 0 where
  pub entities : List Entity
  pub edges : List (Entity × Entity × ℕ)

pub record KnowledgeGraph (G : Type 0) : Type 0 where
  pub graph : G
  pub index : List (Entity × ℕ)
  pub recent : List (Entity × ℕ)

-- `index.get(entity)`
unfoldable pub get : Entity → List (Entity × ℕ) → Option ℕ
get e [] = none
get e ((x, node) ∷ rest) = if entity_eq x e then some node else get e rest

module _ {G : Type 0} (ops : UnGraph Entity G) where
  abbrev pub new : KnowledgeGraph G
  new = record { graph = UnGraph.new_undirected ops; index = []; recent = [] }

  unfoldable pub node_for : Entity → KnowledgeGraph G → ℕ × KnowledgeGraph G
  node_for e k = elim (get e k.index) [
    | some node ↦ (node, k)
    | none ↦
        let (node, graph) = UnGraph.add_node ops e k.graph in
        (node, record k { graph = graph; index = (e, node) ∷ k.index })
  ]

  unfoldable pub reinforce : ℕ → ℕ → KnowledgeGraph G → KnowledgeGraph G
  reinforce a b k = elim (UnGraph.find_edge ops k.graph a b) [
    | some w ↦ record k { graph = UnGraph.set_edge ops (add_one w) a b k.graph }
    | none ↦ record k { graph = UnGraph.add_edge ops 1 a b k.graph }
  ]

  -- The loop over the neighbours of one entity, whose node is there.
  unfoldable pub link : Entity → ℕ → List Entity → KnowledgeGraph G → KnowledgeGraph G
  link e node [] k = k
  link e node (neighbour ∷ rest) k = link e node rest (
      if entity_eq neighbour e
      then k
      else let (other, k') = node_for neighbour k in reinforce node other k')

  -- The last entities of the window, whichever event they came from.
  unfoldable pub window : KnowledgeGraph G → List Entity
  window k = map (λ x. x.0) (last recent_entity_window k.recent)

  -- The loop over the entities of one event.
  unfoldable pub link_all : List Entity → KnowledgeGraph G → KnowledgeGraph G
  link_all [] k = k
  link_all (e ∷ entities) k =
      let (node, k') = node_for e k in link_all entities (link e node (window k') k')

  -- `recent.retain(...)`
  unfoldable pub retain_recent : ℕ → KnowledgeGraph G → KnowledgeGraph G
  retain_recent timestamp_ms k = record k {
    recent = filter (λ x. leb (timestamp_ms - x.1) co_occurrence_window_ms) k.recent;
  }

  unfoldable pub observe_at : ℕ → List Entity → KnowledgeGraph G → KnowledgeGraph G
  observe_at timestamp_ms [] k = k
  observe_at timestamp_ms (e ∷ entities) k =
      let linked = link_all (e ∷ entities) (retain_recent timestamp_ms k) in
      record linked { recent = linked.recent ++ map (λ x. (x, timestamp_ms)) (e ∷ entities) }

  unfoldable pub observe :
      {V : Type 0} → Json V → ProcessedEvent V → KnowledgeGraph G → KnowledgeGraph G
  observe json event k = observe_at event.raw.timestamp_ms (entities_of json event) k

  -- `find_edge` and then `graph[edge] = weight` or `add_edge`
  unfoldable pub restore_edge : Entity → Entity → ℕ → KnowledgeGraph G → KnowledgeGraph G
  restore_edge from to weight k =
      let (a, k') = node_for from k in
      let (b, k'') = node_for to k' in
      elim (UnGraph.find_edge ops k''.graph a b) [
        | some w ↦ record k'' { graph = UnGraph.set_edge ops weight a b k''.graph }
        | none ↦ record k'' { graph = UnGraph.add_edge ops weight a b k''.graph }
      ]

  unfoldable pub restore_entity : Entity → KnowledgeGraph G → KnowledgeGraph G
  restore_entity e k = (node_for e k).1

  -- Heavier first; equal weights by name.
  unfoldable pub related_le : Related → Related → Bool
  related_le a b =
      ltb b.weight a.weight || (a.weight == b.weight && text_le a.entity.name b.entity.name)

  -- The nodes at the other ends, as entities. `graph[node]` of an edge's end is there.
  unfoldable pub related_at : G → List (ℕ × ℕ) → List Related
  related_at g [] = []
  related_at g ((node, weight) ∷ edges) =
      let rest = related_at g edges in
      elim (UnGraph.node_weight ops g node) [
        | none ↦ rest
        | some e ↦ record { entity = e; weight = weight } ∷ rest
      ]

  unfoldable pub neighbours : KnowledgeGraph G → Entity → ℕ → List Related
  neighbours k e limit = elim (get e k.index) [
    | none ↦ []
    | some node ↦
        take limit (sort_by related_le (related_at k.graph (UnGraph.edges_of ops k.graph node)))
  ]

  abbrev pub entities : KnowledgeGraph G → List Entity
  entities k = UnGraph.node_weights ops k.graph

  unfoldable pub edges_at : G → List (ℕ × ℕ × ℕ) → List (Entity × Entity × ℕ)
  edges_at g [] = []
  edges_at g ((a, b, weight) ∷ edges) =
      let rest = edges_at g edges in
      elim (UnGraph.node_weight ops g a) [
        | none ↦ rest
        | some from ↦ elim (UnGraph.node_weight ops g b) [
          | none ↦ rest
          | some to ↦ (from, to, weight) ∷ rest
        ]
      ]

  unfoldable pub edges : KnowledgeGraph G → List (Entity × Entity × ℕ)
  edges k = edges_at k.graph (UnGraph.edge_references ops k.graph)

  unfoldable pub snapshot : KnowledgeGraph G → GraphSnapshot
  snapshot k = record { entities = entities k; edges = edges k }
