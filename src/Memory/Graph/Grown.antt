-- ===== src/Memory/Graph/Grown.antt =====
-- The graphs that crates/memory/src/graph.rs can build: an empty one, one that observes an event,
-- and one that is read back from storage.
use contextd.Prelude.{ℕ, ◌+◌, ◌≤◌, ◌≡◌, ◌∙◌, inl, inr, min, arith, Option-cases}
use contextd.Json.{Json}
use contextd.Core.Event.{ProcessedEvent}
use contextd.Memory.Entities.{Entity, entities_of}
use contextd.Memory.UnGraph.{UnGraph, UnGraphLaws}
use contextd.Memory.Graph.{
  KnowledgeGraph, max_weight, get, new, node_for, window, retain_recent, observe, restore_entity,
  restore_edge,
}
use contextd.Memory.Graph.Index.{IsIndexed, node_for-IsIndexed}
use contextd.Memory.Graph.Strength.{strength}
use contextd.Memory.Graph.Observed.{meetings_all, observe_at-IsIndexed, observe_at-strength}

module _ {V G : Type 0} (json : Json V) (ops : UnGraph Entity G) where
  pub data Grown : KnowledgeGraph G → Type 0 where
    empty : Grown (new ops)
    observed :
        {k : KnowledgeGraph G}
        → Grown k
        → (event : ProcessedEvent V) → Grown (observe ops json event k)
    entity_read : {k : KnowledgeGraph G} → Grown k → (e : Entity) → Grown (restore_entity ops e k)
    edge_read :
        {k : KnowledgeGraph G}
        → Grown k
        → (from to : Entity) (weight : ℕ) → Grown (restore_edge ops from to weight k)

  module _ (laws : UnGraphLaws ops) where
    restore_edge-IsIndexed :
        (from to : Entity) (weight : ℕ) (k : KnowledgeGraph G)
        → IsIndexed laws k
        → IsIndexed laws (restore_edge ops from to weight k)
    unfolding restore_edge
    restore_edge-IsIndexed from to weight k indexed =
        elim (Option-cases (UnGraph.find_edge ops k2.graph a b)) [
          | inl absent ↦
              rw (absent, restore_edge)
                (λ e n h. UnGraphLaws.add_edge-weight laws weight a b n k2.graph ∙ indexed2 e n h)
          | inr (w, there) ↦
              rw (there, restore_edge)
                (λ e n h. UnGraphLaws.set_edge-weight laws weight a b n k2.graph ∙ indexed2 e n h)
        ]
      where
        k1 : KnowledgeGraph G
        k1 = (node_for ops from k).1

        k2 : KnowledgeGraph G
        k2 = (node_for ops to k1).1

        a : ℕ
        a = (node_for ops from k).0

        b : ℕ
        b = (node_for ops to k1).0

        indexed2 : IsIndexed laws k2
        indexed2 = node_for-IsIndexed laws to k1 (node_for-IsIndexed laws from k indexed)

    -- In every graph that can be built, over a graph type with petgraph's laws: the node that the
    -- index names for an entity holds this entity.
    pub Grown-IsIndexed : (k : KnowledgeGraph G) → Grown k → IsIndexed laws k
    unfolding observe restore_entity
    Grown-IsIndexed _ empty = λ e n h. absurd (unfold get in ground arith)
    Grown-IsIndexed _ (observed {k} grown event) =
        observe_at-IsIndexed laws event.raw.timestamp_ms (entities_of json event) k
          (Grown-IsIndexed k grown)
    Grown-IsIndexed _ (entity_read {k} grown e) =
        node_for-IsIndexed laws e k (Grown-IsIndexed k grown)
    Grown-IsIndexed _ (edge_read {k} grown from to weight) =
        restore_edge-IsIndexed from to weight k (Grown-IsIndexed k grown)

    -- In every graph that can be built, over a graph type with petgraph's laws: an observed event
    -- raises the strength of any two entities by the number of times that an entity of the event
    -- meets the other among the last entities of the window, up to the largest count an `f32`
    -- holds, if the strength was no larger before.
    pub observe-strength :
        (k : KnowledgeGraph G)
        → Grown k
        → (event : ProcessedEvent V) (x y : Entity) → strength ops k x y ≤ max_weight
        → strength ops (observe ops json event k) x y
          ≡ min
              (strength ops k x y
                + meetings_all x y
                    (entities_of json event)
                    (window ops (retain_recent ops event.raw.timestamp_ms k)))
              max_weight
    unfolding observe
    observe-strength k grown event x y h =
        observe_at-strength laws event.raw.timestamp_ms (entities_of json event) k x y
          (Grown-IsIndexed k grown) h
