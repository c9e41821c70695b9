-- ===== src/Memory/Graph/Observed.antt =====
-- What observing events adds to the graph of crates/memory/src/graph.rs.
use contextd.Prelude.{
  ℕ, zero, suc, ◌+◌, ◌≤◌, ◌≡◌, refl, sym, ap, ◌∙◌, inl, inr, Bool, true, false, ◌&&◌, not, some,
  List, [], ◌∷◌, if◌then◌else◌, min, count, arith, Bool-cases,
}
use native.Mathlib.Nat.{zero-add, suc-add}
use contextd.Memory.Entities.{Entity, entity_eq}
use contextd.Memory.UnGraph.{UnGraph, UnGraphLaws}
use contextd.Memory.Graph.{
  KnowledgeGraph, max_weight, add_one, get, node_for, reinforce, link, window, link_all,
  retain_recent, observe_at,
}
use contextd.Memory.Graph.Index.{
  IsIndexed, node_for-IsIndexed, node_for-get, node_for-keeps, node_for-recent,
}
use contextd.Memory.Graph.Strength.{
  same_two, strength, node_for-strength, reinforce-strength, reinforce-index, reinforce-IsIndexed,
  reinforce-recent,
}

-- How often an entity meets another in a window, as the two entities `x` and `y`.
unfoldable pub meetings : Entity → Entity → Entity → List Entity → ℕ
unfolding count
meetings x y e neighbours = count (λ n. not (entity_eq n e) && same_two e n x y) neighbours

-- The same for the entities of one event.
unfoldable pub meetings_all : Entity → Entity → List Entity → List Entity → ℕ
unfolding meetings
meetings_all x y [] neighbours = 0
meetings_all x y (e ∷ entities) neighbours =
    meetings x y e neighbours + meetings_all x y entities neighbours

unfoldable add_many : ℕ → ℕ → ℕ
add_many zero w = w
add_many (suc n) w = add_many n (add_one w)

add_many-min : (n w : ℕ) → w ≤ max_weight → add_many n w ≡ min (w + n) max_weight
unfolding add_many add_one
add_many-min zero w h = omega arith
add_many-min (suc n) w h = ground (arith, add_many-min n (add_one w))

add_many_add : (m n w : ℕ) → add_many (m + n) w ≡ add_many n (add_many m w)
unfolding add_many
add_many_add zero n w = rw zero-add
add_many_add (suc m) n w = rw suc-add (add_many_add m n (add_one w))

module _ {G : Type 0} {ops : UnGraph Entity G} (laws : UnGraphLaws ops) where
  -- One turn of the loop over the neighbours.
  abbrev turn : Entity → ℕ → Entity → KnowledgeGraph G → KnowledgeGraph G
  turn e node n k =
      if entity_eq n e then k else let (other, k') = node_for ops n k in reinforce ops node other k'

  turn-IsIndexed :
      (e : Entity) (node : ℕ) (n : Entity) (k : KnowledgeGraph G)
      → IsIndexed laws k
      → IsIndexed laws (turn e node n k)
  turn-IsIndexed e node n k indexed = elim (Bool-cases (entity_eq n e)) [
    | inl same ↦ rw same indexed
    | inr other ↦
        rw other (
          reinforce-IsIndexed laws (node_for ops n k).1 node _
            (node_for-IsIndexed laws n k indexed))
  ]

  turn-keeps :
      (e : Entity) (node : ℕ) (n : Entity) (k : KnowledgeGraph G) (x : Entity) (m : ℕ)
      → get x k.index ≡ some m
      → get x ((turn e node n k).index) ≡ some m
  turn-keeps e node n k x m h = elim (Bool-cases (entity_eq n e)) [
    | inl same ↦ rw same h
    | inr other ↦
        rw (other, reinforce-index laws (node_for ops n k).1 node (node_for ops n k).0)
          (node_for-keeps laws n k x m h)
  ]

  turn-recent :
      (e : Entity) (node : ℕ) (n : Entity) (k : KnowledgeGraph G)
      → (turn e node n k).recent ≡ k.recent
  turn-recent e node n k = elim (Bool-cases (entity_eq n e)) [
    | inl same ↦ rw same
    | inr other ↦
        rw (other, reinforce-recent laws (node_for ops n k).1 node (node_for ops n k).0)
          (node_for-recent laws n k)
  ]

  turn-strength :
      (e : Entity) (node : ℕ) (n : Entity) (k : KnowledgeGraph G) (x y : Entity)
      → IsIndexed laws k
      → get e k.index ≡ some node
      → strength ops (turn e node n k) x y ≡ (
          if not (entity_eq n e) && same_two e n x y
          then add_one (strength ops k x y)
          else strength ops k x y)
  turn-strength e node n k x y indexed he = elim (Bool-cases (entity_eq n e)) [
    | inl same ↦ rw same
    | inr other ↦ rw other (
        reinforce-strength laws (node_for ops n k).1 (node_for-IsIndexed laws n k indexed) e n node
          (node_for ops n k).0 x y (node_for-keeps laws n k e node he) (node_for-get laws n k)
        ∙ ap (λ s. if same_two e n x y then add_one s else s) (node_for-strength laws n k x y))
  ]

  -- The loop over the neighbours keeps the index, the nodes and the window.
  link-IsIndexed :
      (e : Entity) (node : ℕ) (ns : List Entity) (k : KnowledgeGraph G)
      → IsIndexed laws k
      → IsIndexed laws (link ops e node ns k)
  unfolding link
  link-IsIndexed e node [] k indexed = indexed
  link-IsIndexed e node (n ∷ ns) k indexed =
      link-IsIndexed e node ns (turn e node n k) (turn-IsIndexed e node n k indexed)

  link-recent :
      (e : Entity) (node : ℕ) (ns : List Entity) (k : KnowledgeGraph G)
      → (link ops e node ns k).recent ≡ k.recent
  unfolding link
  link-recent e node [] k = refl
  link-recent e node (n ∷ ns) k = link-recent e node ns (turn e node n k) ∙ turn-recent e node n k

  link-strength :
      (e : Entity) (node : ℕ) (ns : List Entity) (k : KnowledgeGraph G) (x y : Entity)
      → IsIndexed laws k
      → get e k.index ≡ some node
      → strength ops (link ops e node ns k) x y ≡ add_many (meetings x y e ns) (strength ops k x y)
  unfolding link meetings count add_many
  link-strength e node [] k x y indexed he = refl
  link-strength e node (n ∷ ns) k x y indexed he =
      link-strength e node ns (turn e node n k) x y (turn-IsIndexed e node n k indexed)
        (turn-keeps e node n k e node he)
      ∙ ap (add_many (meetings x y e ns)) (turn-strength e node n k x y indexed he)
      ∙ grow (not (entity_eq n e) && same_two e n x y) (meetings x y e ns) (strength ops k x y)
    where
      grow :
          (b : Bool) (m w : ℕ)
          → add_many m (if b then add_one w else w) ≡ add_many ((if b then 1 else 0) + m) w
      grow true m w = let one : suc m ≡ 1 + m = omega arith in ap (λ n. add_many n w) one
      grow false m w = rw zero-add

  -- One turn of the loop over the entities.
  abbrev entered : Entity → KnowledgeGraph G → KnowledgeGraph G
  entered e k = let (node, k') = node_for ops e k in link ops e node (window ops k') k'

  entered-IsIndexed :
      (e : Entity) (k : KnowledgeGraph G) → IsIndexed laws k → IsIndexed laws (entered e k)
  entered-IsIndexed e k indexed =
      link-IsIndexed e (node_for ops e k).0 (window ops (node_for ops e k).1) (node_for ops e k).1
        (node_for-IsIndexed laws e k indexed)

  entered-recent : (e : Entity) (k : KnowledgeGraph G) → (entered e k).recent ≡ k.recent
  entered-recent e k =
      link-recent e (node_for ops e k).0 (window ops (node_for ops e k).1) (node_for ops e k).1
      ∙ node_for-recent laws e k

  window-same : (k k' : KnowledgeGraph G) → k'.recent ≡ k.recent → window ops k' ≡ window ops k
  unfolding window
  window-same k k' same = rw same

  entered-strength :
      (e : Entity) (k : KnowledgeGraph G) (x y : Entity)
      → IsIndexed laws k
      → strength ops (entered e k) x y
        ≡ add_many (meetings x y e (window ops k)) (strength ops k x y)
  entered-strength e k x y indexed =
      link-strength e (node_for ops e k).0 (window ops (node_for ops e k).1) (node_for ops e k).1 x
        y (node_for-IsIndexed laws e k indexed) (node_for-get laws e k)
      ∙ rw (
        window-same k (node_for ops e k).1 (node_for-recent laws e k),
        node_for-strength laws e k x y,
      )

  link_all-IsIndexed :
      (es : List Entity) (k : KnowledgeGraph G)
      → IsIndexed laws k
      → IsIndexed laws (link_all ops es k)
  unfolding link_all
  link_all-IsIndexed [] k indexed = indexed
  link_all-IsIndexed (e ∷ es) k indexed =
      link_all-IsIndexed es (entered e k) (entered-IsIndexed e k indexed)

  link_all-strength :
      (es : List Entity) (k : KnowledgeGraph G) (x y : Entity)
      → IsIndexed laws k
      → strength ops (link_all ops es k) x y
        ≡ add_many (meetings_all x y es (window ops k)) (strength ops k x y)
  unfolding link_all meetings_all add_many
  link_all-strength [] k x y indexed = refl
  link_all-strength (e ∷ es) k x y indexed =
      link_all-strength es (entered e k) x y (entered-IsIndexed e k indexed)
      ∙ (rw (window-same k (entered e k) (entered-recent e k), entered-strength e k x y indexed))
      ∙ sym (
          add_many_add (meetings x y e (window ops k)) (meetings_all x y es (window ops k))
            (strength ops k x y))

  -- The index stays right when an event is observed.
  pub observe_at-IsIndexed :
      (t : ℕ) (es : List Entity) (k : KnowledgeGraph G)
      → IsIndexed laws k
      → IsIndexed laws (observe_at ops t es k)
  unfolding observe_at retain_recent
  observe_at-IsIndexed t [] k indexed = indexed
  observe_at-IsIndexed t (e ∷ es) k indexed =
      link_all-IsIndexed (e ∷ es) (retain_recent ops t k) indexed

  pub observe_at-strength :
      (t : ℕ) (es : List Entity) (k : KnowledgeGraph G) (x y : Entity)
      → IsIndexed laws k
      → strength ops k x y ≤ max_weight
      → strength ops (observe_at ops t es k) x y
        ≡ min
            (strength ops k x y + meetings_all x y es (window ops (retain_recent ops t k)))
            max_weight
  unfolding observe_at strength retain_recent
  observe_at-strength t [] k x y indexed h = unfold meetings_all in omega arith
  observe_at-strength t (e ∷ es) k x y indexed h =
      link_all-strength (e ∷ es) (retain_recent ops t k) x y indexed
      ∙ add_many-min (meetings_all x y (e ∷ es) (window ops (retain_recent ops t k))) _ h
