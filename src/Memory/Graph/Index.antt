-- ===== src/Memory/Graph/Index.antt =====
-- The index of the graph of crates/memory/src/graph.rs: which entity has which node.
use contextd.Prelude.{
  ℕ, ◌≡◌, refl, sym, ap, ◌∙◌, inl, inr, true, false, none, some, List, ◌∷◌, ◌==◌, if◌then◌else◌,
  arith, Bool-cases, Option-cases, &&-true,
}
use contextd.Text.{text_eq}
use contextd.Text.Equality.{text_eq→eq, text_eq_refl}
use contextd.Memory.Entities.{
  EntityKind, file, command, repo, error, intent, tag, Entity, entity_eq,
}
use contextd.Memory.UnGraph.{UnGraph, UnGraphLaws}
use contextd.Memory.Graph.{KnowledgeGraph, get, node_for}

of_tag : ℕ → EntityKind
of_tag n =
    if n == 0
    then file
    else if n == 1
    then command
    else if n == 2
    then repo
    else if n == 3
    then error
    else intent

of_tag-tag : (k : EntityKind) → of_tag (tag k) ≡ k
unfolding of_tag
of_tag-tag EntityKind.file = refl
of_tag-tag EntityKind.command = refl
of_tag-tag EntityKind.repo = refl
of_tag-tag EntityKind.error = refl
of_tag-tag EntityKind.intent = refl

tag_inj : (a b : EntityKind) → tag a ≡ tag b → a ≡ b
tag_inj a b h = sym (of_tag-tag a) ∙ ap of_tag h ∙ of_tag-tag b

pub entity_eq→eq : (a b : Entity) → entity_eq a b ≡ true → a ≡ b
unfolding entity_eq
entity_eq→eq a b h =
    let (same_kind, same_name) = &&-true (tag a.kind == tag b.kind) (text_eq a.name b.name) h in
    let kinds : a.kind ≡ b.kind = tag_inj a.kind b.kind (ground arith) in
    let names : a.name ≡ b.name = text_eq→eq a.name b.name same_name in cc

pub entity_eq_refl : (a : Entity) → entity_eq a a ≡ true
unfolding entity_eq
entity_eq_refl a = ground (arith, text_eq_refl a.name)

-- An index after one more entity.
pub get-cons :
    (e x : Entity) (n : ℕ) (index : List (Entity × ℕ))
    → get e ((x, n) ∷ index) ≡ (if entity_eq x e then some n else get e index)
unfolding get
get-cons e x n index = refl

module _ {G : Type 0} {ops : UnGraph Entity G} (laws : UnGraphLaws ops) where
  -- The index names, for each entity it has, the node that holds this entity.
  abbrev pub IsIndexed : KnowledgeGraph G → Type 0
  IsIndexed k =
      (e : Entity) (n : ℕ) → get e k.index ≡ some n → UnGraph.node_weight ops k.graph n ≡ some e

  -- Two entities with one node are one entity.
  pub IsIndexed-one :
      (k : KnowledgeGraph G)
      → IsIndexed k
      → (a b : Entity) (n : ℕ) → get a k.index ≡ some n
      → get b k.index ≡ some n
      → a ≡ b
  IsIndexed-one k indexed a b n ha hb = some_inj (sym (indexed a n ha) ∙ indexed b n hb)
    where
      some_inj : {x y : Entity} → some x ≡ some y → x ≡ y
      some_inj e = ground arith

  -- The graph after a new entity.
  abbrev pub added : Entity → KnowledgeGraph G → KnowledgeGraph G
  added e k =
      let (node, graph) = UnGraph.add_node ops e k.graph in
      record k { graph = graph; index = (e, node) ∷ k.index }

  pub node_for-found :
      (e : Entity) (k : KnowledgeGraph G) (n : ℕ)
      → get e k.index ≡ some n
      → node_for ops e k ≡ (n, k)
  unfolding node_for
  node_for-found e k n h = rw (h, node_for)

  pub node_for-new :
      (e : Entity) (k : KnowledgeGraph G)
      → get e k.index ≡ none
      → node_for ops e k ≡ ((UnGraph.add_node ops e k.graph).0, added e k)
  unfolding node_for
  node_for-new e k h = rw (h, node_for)

  added-IsIndexed : (e : Entity) (k : KnowledgeGraph G) → IsIndexed k → IsIndexed (added e k)
  unfolding get
  added-IsIndexed e k indexed x n h = elim (Bool-cases (entity_eq e x)) [
    | inl same ↦
        let node : (n == fresh) ≡ true = ground arith in
        UnGraphLaws.add_node-weight laws e k.graph n
        ∙ ap (λ b. if b then some e else UnGraph.node_weight ops k.graph n) node
        ∙ ap some (entity_eq→eq e x same)
    | inr other ↦
        let old : UnGraph.node_weight ops k.graph n ≡ some x = indexed x n (ground arith) in
        UnGraphLaws.add_node-weight laws e k.graph n
        ∙ ap (λ b. if b then some e else UnGraph.node_weight ops k.graph n) (apart old)
        ∙ old
  ]
    where
      fresh : ℕ
      fresh = (UnGraph.add_node ops e k.graph).0

      occupied : UnGraph.node_weight ops k.graph n ≡ some x → n ≡ fresh → ⊥
      occupied old same =
          let free : UnGraph.node_weight ops k.graph n ≡ none =
            ap (UnGraph.node_weight ops k.graph) same ∙ UnGraphLaws.add_node-fresh laws e k.graph in
          ground arith

      apart : UnGraph.node_weight ops k.graph n ≡ some x → (n == fresh) ≡ false
      apart old = elim (Bool-cases (n == fresh)) [
        | inl same ↦ absurd (occupied old (ground arith))
        | inr not_same ↦ not_same
      ]

  pub node_for-IsIndexed :
      (e : Entity) (k : KnowledgeGraph G) → IsIndexed k → IsIndexed (node_for ops e k).1
  node_for-IsIndexed e k indexed = elim (Option-cases (get e k.index)) [
    | inl absent ↦ rw (node_for-new e k absent) (added-IsIndexed e k indexed)
    | inr (n, there) ↦ rw (node_for-found e k n there) indexed
  ]

  -- The node that `node_for` answers is the entity's.
  pub node_for-get :
      (e : Entity) (k : KnowledgeGraph G)
      → get e ((node_for ops e k).1.index) ≡ some ((node_for ops e k).0)
  unfolding get
  node_for-get e k = elim (Option-cases (get e k.index)) [
    | inl absent ↦ rw (node_for-new e k absent) (rw (entity_eq_refl e))
    | inr (n, there) ↦ rw (node_for-found e k n there) there
  ]

  -- It takes no node from an entity.
  pub node_for-keeps :
      (e : Entity) (k : KnowledgeGraph G) (x : Entity) (n : ℕ)
      → get x k.index ≡ some n
      → get x ((node_for ops e k).1.index) ≡ some n
  unfolding get
  node_for-keeps e k x n h = elim (Option-cases (get e k.index)) [
    | inl absent ↦ rw (node_for-new e k absent) (ground (arith, entity_eq→eq e x))
    | inr (m, there) ↦ rw (node_for-found e k m there) h
  ]

  pub node_for-recent : (e : Entity) (k : KnowledgeGraph G) → (node_for ops e k).1.recent ≡ k.recent
  node_for-recent e k = elim (Option-cases (get e k.index)) [
    | inl absent ↦ rw (node_for-new e k absent)
    | inr (n, there) ↦ rw (node_for-found e k n there)
  ]
