-- ===== src/Memory/Graph/Strength.antt =====
-- The weights of the graph of crates/memory/src/graph.rs, as a count for each two entities.
use contextd.Prelude.{
  ℕ, ◌≡◌, ◌≢◌, refl, sym, ap, ◌∙◌, subst, inl, inr, Bool, true, false, ◌&&◌, ◌||◌, Option, none,
  some, ◌==◌, if◌then◌else◌, arith, Bool-cases, Option-cases,
}
use contextd.Memory.Entities.{Entity, entity_eq}
use contextd.Memory.UnGraph.{UnGraph, UnGraphLaws, same_pair}
use contextd.Memory.Graph.{KnowledgeGraph, add_one, get, node_for, reinforce}
use contextd.Memory.Graph.Index.{
  entity_eq→eq, entity_eq_refl, IsIndexed, IsIndexed-one, added, node_for-found, node_for-new,
}

-- `{a, b}` and `{c, d}` are the same two entities.
unfoldable pub same_two : Entity → Entity → Entity → Entity → Bool
same_two a b c d = (entity_eq a c && entity_eq b d) || (entity_eq a d && entity_eq b c)

abbrev pub weight_or_zero : Option ℕ → ℕ
weight_or_zero none = 0
weight_or_zero (some w) = w

module _ {G : Type 0} (ops : UnGraph Entity G) where
  -- How strongly two nodes, or two entities, are related: nothing without an edge.
  abbrev pub between : G → Option ℕ → Option ℕ → ℕ
  between g (some a) (some b) = weight_or_zero (UnGraph.find_edge ops g a b)
  between g _ _ = 0

  unfoldable pub strength : KnowledgeGraph G → Entity → Entity → ℕ
  strength k x y = between k.graph (get x k.index) (get y k.index)

module _ {G : Type 0} {ops : UnGraph Entity G} (laws : UnGraphLaws ops) where
  between-add_node :
      (e : Entity) (g : G) (o p : Option ℕ)
      → between ops (UnGraph.add_node ops e g).1 o p ≡ between ops g o p
  between-add_node e g none p = refl
  between-add_node e g (some a) none = refl
  between-add_node e g (some a) (some b) =
      ap weight_or_zero (UnGraphLaws.add_node-edge laws e g a b)

  between-no_node :
      (g : G) (a : ℕ) (p : Option ℕ)
      → UnGraph.node_weight ops g a ≡ none
      → between ops g (some a) p ≡ 0
  between-no_node g a none free = refl
  between-no_node g a (some b) free = ap weight_or_zero (UnGraphLaws.find_edge-ends laws g a b free)

  between-no_other :
      (g : G) (o : Option ℕ) (b : ℕ)
      → UnGraph.node_weight ops g b ≡ none
      → between ops g o (some b) ≡ 0
  between-no_other g none b free = refl
  between-no_other g (some a) b free =
      ap weight_or_zero (UnGraphLaws.find_edge-other_end laws g a b free)

  between-no_entity : (g : G) (o : Option ℕ) → between ops g o none ≡ 0
  between-no_entity g none = refl
  between-no_entity g (some a) = refl

  -- A node for an entity changes no strength.
  added-strength :
      (e : Entity) (k : KnowledgeGraph G) (x y : Entity)
      → get e k.index ≡ none
      → strength ops (added laws e k) x y ≡ strength ops k x y
  unfolding strength get
  added-strength e k x y absent = between-add_node e k.graph _ _ ∙ same
    where
      fresh : ℕ
      fresh = (UnGraph.add_node ops e k.graph).0

      free : UnGraph.node_weight ops k.graph fresh ≡ none
      free = UnGraphLaws.add_node-fresh laws e k.graph

      missing : (z : Entity) → entity_eq e z ≡ true → get z k.index ≡ none
      missing z same = subst (λ w. get w k.index ≡ none) (entity_eq→eq e z same) absent

      same :
          between ops k.graph
            (if entity_eq e x then some fresh else get x k.index)
            (if entity_eq e y then some fresh else get y k.index)
          ≡ between ops k.graph (get x k.index) (get y k.index)
      same = elim (Bool-cases (entity_eq e x)) [
        | inl is_x ↦ rw (is_x, missing x is_x) (between-no_node k.graph fresh _ free)
        | inr not_x ↦ elim (Bool-cases (entity_eq e y)) [
          | inl is_y ↦
              rw (not_x, is_y, missing y is_y)
                (between-no_other k.graph (get x k.index) fresh free
                  ∙ sym (between-no_entity k.graph (get x k.index)))
          | inr not_y ↦ rw (not_x, not_y)
        ]
      ]

  pub node_for-strength :
      (e : Entity) (k : KnowledgeGraph G) (x y : Entity)
      → strength ops (node_for ops e k).1 x y ≡ strength ops k x y
  node_for-strength e k x y = elim (Option-cases (get e k.index)) [
    | inl absent ↦ rw (node_for-new laws e k absent) (added-strength e k x y absent)
    | inr (n, there) ↦ rw (node_for-found laws e k n there)
  ]

  -- What `reinforce` does to each edge.
  reinforce-edge :
      (k : KnowledgeGraph G) (a b c d : ℕ)
      → UnGraph.node_weight ops k.graph a ≢ none
      → UnGraph.node_weight ops k.graph b ≢ none
      → UnGraph.find_edge ops (reinforce ops a b k).graph c d ≡ (
          if same_pair a b c d
          then some (add_one (weight_or_zero (UnGraph.find_edge ops k.graph a b)))
          else UnGraph.find_edge ops k.graph c d)
  unfolding reinforce add_one
  reinforce-edge k a b c d ha hb = elim (Option-cases (UnGraph.find_edge ops k.graph a b)) [
    | inl absent ↦
        rw (absent, reinforce) (UnGraphLaws.add_edge-edge laws 1 a b c d k.graph ha hb absent)
    | inr (w, there) ↦
        rw (there, reinforce)
          (UnGraphLaws.set_edge-edge laws (add_one w) a b c d k.graph (λ absent. ground arith))
  ]

  pub reinforce-index : (k : KnowledgeGraph G) (a b : ℕ) → (reinforce ops a b k).index ≡ k.index
  unfolding reinforce
  reinforce-index k a b = elim (Option-cases (UnGraph.find_edge ops k.graph a b)) [
    | inl absent ↦ rw (absent, reinforce)
    | inr (w, there) ↦ rw (there, reinforce)
  ]

  pub reinforce-IsIndexed :
      (k : KnowledgeGraph G) (a b : ℕ) → IsIndexed laws k → IsIndexed laws (reinforce ops a b k)
  unfolding reinforce
  reinforce-IsIndexed k a b indexed = elim (Option-cases (UnGraph.find_edge ops k.graph a b)) [
    | inl absent ↦
        rw (absent, reinforce)
          (λ e n h. UnGraphLaws.add_edge-weight laws 1 a b n k.graph ∙ indexed e n h)
    | inr (w, there) ↦
        rw (there, reinforce)
          (λ e n h. UnGraphLaws.set_edge-weight laws (add_one w) a b n k.graph ∙ indexed e n h)
  ]

  pub reinforce-recent : (k : KnowledgeGraph G) (a b : ℕ) → (reinforce ops a b k).recent ≡ k.recent
  unfolding reinforce
  reinforce-recent k a b = elim (Option-cases (UnGraph.find_edge ops k.graph a b)) [
    | inl absent ↦ rw (absent, reinforce)
    | inr (w, there) ↦ rw (there, reinforce)
  ]

  module _ (k : KnowledgeGraph G) (indexed : IsIndexed laws k) where
    -- Nodes are told apart as their entities are.
    nodes-agree :
        (e x : Entity) (a c : ℕ)
        → get e k.index ≡ some a
        → get x k.index ≡ some c
        → (a == c) ≡ entity_eq e x
    nodes-agree e x a c he hx = elim (Bool-cases (entity_eq e x)) [
      | inl same ↦
          let one : get e k.index ≡ get x k.index =
            ap (λ z. get z k.index) (entity_eq→eq e x same) in
          ground arith
      | inr other ↦ elim (Bool-cases (a == c)) [
        | inl same ↦
            let equal : a ≡ c = ground arith in
            let one : e ≡ x = IsIndexed-one laws k indexed e x c (ground arith) hx in
            absurd (differs one other)
        | inr not_same ↦ not_same ∙ sym other
      ]
    ]
      where
        differs : e ≡ x → entity_eq e x ≡ false → ⊥
        differs one other =
            let same : entity_eq e x ≡ true =
              subst (λ z. entity_eq e z ≡ true) one (entity_eq_refl e) in
            ground arith

    no_node-differs :
        (e x : Entity) (a : ℕ)
        → get e k.index ≡ some a
        → get x k.index ≡ none
        → entity_eq e x ≡ false
    no_node-differs e x a he hx = elim (Bool-cases (entity_eq e x)) [
      | inl same ↦
          let one : get e k.index ≡ get x k.index =
            ap (λ z. get z k.index) (entity_eq→eq e x same) in
          absurd (ground arith)
      | inr other ↦ other
    ]

    -- The edge of two nodes is that of any two that `same_pair` takes for them.
    same_pair-edge :
        (a b c d : ℕ)
        → same_pair a b c d ≡ true
        → UnGraph.find_edge ops k.graph a b ≡ UnGraph.find_edge ops k.graph c d
    same_pair-edge a b c d h = elim (Bool-cases (a == c && b == d)) [
      | inl straight ↦ let first : a ≡ c = ground arith in let second : b ≡ d = ground arith in cc
      | inr crossed ↦
          let first : a ≡ d = ground arith in
          let second : b ≡ c = ground arith in
          rw (first, second) (UnGraphLaws.find_edge-undirected laws k.graph d c)
    ]

    held : (e : Entity) (a : ℕ) → get e k.index ≡ some a → UnGraph.node_weight ops k.graph a ≢ none
    held e a he empty =
        let there : UnGraph.node_weight ops k.graph a ≡ some e = indexed e a he in ground arith

    reinforce-between :
        (a b c d : ℕ)
        → UnGraph.node_weight ops k.graph a ≢ none
        → UnGraph.node_weight ops k.graph b ≢ none
        → weight_or_zero (UnGraph.find_edge ops (reinforce ops a b k).graph c d) ≡ (
            if same_pair a b c d
            then add_one (weight_or_zero (UnGraph.find_edge ops k.graph c d))
            else weight_or_zero (UnGraph.find_edge ops k.graph c d))
    reinforce-between a b c d ha hb = elim (Bool-cases (same_pair a b c d)) [
      | inl same ↦ rw (reinforce-edge k a b c d ha hb) (rw (same, same_pair-edge a b c d same))
      | inr other ↦ rw (reinforce-edge k a b c d ha hb) (rw other)
    ]

    -- Reinforcing the edge of two entities adds one to their strength, and to no other.
    pub reinforce-strength :
        (e f : Entity) (a b : ℕ) (x y : Entity)
        → get e k.index ≡ some a
        → get f k.index ≡ some b
        → strength ops (reinforce ops a b k) x y
          ≡ (if same_two e f x y then add_one (strength ops k x y) else strength ops k x y)
    unfolding strength same_two
    reinforce-strength e f a b x y he hf =
        rw (reinforce-index k a b) (elim (Option-cases (get x k.index)) [
          | inl no_x ↦
              rw (no_x, no_node-differs e x a he no_x, no_node-differs f x b hf no_x) (ground arith)
          | inr (c, hx) ↦ elim (Option-cases (get y k.index)) [
            | inl no_y ↦
                rw (hx, no_y, no_node-differs e y a he no_y, no_node-differs f y b hf no_y)
                  (ground arith)
            | inr (d, hy) ↦
                rw
                  (
                    hx,
                    hy,
                    sym (nodes-agree e x a c he hx),
                    sym (nodes-agree e y a d he hy),
                    sym (nodes-agree f x b c hf hx),
                    sym (nodes-agree f y b d hf hy),
                  )
                  (reinforce-between a b c d (held e a he) (held f b hf))
          ]
        ])
