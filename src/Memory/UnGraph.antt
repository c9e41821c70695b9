-- ===== src/Memory/UnGraph.antt =====
-- What crates/memory/src/graph.rs uses of petgraph's `UnGraph<Entity, f32>`: the operations, and
-- the documented behaviour that the graph relies on. A weight is a count of co-occurrences, which
-- an `f32` holds exactly up to 2^24.
use contextd.Prelude.{ℕ, ◌≡◌, ◌≢◌, Bool, ◌&&◌, ◌||◌, Option, none, some, List, ◌==◌, if◌then◌else◌}

-- The edge `(c, d)` is the undirected edge `(a, b)`.
abbrev pub same_pair : ℕ → ℕ → ℕ → ℕ → Bool
same_pair a b c d = (a == c && b == d) || (a == d && b == c)

pub record UnGraph (N G : Type 0) : Type 0 where
  pub new_undirected : G
  -- `graph[node]`
  pub node_weight : G → ℕ → Option N
  pub add_node : N → G → ℕ × G
  -- `graph.find_edge(a, b)` and the weight of the edge it finds
  pub find_edge : G → ℕ → ℕ → Option ℕ
  -- `graph[edge] = weight`, for the edge that `find_edge(a, b)` finds
  pub set_edge : ℕ → ℕ → ℕ → G → G
  pub add_edge : ℕ → ℕ → ℕ → G → G
  -- `node_weights()`, `edge_references()` with the endpoints, and `edges(node)` with the other end
  pub node_weights : G → List N
  pub edge_references : G → List (ℕ × ℕ × ℕ)
  pub edges_of : G → ℕ → List (ℕ × ℕ)

-- A new node is no old one, holds what was added and has no edge; an edge has one weight, whichever
-- end comes first, and joins nodes that are there; changing an edge changes no other one.
pub record UnGraphLaws {N G : Type 0} (ops : UnGraph N G) : Type 0 where
  pub empty_nodes : (n : ℕ) → UnGraph.node_weight ops (UnGraph.new_undirected ops) n ≡ none
  pub add_node-fresh :
      (x : N) (g : G) → UnGraph.node_weight ops g (UnGraph.add_node ops x g).0 ≡ none
  pub add_node-weight :
      (x : N) (g : G) (n : ℕ)
      → let (m, g') = UnGraph.add_node ops x g in
        UnGraph.node_weight ops g' n ≡ (if n == m then some x else UnGraph.node_weight ops g n)
  pub add_node-edge :
      (x : N) (g : G) (a b : ℕ)
      → UnGraph.find_edge ops (UnGraph.add_node ops x g).1 a b ≡ UnGraph.find_edge ops g a b
  pub find_edge-ends :
      (g : G) (a b : ℕ) → UnGraph.node_weight ops g a ≡ none → UnGraph.find_edge ops g a b ≡ none
  pub find_edge-other_end :
      (g : G) (a b : ℕ) → UnGraph.node_weight ops g b ≡ none → UnGraph.find_edge ops g a b ≡ none
  pub set_edge-weight :
      (w a b n : ℕ) (g : G)
      → UnGraph.node_weight ops (UnGraph.set_edge ops w a b g) n ≡ UnGraph.node_weight ops g n
  pub add_edge-weight :
      (w a b n : ℕ) (g : G)
      → UnGraph.node_weight ops (UnGraph.add_edge ops w a b g) n ≡ UnGraph.node_weight ops g n
  pub set_edge-edge :
      (w a b c d : ℕ) (g : G)
      → UnGraph.find_edge ops g a b ≢ none
      → UnGraph.find_edge ops (UnGraph.set_edge ops w a b g) c d
        ≡ (if same_pair a b c d then some w else UnGraph.find_edge ops g c d)
  pub add_edge-edge :
      (w a b c d : ℕ) (g : G)
      → UnGraph.node_weight ops g a ≢ none
      → UnGraph.node_weight ops g b ≢ none
      → UnGraph.find_edge ops g a b ≡ none
      → UnGraph.find_edge ops (UnGraph.add_edge ops w a b g) c d
        ≡ (if same_pair a b c d then some w else UnGraph.find_edge ops g c d)
  pub find_edge-undirected :
      (g : G) (a b : ℕ) → UnGraph.find_edge ops g a b ≡ UnGraph.find_edge ops g b a
