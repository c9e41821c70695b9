-- ===== src/Examples/Entities.antt =====
-- The theorems on the graph of entities, at a graph of lists and functions.
use contextd.Prelude.{
  ℕ, zero, suc, ◌+◌, ◌≡◌, ◌≢◌, refl, ◌∙◌, inl, inr, Bool, true, false, ◌&&◌, Option, none, some,
  List, [], ◌∷◌, ◌++◌, ltb, ◌==◌, if◌then◌else◌, length, length-append, min, max, arith, Bool-cases,
  &&-true,
}
use contextd.Prelude.Int.{pos}
use contextd.Text.{str, text_eq}
use contextd.Core.Event.{EventSource, ProcessedEvent, new}
use contextd.Memory.Entities.{Entity, entity_eq, command, entities_of}
use contextd.Memory.UnGraph.{UnGraph, UnGraphLaws, same_pair}
use contextd.Memory.Graph
use contextd.Memory.Graph.{
  restore_edge, node_for, KnowledgeGraph, max_weight, get, observe, restore_entity, window,
  retain_recent,
}
use contextd.Memory.Graph.Index.{IsIndexed}
use contextd.Memory.Graph.Strength.{strength}
use contextd.Memory.Graph.Observed.{meetings_all}
use contextd.Memory.Graph.Grown.{Grown, empty, edge_read, Grown-IsIndexed, observe-strength}
use contextd.Examples.{Value, json, event_of, shell_run}

-- The nodes in their order, and a weight for the lesser and the greater end of each edge.
record Nodes : Type 0 where
  held : List Entity
  edge : ℕ → ℕ → Option ℕ

nth : List Entity → ℕ → Option Entity
nth [] n = none
nth (x ∷ xs) zero = some x
nth (x ∷ xs) (suc n) = nth xs n

abbrev inside : Nodes → ℕ → Bool
inside g a = ltb a (length g.held)

abbrev edge_at : Nodes → ℕ → ℕ → Option ℕ
edge_at g a b = if inside g a && inside g b then g.edge (min a b) (max a b) else none

abbrev with_edge : ℕ → ℕ → ℕ → Nodes → Nodes
with_edge w a b g = record g { edge = λ c d. if same_pair a b c d then some w else g.edge c d }

abbrev with_node : Entity → Nodes → ℕ × Nodes
with_node x g =
    let n = length g.held in
    (n, record { held = g.held ++ x ∷ []; edge = λ c d. if d == n then none else g.edge c d })

abbrev ops : UnGraph Entity Nodes
ops = record {
  new_undirected = record { held = []; edge = λ a b. none };
  node_weight = λ g n. nth g.held n;
  add_node = with_node;
  find_edge = edge_at;
  set_edge = with_edge;
  add_edge = with_edge;
  node_weights = λ g. g.held;
  edge_references = λ g. [];
  edges_of = λ g n. [];
}

nth-length : (xs : List Entity) → nth xs (length xs) ≡ none
unfolding nth
nth-length [] = refl
nth-length (x ∷ xs) = nth-length xs

nth-append :
    (x : Entity) (xs : List Entity) (n : ℕ)
    → nth (xs ++ x ∷ []) n ≡ (if n == length xs then some x else nth xs n)
unfolding nth
nth-append x [] zero = refl
nth-append x [] (suc n) = ground arith
nth-append x (y ∷ xs) zero = ground arith
nth-append x (y ∷ xs) (suc n) = ground (arith, nth-append x xs n)

nth-none : (xs : List Entity) (n : ℕ) → nth xs n ≡ none → ltb n (length xs) ≡ false
unfolding nth
nth-none [] n h = ground arith
nth-none (x ∷ xs) zero h = ground arith
nth-none (x ∷ xs) (suc n) h = ground (arith, nth-none xs n h)

nth-some : (xs : List Entity) (n : ℕ) → nth xs n ≢ none → ltb n (length xs) ≡ true
unfolding nth
nth-some [] n h = absurd (h refl)
nth-some (x ∷ xs) zero h = ground arith
nth-some (x ∷ xs) (suc n) h = ground (arith, nth-some xs n h)

with_node-edge : (x : Entity) (g : Nodes) (a b : ℕ) → edge_at (with_node x g).1 a b ≡ edge_at g a b
with_node-edge x g a b = ground (arith, length-append g.held (x ∷ []))

same_pair-min : (a b c d : ℕ) → same_pair a b (min c d) (max c d) ≡ same_pair a b c d
same_pair-min a b c d = ground arith

same_pair-inside :
    (a b c d n : ℕ)
    → ltb a n ≡ true
    → ltb b n ≡ true
    → (ltb c n && ltb d n) ≡ false
    → same_pair a b c d ≡ false
same_pair-inside a b c d n ha hb h = ground arith

with_edge-edge :
    (w a b c d : ℕ) (g : Nodes)
    → (inside g a ≡ true) × (inside g b ≡ true)
    → edge_at (with_edge w a b g) c d ≡ (if same_pair a b c d then some w else edge_at g c d)
with_edge-edge w a b c d g (ha, hb) = elim (Bool-cases (inside g c && inside g d)) [
  | inl there ↦ rw (there, same_pair-min a b c d)
  | inr outside ↦ rw (outside, same_pair-inside a b c d (length g.held) ha hb outside)
]

edge_at-inside :
    (g : Nodes) (a b : ℕ) → edge_at g a b ≢ none → (inside g a ≡ true) × (inside g b ≡ true)
edge_at-inside g a b h = elim (Bool-cases (inside g a && inside g b)) [
  | inl there ↦ &&-true (inside g a) (inside g b) there
  | inr outside ↦ absurd (h (rw outside))
]

edge_at-undirected : (g : Nodes) (a b : ℕ) → edge_at g a b ≡ edge_at g b a
edge_at-undirected g a b =
    let low : min a b ≡ min b a = omega arith in
    let high : max a b ≡ max b a = omega arith in rw (low, high) (ground arith)

laws : UnGraphLaws ops
unfolding nth
laws = record {
  empty_nodes = λ n. refl;
  add_node-fresh = λ x g. nth-length g.held;
  add_node-weight = λ x g n. nth-append x g.held n;
  add_node-edge = with_node-edge;
  find_edge-ends = λ g a b h. rw (nth-none g.held a h);
  find_edge-other_end = λ g a b h. edge_at-undirected g a b ∙ rw (nth-none g.held b h);
  set_edge-weight = λ w a b n g. refl;
  add_edge-weight = λ w a b n g. refl;
  set_edge-edge = λ w a b c d g h. with_edge-edge w a b c d g (edge_at-inside g a b h);
  add_edge-edge = λ w a b c d g ha hb h.
      with_edge-edge w a b c d g (nth-some g.held a ha, nth-some g.held b hb);
  find_edge-undirected = edge_at-undirected;
}

abbrev program : Entity
program = record { kind = command; name = str "make" }

abbrev other : Entity
other = record { kind = command; name = str "git push" }

-- A graph read back from storage, where the two were seen together three times.
abbrev stored : KnowledgeGraph Nodes
stored = restore_edge ops program other 3 (Graph.new ops)

stored-Grown : Grown json ops stored
stored-Grown = edge_read empty program other 3

stored-strength : strength ops stored program other ≡ 3
unfolding strength restore_edge node_for get nth entity_eq text_eq str
stored-strength = refl

Grown-IsIndexed_example : IsIndexed laws stored
Grown-IsIndexed_example = Grown-IsIndexed json ops laws stored stored-Grown

abbrev run : ProcessedEvent Value
run = new (event_of EventSource.shell 3 (shell_run (str "make") (pos 1))) 60

observe-strength_example :
    strength ops (observe ops json run stored) program other
    ≡ min
        (strength ops stored program other
          + meetings_all program other
              (entities_of json run)
              (window ops (retain_recent ops run.raw.timestamp_ms stored)))
        max_weight
observe-strength_example =
    observe-strength json ops laws stored stored-Grown run program other
      (omega (arith, stored-strength))
