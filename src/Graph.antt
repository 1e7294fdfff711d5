-- ===== src/Graph.antt =====
-- Directed graphs as the validators build them: a dictionary from a node's name to the list of the
-- nodes that its edges lead to. What a walk, a cycle and reachability are.
pub mod Chains
pub mod Unvisited
pub mod Targets
use delaxis.Prelude.{
  String, List, [], ◌∷◌, ◌++◌, Option, none, some, ◌≡◌, true, contains, lookup, Subset,
}

abbrev pub Graph : Type 0
Graph = List (String × List String)

-- The neighbors of a node: none if it is no key.
unfoldable pub neighbors : Graph → String → List String
neighbors g n = elim (lookup n g) [ none ↦ [] | some ns ↦ ns ]

-- Every target of an edge of the graph.
unfoldable pub targets : Graph → List String
targets [] = []
targets ((n, ns) ∷ g) = ns ++ targets g

abbrev pub HasEdge : Graph → String → String → Type 0
HasEdge g x y = contains y (neighbors g x) ≡ true

abbrev pub Relation : Type 1
Relation = String → String → Type 0

-- A walk of one edge or more.
pub data Reaches (E : Relation) : String → String → Type 0 where
  edge : {x y : String} → E x y → Reaches E x y
  step : {x y z : String} → E x y → Reaches E y z → Reaches E x z

abbrev pub IsAcyclic : Relation → Type 0
IsAcyclic E = (x : String) → ¬ Reaches E x x

-- Each node of the list has an edge to the next one.
abbrev pub IsChain : Relation → List String → Type 0
IsChain E [] = Unit
IsChain E (x ∷ []) = Unit
IsChain E (x ∷ y ∷ ys) = E x y × IsChain E (y ∷ ys)

-- A cycle written out: a chain that ends with the node that it begins with.
pub record IsCycle (E : Relation) (c : List String) : Type 0 where
  pub first : String
  pub inner : List String
  pub written : c ≡ first ∷ inner ++ first ∷ []
  pub chain : IsChain E c
