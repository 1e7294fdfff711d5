-- ===== src/Cycles/Building.antt =====
-- The adjacency list against the connections that it was built from.
use delaxis.Prelude.{
  String, ◌==◌, eq_iff, true, List, [], ◌∷◌, ◌++◌, contains, contains-append, contains-keys, lookup,
  keys, Subset, ◌≡◌, refl, inl, inr, ◌⊎◌, arith, if◌then◌else◌, ◌||◌, ◌↔◌, Option-cases,
}
use delaxis.Graph.{Graph, neighbors, HasEdge}
use delaxis.Cycles.{Connection, add_edge, add_connections, build_graph, node_names}

-- There is a sequential connection from `a` to `b`.
abbrev pub Links : List Connection → String → String → Type 0
Links [] a b = ⊥
Links (c ∷ cs) a b = ((c.type ≡ "sequential") × (c.from_node ≡ a) × (c.to_node ≡ b)) ⊎ Links cs a b

neighbors-add_edge :
    (a b n : String) (g : Graph)
    → neighbors (add_edge a b g) n ≡ (if a == n then neighbors g n ++ b ∷ [] else neighbors g n)
unfolding neighbors add_edge lookup
neighbors-add_edge a b n [] = ground arith
neighbors-add_edge a b n ((m, ms) ∷ g) =
    ground (arith, neighbors-add_edge a b n g, eq_iff m a, eq_iff m n, eq_iff a n)

HasEdge-add_edge :
    (a b x y : String) (g : Graph)
    → HasEdge (add_edge a b g) x y ↔ (HasEdge g x y ⊎ (a ≡ x) × (b ≡ y))
unfolding contains
HasEdge-add_edge a b x y g =
    rw neighbors-add_edge
      (ground (arith, contains-append y (neighbors g x) (b ∷ []), eq_iff a x, eq_iff b y))

abbrev after : Connection → Graph → Graph
after c g = if c.type == "sequential" then add_edge c.from_node c.to_node g else g

-- One connection adds its edge if it is sequential, and nothing else.
HasEdge-after :
    (c : Connection) (g : Graph) (x y : String)
    → HasEdge (after c g) x y
      ↔ (HasEdge g x y ⊎ (c.type ≡ "sequential") × (c.from_node ≡ x) × (c.to_node ≡ y))
HasEdge-after c g x y =
    ground (arith, HasEdge-add_edge c.from_node c.to_node x y g, eq_iff c.type "sequential")

-- The edges of the graph are exactly the sequential connections.
HasEdge-add_connections :
    (cs : List Connection) (g : Graph) (x y : String)
    → HasEdge (add_connections g cs) x y ↔ (HasEdge g x y ⊎ Links cs x y)
unfolding add_connections
HasEdge-add_connections [] g x y = ground arith
HasEdge-add_connections (c ∷ cs) g x y =
    ground (arith, HasEdge-add_connections cs (after c g) x y, HasEdge-after c g x y)

pub HasEdge-build_graph :
    (cs : List Connection) (x y : String) → HasEdge (build_graph cs) x y ↔ Links cs x y
unfolding neighbors lookup contains
HasEdge-build_graph cs x y = ground (arith, HasEdge-add_connections cs [] x y)

pub HasEdge-keys : (g : Graph) (x y : String) → HasEdge g x y → contains x (keys g) ≡ true
unfolding neighbors contains
HasEdge-keys g x y h = elim (Option-cases (lookup x g)) [
  | inl missing ↦ ground arith
  | inr (ns, found) ↦ contains-keys x g found
]

contains-keys-add_edge :
    (a b x : String) (g : Graph)
    → contains x (keys (add_edge a b g)) ≡ (if a == x then true else contains x (keys g))
unfolding add_edge keys contains
contains-keys-add_edge a b x [] = refl
contains-keys-add_edge a b x ((n, ns) ∷ g) =
    ground (arith, contains-keys-add_edge a b x g, eq_iff n a, eq_iff n x, eq_iff a x)

contains-keys-add_connections :
    (cs : List Connection) (g : Graph) (x : String)
    → contains x (keys (add_connections g cs)) ≡ true
    → (contains x (keys g) || contains x (node_names cs)) ≡ true
unfolding add_connections node_names contains
contains-keys-add_connections [] g x h = ground arith
contains-keys-add_connections (c ∷ cs) g x h = ground (
  arith,
  contains-keys-add_connections cs (after c g) x,
  contains-keys-add_edge c.from_node c.to_node x g,
)

-- The roots and the ends of edges are among the names, whose number is the fuel.
pub keys-node_names : (cs : List Connection) → Subset (keys (build_graph cs)) (node_names cs)
unfolding keys contains
keys-node_names cs x h = ground (arith, contains-keys-add_connections cs [] x h)

Links-node_names :
    (cs : List Connection) (x y : String) → Links cs x y → contains y (node_names cs) ≡ true
unfolding node_names contains
Links-node_names [] x y h = absurd h
Links-node_names (c ∷ cs) x y h = ground (arith, Links-node_names cs x y, eq_iff c.to_node y)

pub HasEdge-node_names :
    (cs : List Connection) (x y : String)
    → HasEdge (build_graph cs) x y
    → contains y (node_names cs) ≡ true
HasEdge-node_names cs x y h = Links-node_names cs x y ((HasEdge-build_graph cs x y).0 h)
