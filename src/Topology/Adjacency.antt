-- ===== src/Topology/Adjacency.antt =====
-- The adjacency list of a topology against its nodes and edges.
use delaxis.Prelude.{
  String, ◌==◌, eq_iff, true, false, List, [], ◌∷◌, ◌++◌, contains, contains-append, lookup, keys,
  ◌≡◌, refl, ap, ◌∙◌, ◌↔◌, ◌⊎◌, inl, inr, Bool-cases, ◌||◌, arith, if◌then◌else◌,
}
use delaxis.Prelude.Outcome.{ret, Returns, Returns-bind, Returns-weaken, ◌>>=◌}
use delaxis.Graph.{Graph, neighbors, HasEdge}
use delaxis.Topology.{
  AgentNode, AgentEdge, TopologyConfig, node_ids, validate_edges, empty_adjacency, append_edge,
  append_edges, build_adjacency,
}

-- Some edge of the configuration leads from `a` to `b`.
abbrev pub Connects : List AgentEdge → String → String → Type 0
Connects [] a b = ⊥
Connects (e ∷ es) a b = (e.from_node ≡ a) × (e.to_node ≡ b) ⊎ Connects es a b

abbrev pub IsDistinct : List String → Type 0
IsDistinct [] = Unit
IsDistinct (x ∷ xs) = (contains x xs ≡ false) × IsDistinct xs

keys-append :
    (g : Graph) (n : String) (ns : List String) → keys (g ++ (n, ns) ∷ []) ≡ keys g ++ n ∷ []
unfolding keys
keys-append [] n ns = refl
keys-append ((m, ms) ∷ g) n ns = ap (λ (l : List String). m ∷ l) (keys-append g n ns)

IsDistinct-snoc :
    (xs : List String) (x : String)
    → IsDistinct xs
    → contains x xs ≡ false
    → IsDistinct (xs ++ x ∷ [])
unfolding contains
IsDistinct-snoc [] x h k = (refl, tt)
IsDistinct-snoc (y ∷ xs) x h k = (
  ground (arith, contains-append y xs (x ∷ []), eq_iff x y, eq_iff y x),
  IsDistinct-snoc xs x h.1 (ground arith),
)

-- No edges yet, one key for each node.
record Empty (nodes : List AgentNode) (g g' : Graph) : Type 0 where
  distinct : IsDistinct (keys g')
  listed :
      (x : String) → contains x (keys g') ≡ (contains x (keys g) || contains x (node_ids nodes))
  edges : (x : String) → neighbors g' x ≡ neighbors g x

neighbors-append : (g : Graph) (n x : String) → neighbors (g ++ (n, []) ∷ []) x ≡ neighbors g x
unfolding neighbors lookup
neighbors-append [] n x = ground arith
neighbors-append ((m, ms) ∷ g) n x = ground (arith, neighbors-append g n x)

empty_adjacency-Empty :
    (nodes : List AgentNode) (g : Graph)
    → IsDistinct (keys g)
    → Empty nodes g (empty_adjacency nodes g)
unfolding empty_adjacency contains
empty_adjacency-Empty [] g h = record {
  distinct = h;
  listed = λ x. ground arith;
  edges = λ x. refl;
}
empty_adjacency-Empty (n ∷ nodes) g h = elim (Bool-cases (contains n.id (keys g))) [
  | inl old ↦
      let r = empty_adjacency-Empty nodes g h in
      rw old (record {
        distinct = r.distinct;
        listed = λ x. ground (arith, r.listed x, eq_iff n.id x);
        edges = r.edges;
      })
  | inr new ↦
      let longer = keys-append g n.id [] in
      let r =
        empty_adjacency-Empty nodes (g ++ (n.id, []) ∷ [])
          (rw longer (IsDistinct-snoc (keys g) n.id h new)) in
      rw new (record {
        distinct = r.distinct;
        listed = λ x.
            ground
              (arith, r.listed x, ap (contains x) longer, contains-append x (keys g) (n.id ∷ []));
        edges = λ x. r.edges x ∙ neighbors-append g n.id x;
      })
]

append_edge-here :
    (a b n : String) (ns : List String) (g : Graph)
    → (n == a) ≡ true
    → append_edge a b ((n, ns) ∷ g) ≡ ret ((n, ns ++ b ∷ []) ∷ g)
unfolding append_edge
append_edge-here a b n ns g h = rw h

append_edge-later :
    (a b n : String) (ns : List String) (g : Graph)
    → (n == a) ≡ false
    → append_edge a b ((n, ns) ∷ g) ≡ (append_edge a b g >>= λ g'. ret ((n, ns) ∷ g'))
unfolding append_edge
append_edge-later a b n ns g h = rw h

-- One edge more: the keys stay, and `b` is the last neighbor of `a`.
abbrev Extends : String → String → Graph → Graph → Type 0
Extends a b g g' =
    (keys g' ≡ keys g)
    × ((x : String) → neighbors g' x ≡ (if a == x then neighbors g x ++ b ∷ [] else neighbors g x))

append_edge-Extends :
    (a b : String) (g : Graph)
    → contains a (keys g) ≡ true
    → Returns (append_edge a b g) (Extends a b g)
unfolding keys contains
append_edge-Extends a b [] h = ground arith
append_edge-Extends a b ((n, ns) ∷ g) h = elim (Bool-cases (n == a)) [
  | inl same ↦
      rw (append_edge-here a b n ns g same)
        (refl, λ x. unfold neighbors lookup in ground (arith, eq_iff n a, eq_iff n x, eq_iff a x))
  | inr other ↦ rw (append_edge-later a b n ns g other) (
      Returns-bind (append_edge a b g) _ (Extends a b g) (Extends a b ((n, ns) ∷ g))
        (append_edge-Extends a b g (ground arith))
        λ g' _ (same_keys, more). (
          ap (λ (l : List String). n ∷ l) same_keys,
          λ x.
              unfold neighbors lookup in ground (arith, more x, eq_iff n a, eq_iff n x, eq_iff a x),
        ))
]

HasEdge-Extends :
    (a b : String) (g g' : Graph)
    → Extends a b g g'
    → (x y : String) → HasEdge g' x y ↔ (HasEdge g x y ⊎ (a ≡ x) × (b ≡ y))
unfolding contains
HasEdge-Extends a b g g' (same, more) x y =
    rw (more x) (ground (arith, contains-append y (neighbors g x) (b ∷ []), eq_iff a x, eq_iff b y))

abbrev Holds : Graph → List AgentEdge → Graph → Type 0
Holds g es g' =
    (keys g' ≡ keys g) × ((x y : String) → HasEdge g' x y ↔ (HasEdge g x y ⊎ Connects es x y))

append_edges-Holds :
    (nodes : List AgentNode) (es : List AgentEdge) (g : Graph)
    → ((x : String) → contains x (keys g) ≡ contains x (node_ids nodes))
    → validate_edges nodes es ≡ true
    → Returns (append_edges es g) (Holds g es)
unfolding append_edges validate_edges
append_edges-Holds nodes [] g listed valid = (refl, λ x y. ground arith)
append_edges-Holds nodes (e ∷ es) g listed valid =
    Returns-bind (append_edge e.from_node e.to_node g) _ (Extends e.from_node e.to_node g)
      (Holds g (e ∷ es))
      (append_edge-Extends e.from_node e.to_node g (listed e.from_node ∙ ground arith))
      λ g' _ ext.
        Returns-weaken (append_edges es g') (Holds g' es) (Holds g (e ∷ es))
          (append_edges-Holds nodes es g' (λ x. ap (contains x) ext.0 ∙ listed x) (ground arith))
          λ g'' (same_keys, all). (
            same_keys ∙ ext.0,
            λ x y. ground (arith, all x y, HasEdge-Extends e.from_node e.to_node g g' ext x y),
          )

-- The adjacency list has a key for each node, each once, and an edge exactly where the topology has.
pub record IsAdjacency (t : TopologyConfig) (g : Graph) : Type 0 where
  pub distinct : IsDistinct (keys g)
  pub listed : (x : String) → contains x (keys g) ≡ contains x (node_ids t.nodes)
  pub edges : (x y : String) → HasEdge g x y ↔ Connects t.edges x y

pub build_adjacency-IsAdjacency :
    (t : TopologyConfig)
    → validate_edges t.nodes t.edges ≡ true
    → Returns (build_adjacency t) (IsAdjacency t)
unfolding build_adjacency contains keys neighbors lookup
build_adjacency-IsAdjacency t valid =
    let g = empty_adjacency t.nodes [] in
    let empty = empty_adjacency-Empty t.nodes [] tt in
    Returns-weaken (append_edges t.edges g) (Holds g t.edges) (IsAdjacency t)
      (append_edges-Holds t.nodes t.edges g empty.listed valid)
      λ g' (same_keys, all). record {
        distinct = rw same_keys empty.distinct;
        listed = λ x. ap (contains x) same_keys ∙ empty.listed x;
        edges = λ x y. ground (arith, all x y, ap (contains y) (empty.edges x));
      }
