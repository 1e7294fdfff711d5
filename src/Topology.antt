-- ===== src/Topology.antt =====
-- src/config/topology_models.py: `TopologyConfig` with its field validators and `validate_topology`.
--
-- `_get_reachable_nodes` and `_has_cycle` are in Reachability.antt and CycleCheck.antt. The optional fields of nodes and edges that nothing modelled reads are left out.
pub mod Adjacency
pub mod Parents
pub mod Verdict
use delaxis.Prelude.{
  Option, ℕ, ◌+◌, String, ◌==◌, Bool, true, not, ◌&&◌, List, [], ◌∷◌, ◌++◌, length, contains, map,
  keys, if◌then◌else◌, nat_eq, ltb,
}
use delaxis.Prelude.Outcome.{Outcome, ret, raise, key_error, ◌>>=◌}
use delaxis.Graph.{Graph}
use delaxis.Reachability.{get_reachable_nodes}
use delaxis.CycleCheck.{has_cycle}

pub data TopologyType : Type 0 where
  single sequential tree graph : TopologyType

pub record AgentNode : Type 0 where
  pub id : String
  pub agent_id : String
  pub is_router : Bool
  pub tools : List String
  -- whether the node attaches memory, and knowledge
  pub memory : Bool
  pub knowledge : Bool
  pub config_override : List (String × String)

pub record AgentEdge : Type 0 where
  pub from_node : String
  pub to_node : String
  -- the extra fields of an edge drawn on the canvas
  pub source : Option String
  pub target : Option String

pub record TopologyConfig : Type 0 where
  pub type : TopologyType
  pub nodes : List AgentNode
  pub edges : List AgentEdge
  pub entry_node : String
  -- how many termination conditions there are
  pub termination_conditions : ℕ

abbrev pub node_ids : List AgentNode → List String
node_ids nodes = map (λ n. n.id) nodes

-- The field validators: what a `TopologyConfig` that was constructed satisfies.
unfoldable pub validate_entry_node : List AgentNode → String → Bool
validate_entry_node nodes entry = contains entry (node_ids nodes)

unfoldable pub validate_edges : List AgentNode → List AgentEdge → Bool
validate_edges nodes [] = true
validate_edges nodes (e ∷ es) =
    contains e.from_node (node_ids nodes)
    && contains e.to_node (node_ids nodes)
    && validate_edges nodes es

-- `{node.id: [] for node in self.nodes}`: a repeated id is one key.
unfoldable pub empty_adjacency : List AgentNode → Graph → Graph
empty_adjacency [] g = g
empty_adjacency (n ∷ nodes) g =
    empty_adjacency nodes (if contains n.id (keys g) then g else g ++ (n.id, []) ∷ [])

-- `adjacency[edge.from_node].append(edge.to_node)`
unfoldable pub append_edge : String → String → Graph → Outcome Graph
append_edge a b [] = raise key_error
append_edge a b ((n, ns) ∷ g) =
    let rest = append_edge a b g in
    if n == a then ret ((n, ns ++ b ∷ []) ∷ g) else do g' ← rest; ret ((n, ns) ∷ g')

unfoldable pub append_edges : List AgentEdge → Graph → Outcome Graph
append_edges [] g = ret g
append_edges (e ∷ es) g = do g' ← append_edge e.from_node e.to_node g; append_edges es g'

unfoldable pub build_adjacency : TopologyConfig → Outcome Graph
build_adjacency t = append_edges t.edges (empty_adjacency t.nodes [])

pub data TopologyError : Type 0 where
  unreachable_nodes : List String → TopologyError
  single_nodes : ℕ → TopologyError
  single_edges : ℕ → TopologyError
  sequential_edges : ℕ → ℕ → TopologyError
  sequential_cycle : TopologyError
  tree_cycle : TopologyError
  tree_parents : String → ℕ → TopologyError
  graph_termination : TopologyError

-- `set(adjacency.keys()) - reachable`, in the order of the keys.
unfoldable pub unreachable : List String → List String → List String
unreachable [] reachable = []
unreachable (n ∷ ns) reachable =
    let rest = unreachable ns reachable in if contains n reachable then rest else n ∷ rest

unfoldable pub unreachable_errors : List String → List TopologyError
unreachable_errors [] = []
unreachable_errors (n ∷ ns) = unreachable_nodes (n ∷ ns) ∷ []

-- The check for unreachable nodes, except for a single node topology.
unfoldable pub reachability_errors :
    TopologyType → TopologyConfig → Graph → Outcome (List TopologyError)
reachability_errors single t g = ret []
reachability_errors _ t g = do
  reachable ← get_reachable_nodes t.entry_node g
  ret (unreachable_errors (unreachable (keys g) reachable))

-- `in_degree[n] += 1`
unfoldable pub bump : String → List (String × ℕ) → Outcome (List (String × ℕ))
bump n [] = raise key_error
bump n ((k, d) ∷ degrees) =
    let rest = bump n degrees in
    if k == n then ret ((k, d + 1) ∷ degrees) else do degrees' ← rest; ret ((k, d) ∷ degrees')

unfoldable pub count_parents : List AgentEdge → List (String × ℕ) → Outcome (List (String × ℕ))
count_parents [] degrees = ret degrees
count_parents (e ∷ es) degrees = do degrees' ← bump e.to_node degrees; count_parents es degrees'

-- The loop over `in_degree.items()`.
unfoldable pub parent_errors : String → List (String × ℕ) → List TopologyError
parent_errors entry [] = []
parent_errors entry ((n, degree) ∷ degrees) =
    let rest = parent_errors entry degrees in
    if not (n == entry) && not (nat_eq degree 1) then tree_parents n degree ∷ rest else rest

abbrev pub when : Bool → TopologyError → List TopologyError
when b e = if b then e ∷ [] else []

-- The constraints of each type.
unfoldable pub type_errors : TopologyType → TopologyConfig → Graph → Outcome (List TopologyError)
type_errors single t g = ret (
    when (not (nat_eq (length t.nodes) 1)) (single_nodes (length t.nodes))
    ++ when (ltb 0 (length t.edges)) (single_edges (length t.edges)))
type_errors sequential t g = do
  cyclic ← has_cycle g
  ret (
      when (not (nat_eq (length t.edges + 1) (length t.nodes)))
        (sequential_edges (length t.edges) (length t.nodes))
      ++ when cyclic sequential_cycle)
type_errors tree t g = do
  cyclic ← has_cycle g
  degrees ← count_parents t.edges (map (λ n. (n, 0)) (keys g))
  ret (when cyclic tree_cycle ++ parent_errors t.entry_node degrees)
type_errors graph t g = do
  cyclic ← has_cycle g
  ret (when (cyclic && nat_eq t.termination_conditions 0) graph_termination)

unfoldable pub validate_topology : TopologyConfig → Outcome (List TopologyError)
validate_topology t = do
  adjacency ← build_adjacency t
  errors ← reachability_errors t.type t adjacency
  more ← type_errors t.type t adjacency
  ret (errors ++ more)
