-- ===== src/Samples/Graphs.antt =====
-- The graph checks: `detect_cycles`, `validate_workflow`, `_get_reachable_nodes`, `_has_cycle` and
-- `validate_topology` on small graphs.
use delaxis.Prelude.{
  none, String, eq_iff, true, List, [], ◌∷◌, contains, add, remove, lookup, keys, ◌≡◌, ◌≢◌, ◌↔◌,
  refl, arith,
}
use delaxis.Prelude.Outcome.{ret, Returns}
use delaxis.Graph.{Graph, neighbors, IsCycle}
use delaxis.Cycles.{
  Connection, detect_cycles, search_from, dfs, visit_neighbors, enter, leave, report, index, pop,
  discard, add_edge, add_connections, node_names,
}
use delaxis.Cycles.Building.{Links}
use delaxis.Cycles.Report.{Findings, detect_cycles_lem}
use delaxis.Cycles.Spurious.{sequential, detect_cycles-spurious}
use delaxis.Validation.{Node, validate_workflow, connected_nodes, disconnected}
use delaxis.Validation.Verdict.{Judged, validate_workflow-IsWellFormed}
use delaxis.Validation.Warnings.{IsTouched, disconnected-IsTouched}
use delaxis.Reachability.{get_reachable_nodes}
use delaxis.Reachability.Search.{IsReachable, get_reachable_nodes-IsReachable}
use delaxis.CycleCheck.{has_cycle}
use delaxis.CycleCheck.Verdict.{Decides, has_cycle_lem}
use delaxis.Samples.Nodes.{plain_node}
use delaxis.Topology.{TopologyConfig, tree, validate_edges, validate_topology}
use delaxis.Topology.Verdict.{IsShaped, validate_topology-IsShaped}

search : Unit {0}
unfolding detect_cycles search_from dfs visit_neighbors enter leave report index pop discard
    add_edge add_connections node_names neighbors contains add remove lookup keys
search = tt

abbrev looped : List Connection
looped = sequential "a" "b" ∷ sequential "b" "c" ∷ sequential "c" "b" ∷ []

detect_cycles-looped : detect_cycles looped ≡ ret (("b" ∷ "c" ∷ "b" ∷ []) ∷ [])
unfolding search
detect_cycles-looped = refl

detect_cycles_lem_example : Returns (detect_cycles looped) (Findings looped)
detect_cycles_lem_example = detect_cycles_lem looped

a_ne_b : ◌≢◌ {A = String} "a" "b"
a_ne_b = ground (arith, eq_iff "a" "b")

detect_cycles-spurious_example :
    (detect_cycles (sequential "a" "a" ∷ sequential "b" "a" ∷ [])
      ≡ ret (("a" ∷ "a" ∷ []) ∷ ("a" ∷ "b" ∷ "a" ∷ []) ∷ []))
    × ¬ IsCycle (Links (sequential "a" "a" ∷ sequential "b" "a" ∷ [])) ("a" ∷ "b" ∷ "a" ∷ [])
detect_cycles-spurious_example = detect_cycles-spurious "a" "b" a_ne_b

abbrev canvas : List Node
canvas = record { id = "a"; agent_id = "planner" } ∷ record { id = "b"; agent_id = "writer" } ∷ []

validate_workflow-IsWellFormed_example :
    Returns
      (validate_workflow canvas looped ("planner" ∷ []))
      (Judged canvas looped ("planner" ∷ []))
validate_workflow-IsWellFormed_example =
    validate_workflow-IsWellFormed canvas looped ("planner" ∷ [])

disconnected-IsTouched_example :
    (contains "a" (disconnected canvas (connected_nodes looped)) ≡ true)
    ↔ ((contains "a" ("a" ∷ "b" ∷ []) ≡ true) × ¬ IsTouched looped "a")
disconnected-IsTouched_example = disconnected-IsTouched canvas looped "a"

abbrev adjacency : Graph
adjacency = ("a", "b" ∷ []) ∷ ("b", []) ∷ ("c", "a" ∷ []) ∷ []

get_reachable_nodes-IsReachable_example :
    Returns
      (get_reachable_nodes "a" adjacency)
      (λ reachable. (x : String) → (contains x reachable ≡ true) ↔ IsReachable adjacency "a" x)
get_reachable_nodes-IsReachable_example = get_reachable_nodes-IsReachable adjacency "a"

has_cycle_lem_example : Returns (has_cycle adjacency) (Decides adjacency)
has_cycle_lem_example = has_cycle_lem adjacency

abbrev topology : TopologyConfig
topology = record {
  type = tree;
  nodes = plain_node "a" "planner" ∷ plain_node "b" "writer" ∷ [];
  edges = record { from_node = "a"; to_node = "b"; source = none; target = none } ∷ [];
  entry_node = "a";
  termination_conditions = 0;
}

edges_valid : validate_edges topology.nodes topology.edges ≡ true
unfolding validate_edges contains
edges_valid = refl

validate_topology-IsShaped_example :
    Returns (validate_topology topology) (λ errors. (errors ≡ []) ↔ IsShaped tree topology)
validate_topology-IsShaped_example = validate_topology-IsShaped topology edges_valid
