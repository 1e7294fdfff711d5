-- ===== src/Crew/Order.antt =====
-- src/crewai_runtime/runtime.py: `_ordered_nodes`, the order in which the nodes of a topology run. The
-- depth of the recursion of `visit` is bounded by the number of nodes.
use delaxis.Prelude.{
  ℕ, zero, suc, String, ◌==◌, true, false, Option, none, some, List, [], ◌∷◌, ◌++◌, length,
  contains, add, if◌then◌else◌,
}
use delaxis.Prelude.Outcome.{Outcome, ret, out_of_fuel, ◌>>=◌}
use delaxis.Topology.{AgentNode, AgentEdge, TopologyConfig}

-- `nodes_by_id.get(id)`: of two nodes with one id the later stands in the dictionary.
unfoldable pub find_node : String → List AgentNode → Option AgentNode
find_node i [] = none
find_node i (n ∷ nodes) = elim (find_node i nodes) [
  | some m ↦ some m
  | none ↦ if n.id == i then some n else none
]

-- The set and the list that the closure `visit` shares with its calls.
pub record Visited : Type 0 where
  pub seen : List String
  pub ordered : List AgentNode

unfoldable pub enter : AgentNode → String → Visited → Visited
enter n i s = record { seen = add i s.seen; ordered = s.ordered ++ n ∷ [] }

-- The loop over all edges, given the recursive call.
unfoldable pub visit_targets :
    (String → Visited → Outcome Visited) → String → List AgentEdge → Visited → Outcome Visited
visit_targets visit i [] s = ret s
visit_targets visit i (e ∷ edges) s = elim (e.from_node == i) [
  | true ↦ do s' ← visit e.to_node s; visit_targets visit i edges s'
  | false ↦ visit_targets visit i edges s
]

unfoldable pub visit_found :
    (String → Visited → Outcome Visited)
    → String
    → List AgentEdge
    → Option AgentNode
    → Visited
    → Outcome Visited
visit_found visit i edges none s = ret s
visit_found visit i edges (some n) s = visit_targets visit i edges (enter n i s)

unfoldable pub visit : ℕ → TopologyConfig → String → Visited → Outcome Visited
visit zero t i s = out_of_fuel
visit (suc fuel) t i s = elim (contains i s.seen) [
  | true ↦ ret s
  | false ↦ visit_found (visit fuel t) i t.edges (find_node i t.nodes) s
]

-- The nodes whose id is not in the set.
unfoldable pub unseen : List String → List AgentNode → List AgentNode
unseen seen [] = []
unseen seen (n ∷ nodes) =
    let rest = unseen seen nodes in if contains n.id seen then rest else n ∷ rest

unfoldable pub entry_first : Option AgentNode → List AgentNode → List AgentNode
entry_first none rest = rest
entry_first (some n) rest = n ∷ rest

-- `if not topology.edges: … else: …`
unfoldable pub order_by : List AgentEdge → TopologyConfig → Outcome (List AgentNode)
order_by [] t =
    ret (entry_first (find_node t.entry_node t.nodes) (unseen (t.entry_node ∷ []) t.nodes))
order_by (e ∷ edges) t = do
  s ← visit (suc (length t.nodes)) t t.entry_node (record { seen = []; ordered = [] })
  ret (s.ordered ++ unseen s.seen t.nodes)

unfoldable pub ordered_nodes : TopologyConfig → Outcome (List AgentNode)
ordered_nodes t = order_by t.edges t
