-- ===== src/Samples/Crews.antt =====
-- The runtime's plan on small topologies: `_ordered_nodes` and `_create_tasks`.
use delaxis.Prelude.{
  none, String, false, List, [], ◌∷◌, contains, add, lookup, map, ◌≡◌, refl, Distinct,
}
use delaxis.Prelude.Outcome.{ret, Returns}
use delaxis.Topology.{AgentNode, AgentEdge, TopologyConfig, graph, node_ids}
use delaxis.Samples.Nodes.{plain_node}
use delaxis.Crew.Order.{
  ordered_nodes, order_by, visit, visit_found, visit_targets, enter, unseen, find_node,
}
use delaxis.Crew.Visits.{IsOrder, ordered_nodes-IsOrder}
use delaxis.Crew.Inputs.{Platform, Inputs}
use delaxis.Crew.Tasks.{
  create_tasks, node_tasks, add_node_task, append_task, explicit_tasks, unless_built, is_last,
}
use delaxis.Crew.Context.{zip_tasks, upstream_task_pairs, keep_upstream, upstream_ids}
use delaxis.Crew.Plan.{Expected, create_tasks-Expected}

abbrev edge : String → String → AgentEdge
edge a b = record { from_node = a; to_node = b; source = none; target = none }

-- a leads to b and c, which both lead to d.
abbrev pub diamond : TopologyConfig
diamond = record {
  type = graph;
  nodes =
      plain_node "a" "planner"
      ∷ plain_node "b" "writer"
      ∷ plain_node "c" "critic"
      ∷ plain_node "d" "editor"
      ∷ [];
  edges = edge "a" "b" ∷ edge "a" "c" ∷ edge "b" "d" ∷ edge "c" "d" ∷ [];
  entry_node = "a";
  termination_conditions = 0;
}

pub diamond_distinct : Distinct (node_ids diamond.nodes)
unfolding contains
diamond_distinct = (refl, (refl, (refl, (refl, tt))))

-- d runs before c, which leads to it.
abbrev pub diamond_order : List AgentNode
diamond_order =
    plain_node "a" "planner"
    ∷ plain_node "b" "writer"
    ∷ plain_node "d" "editor"
    ∷ plain_node "c" "critic"
    ∷ []

pub ordered_nodes-diamond : ordered_nodes diamond ≡ ret diamond_order
unfolding ordered_nodes order_by visit visit_found visit_targets enter unseen find_node contains add
ordered_nodes-diamond = refl

ordered_nodes-IsOrder_example : Returns (ordered_nodes diamond) (IsOrder diamond diamond_distinct)
ordered_nodes-IsOrder_example = ordered_nodes-IsOrder diamond diamond_distinct

-- Tasks that are no more than the nodes of their context.
abbrev pub platform : Platform String (List String)
platform = record {
  task_cls = λ arguments. arguments.name ∷ [];
  role = λ agent. agent;
  goal = λ agent. agent;
  strip = λ s. s;
  rstrip = λ s. s;
  replace_request = λ s request. s;
  numbered = λ n. "task";
}

abbrev inputs : Inputs String
inputs = record {
  explicit_tasks = [];
  guardrails_enabled = false;
  guardrail_schema = "text";
  edges = diamond.edges;
  crew_agent_by_id = ("planner", "P") ∷ ("writer", "W") ∷ ("critic", "C") ∷ ("editor", "E") ∷ [];
  agent_configs = [];
  request_text = "hello";
  allow_human_input = false;
}

-- d gets the output of b, and not that of c, which has not run.
create_tasks-diamond :
    map (λ m. m.upstream_node_ids) (create_tasks platform inputs none diamond_order).metas
    ≡ [] ∷ ("a" ∷ []) ∷ ("b" ∷ []) ∷ ("a" ∷ []) ∷ []
unfolding create_tasks node_tasks add_node_task append_task explicit_tasks unless_built is_last
    zip_tasks upstream_task_pairs keep_upstream upstream_ids lookup contains
create_tasks-diamond = refl

create_tasks-Expected_example :
    Expected platform inputs none diamond_order (create_tasks platform inputs none diamond_order)
create_tasks-Expected_example = create_tasks-Expected platform inputs none diamond_order
