-- ===== src/Samples/Workflows.antt =====
-- WorkflowRegistry on two small workflows.
use delaxis.Prelude.{String, true, Option, none, some, List, [], ◌∷◌, ◌≡◌, ◌↔◌, refl, contains, add}
use delaxis.Samples.Nodes.{plain_node}
use delaxis.Topology.{TopologyConfig}
use delaxis.WorkflowConfig.{
  WorkflowConfig, sequential, circular_dependency, ◌then_check◌, is_single, is_selector,
  is_sequential, validate_pattern_config, agent_set, interactive_agents, get_all_agent_ids,
  get_workflow, workflow_ids,
}
use delaxis.WorkflowRegistry.{
  Registry, validate_workflow, check_agents, validate_agent_references, endpoint, edge_pair,
  has_pair, edge_pairs, check_pairs, check_circular_dependencies, loaded, add_workflow,
  update_workflow, remove_workflow,
}
use delaxis.WorkflowRegistry.Validity.{IsRunnable, validate_workflow-IsRunnable}
use delaxis.WorkflowRegistry.Operations.{
  Addition, add_workflow-Addition, Replacement, update_workflow-Replacement, Removal,
  remove_workflow-Removal, HasUniqueIds,
}

checks : Unit {0}
unfolding ◌then_check◌ is_single is_selector is_sequential validate_pattern_config agent_set
    interactive_agents get_all_agent_ids get_workflow contains add validate_workflow check_agents
    validate_agent_references endpoint edge_pair has_pair edge_pairs check_pairs
    check_circular_dependencies
checks = tt

abbrev pipeline : TopologyConfig
pipeline = record {
  type = delaxis.Topology.graph;
  nodes = plain_node "a" "planner" ∷ plain_node "b" "writer" ∷ [];
  edges =
      record { from_node = "a"; to_node = "b"; source = none; target = none }
      ∷ record { from_node = "b"; to_node = "a"; source = none; target = none }
      ∷ [];
  entry_node = "a";
  termination_conditions = 1;
}

abbrev report_workflow : WorkflowConfig
report_workflow = record {
  id = "report";
  name = "Report";
  pattern = sequential;
  topology = pipeline;
  enabled = true;
  interactive_config = none;
}

abbrev known_agents : Option (List String)
known_agents = some ("planner" ∷ "writer" ∷ [])

validate_workflow-report :
    validate_workflow known_agents report_workflow ≡ some (circular_dependency "report" "b" "a")
unfolding checks
validate_workflow-report = refl

validate_workflow-IsRunnable_example :
    (validate_workflow known_agents report_workflow ≡ none)
    ↔ IsRunnable known_agents report_workflow
validate_workflow-IsRunnable_example = validate_workflow-IsRunnable known_agents report_workflow

abbrev registry : Registry
registry = record { agents_config = known_agents; workflows_config = some (report_workflow ∷ []) }

add_workflow-Addition_example :
    Addition report_workflow registry (add_workflow report_workflow registry)
add_workflow-Addition_example = add_workflow-Addition report_workflow registry

update_workflow-Replacement_example :
    Replacement report_workflow registry (update_workflow report_workflow registry)
update_workflow-Replacement_example = update_workflow-Replacement report_workflow registry

registry-HasUniqueIds : HasUniqueIds registry
unfolding workflow_ids contains loaded
registry-HasUniqueIds = (refl, tt)

remove_workflow-Removal_example : Removal "report" registry (remove_workflow "report" registry)
remove_workflow-Removal_example = remove_workflow-Removal "report" registry registry-HasUniqueIds
