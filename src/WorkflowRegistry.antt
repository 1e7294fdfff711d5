-- ===== src/WorkflowRegistry.antt =====
-- src/config/workflow_registry.py: WorkflowRegistry. An operation takes the registry and returns it
-- with the answer; the configuration file, its loading and the singleton are left out.
pub mod Circular
pub mod Validity
pub mod Lookups
pub mod Operations
use delaxis.Prelude.{
  ℕ, zero, suc, String, ◌==◌, Bool, true, false, not, ◌&&◌, ◌||◌, Option, none, some, List, [], ◌∷◌,
  ◌++◌, contains, if◌then◌else◌,
}
use delaxis.Topology.{AgentEdge}
use delaxis.WorkflowConfig.{
  WorkflowConfig, WorkflowError, agent_not_found, self_loop, circular_dependency, already_exists,
  not_found, nothing_loaded, ◌then_check◌, raise_if, is_sequential, validate_pattern_config,
  get_all_agent_ids, get_workflow, get_enabled_workflows, validate_all,
}

pub record Registry : Type 0 where
  -- the ids that `agents_config` knows; none when it is not set
  pub agents_config : Option (List String)
  pub workflows_config : Option (List WorkflowConfig)

-- Each agent id is looked up; the set has no order, so which missing one is named is not fixed.
unfoldable pub check_agents : String → List String → List String → Option WorkflowError
check_agents i known [] = none
check_agents i known (a ∷ agents) =
    let rest = check_agents i known agents in
    if contains a known then rest else some (agent_not_found i a)

unfoldable pub validate_agent_references :
    Option (List String) → WorkflowConfig → Option WorkflowError
validate_agent_references none w = none
validate_agent_references (some known) w = check_agents w.id known (get_all_agent_ids w)

-- `getattr(edge, "source", None) or getattr(edge, "from_node", None)`
unfoldable pub endpoint : Option String → String → String
endpoint none node = node
endpoint (some s) node = if s == "" then node else s

unfoldable pub edge_pair : AgentEdge → String × String
edge_pair e = (endpoint e.source e.from_node, endpoint e.target e.to_node)

unfoldable pub has_pair : String → String → List (String × String) → Bool
has_pair a b [] = false
has_pair a b ((x, y) ∷ pairs) = ((x == a) && (y == b)) || has_pair a b pairs

unfoldable pub edge_pairs : List AgentEdge → List (String × String)
edge_pairs [] = []
edge_pairs (e ∷ es) = edge_pair e ∷ edge_pairs es

-- The loop over the edges; `seen` is the set `edge_pairs` of the source.
unfoldable pub check_pairs :
    String → List (String × String) → List (String × String) → Option WorkflowError
check_pairs i seen [] = none
check_pairs i seen ((source, target) ∷ pairs) =
    let rest = check_pairs i ((source, target) ∷ seen) pairs in
    if source == target
    then some (self_loop i source)
    else (if has_pair target source seen then some (circular_dependency i source target) else rest)

unfoldable pub check_circular_dependencies : WorkflowConfig → Option WorkflowError
check_circular_dependencies w =
    if is_sequential w.pattern then check_pairs w.id [] (edge_pairs w.topology.edges) else none

unfoldable pub validate_workflow : Option (List String) → WorkflowConfig → Option WorkflowError
validate_workflow agents w =
    validate_pattern_config w
    then_check validate_agent_references agents w
    then_check check_circular_dependencies w

unfoldable pub loaded : Option (List WorkflowConfig) → List WorkflowConfig
loaded none = []
loaded (some ws) = ws

unfoldable pub validate_each : Option (List String) → List WorkflowConfig → Option WorkflowError
validate_each agents [] = none
validate_each agents (w ∷ ws) = validate_workflow agents w then_check validate_each agents ws

unfoldable pub validate_loaded :
    Option (List String) → Option (List WorkflowConfig) → Option WorkflowError
validate_loaded agents none = none
validate_loaded agents (some ws) = validate_all ws then_check validate_each agents ws

-- WorkflowRegistry.validate_all; without check_agent_references the agents count as not set.
unfoldable pub validate_registry : Bool → Registry → Option WorkflowError
validate_registry check_agent_references r =
    validate_loaded (if check_agent_references then r.agents_config else none) r.workflows_config

-- WorkflowRegistry.list_workflows
unfoldable pub list_workflows : Bool → Registry → List WorkflowConfig
list_workflows enabled_only r =
    if enabled_only
    then get_enabled_workflows (loaded r.workflows_config)
    else loaded r.workflows_config

-- WorkflowRegistry.get_workflow
unfoldable pub find_workflow : String → Registry → Option WorkflowConfig
find_workflow i r = get_workflow i (loaded r.workflows_config)

unfoldable pub set_agents_config : List String → Registry → Registry
set_agents_config agents r = record r { agents_config = some agents }

unfoldable pub check_absent : String → Option WorkflowConfig → Option WorkflowError
check_absent i none = none
check_absent i (some w) = some (already_exists i)

unfoldable pub finish_add :
    WorkflowConfig
    → Registry
    → List WorkflowConfig
    → Option WorkflowError
    → Registry × Option WorkflowError
finish_add w r ws none = (record r { workflows_config = some (ws ++ w ∷ []) }, none)
finish_add w r ws (some e) = (record r { workflows_config = some ws }, some e)

unfoldable pub add_workflow : WorkflowConfig → Registry → Registry × Option WorkflowError
add_workflow w r =
    let ws = loaded r.workflows_config in
    finish_add w r ws
      (check_absent w.id (get_workflow w.id ws) then_check validate_workflow r.agents_config w)

-- `workflows[existing_idx] = workflow`, at the first workflow of the id.
unfoldable pub replace : WorkflowConfig → List WorkflowConfig → List WorkflowConfig
replace w [] = []
replace w (v ∷ ws) = let rest = replace w ws in if v.id == w.id then w ∷ ws else v ∷ rest

unfoldable pub check_present : String → Option WorkflowConfig → Option WorkflowError
check_present i none = some (not_found i)
check_present i (some w) = none

unfoldable pub finish_update :
    WorkflowConfig
    → Registry
    → List WorkflowConfig
    → Option WorkflowError
    → Registry × Option WorkflowError
finish_update w r ws none = (record r { workflows_config = some (replace w ws) }, none)
finish_update w r ws (some e) = (r, some e)

unfoldable pub update_loaded :
    WorkflowConfig → Registry → Option (List WorkflowConfig) → Registry × Option WorkflowError
update_loaded w r none = (r, some nothing_loaded)
update_loaded w r (some ws) =
    finish_update w r ws
      (check_present w.id (get_workflow w.id ws) then_check validate_workflow r.agents_config w)

unfoldable pub update_workflow : WorkflowConfig → Registry → Registry × Option WorkflowError
update_workflow w r = update_loaded w r r.workflows_config

-- The list without the first workflow of the id, and whether there is one.
unfoldable pub remove_first : String → List WorkflowConfig → List WorkflowConfig × Bool
remove_first i [] = ([], false)
remove_first i (w ∷ ws) =
    let rest = remove_first i ws in if w.id == i then (ws, true) else (w ∷ rest.0, rest.1)

unfoldable pub remove_loaded : String → Registry → Option (List WorkflowConfig) → Registry × Bool
remove_loaded i r none = (r, false)
remove_loaded i r (some ws) =
    let rest = remove_first i ws in (record r { workflows_config = some rest.0 }, rest.1)

unfoldable pub remove_workflow : String → Registry → Registry × Bool
remove_workflow i r = remove_loaded i r r.workflows_config
