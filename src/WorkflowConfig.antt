-- ===== src/WorkflowConfig.antt =====
-- src/config/workflow_models.py: WorkflowConfig and WorkflowsConfig, with the checks that the
-- registry calls. A check is the exception that it raises, if any; the exceptions keep the parts of
-- their texts. Of a workflow the fields that no check reads are left out, but for its name.
pub mod Pattern
use delaxis.Prelude.{
  ℕ, String, ◌==◌, Bool, true, false, not, ◌&&◌, Option, none, some, List, [], ◌∷◌, ◌++◌, length,
  contains, add, map, nat_eq, ltb, if◌then◌else◌,
}
use delaxis.Topology.{TopologyConfig, node_ids, AgentNode}

pub data ConversationPattern : Type 0 where
  single two_agent sequential parallel group_chat nested selector interactive : ConversationPattern

pub record InteractiveConfig : Type 0 where
  pub enabled : Bool
  pub available_agents : List String
  pub default_agent : String

pub record WorkflowConfig : Type 0 where
  pub id : String
  pub name : String
  pub pattern : ConversationPattern
  pub topology : TopologyConfig
  pub enabled : Bool
  pub interactive_config : Option InteractiveConfig

pub data WorkflowError : Type 0 where
  no_nodes : String → WorkflowError
  single_nodes selector_nodes : String → ℕ → WorkflowError
  unknown_entry : String → String → WorkflowError
  default_agent_missing : WorkflowError
  duplicate_ids : List String → WorkflowError
  agent_not_found : String → String → WorkflowError
  self_loop : String → String → WorkflowError
  circular_dependency : String → String → String → WorkflowError
  already_exists not_found : String → WorkflowError
  nothing_loaded : WorkflowError

-- The first exception of two checks in a row.
infixr 4 ◌then_check◌
unfoldable pub ◌then_check◌ : Option WorkflowError → Option WorkflowError → Option WorkflowError
none then_check second = second
some e then_check second = some e

abbrev pub raise_if : Bool → WorkflowError → Option WorkflowError
raise_if b e = if b then some e else none

unfoldable pub is_single : ConversationPattern → Bool
is_single single = true
is_single _ = false

unfoldable pub is_selector : ConversationPattern → Bool
is_selector selector = true
is_selector _ = false

unfoldable pub is_sequential : ConversationPattern → Bool
is_sequential sequential = true
is_sequential _ = false

unfoldable pub validate_pattern_config : WorkflowConfig → Option WorkflowError
validate_pattern_config w =
    let node_count = length w.topology.nodes in
    raise_if (nat_eq node_count 0) (no_nodes w.id)
    then_check raise_if (is_single w.pattern && not (nat_eq node_count 1))
        (single_nodes w.id node_count)
    then_check raise_if (is_selector w.pattern && ltb node_count 2) (selector_nodes w.id node_count)
    then_check raise_if
        (not (w.topology.entry_node == "")
          && not (contains w.topology.entry_node (node_ids w.topology.nodes)))
        (unknown_entry w.id w.topology.entry_node)

unfoldable pub agent_set : List AgentNode → List String
agent_set [] = []
agent_set (n ∷ nodes) = add n.agent_id (agent_set nodes)

unfoldable pub add_all : List String → List String → List String
add_all [] s = s
add_all (x ∷ xs) s = add x (add_all xs s)

unfoldable pub interactive_agents : Option InteractiveConfig → List String → List String
interactive_agents none s = s
interactive_agents (some c) s =
    if c.enabled then add c.default_agent (add_all c.available_agents s) else s

unfoldable pub get_all_agent_ids : WorkflowConfig → List String
get_all_agent_ids w = interactive_agents w.interactive_config (agent_set w.topology.nodes)

unfoldable pub check_default_agent :
    List AgentNode → Option InteractiveConfig → Option WorkflowError
check_default_agent nodes none = none
check_default_agent nodes (some c) =
    raise_if (not (contains c.default_agent (agent_set nodes))) default_agent_missing

unfoldable pub validate_interactive_agents_exist : WorkflowConfig → Option WorkflowError
validate_interactive_agents_exist w = check_default_agent w.topology.nodes w.interactive_config

-- WorkflowsConfig.get_workflow
unfoldable pub get_workflow : String → List WorkflowConfig → Option WorkflowConfig
get_workflow i [] = none
get_workflow i (w ∷ ws) = if w.id == i then some w else get_workflow i ws

unfoldable pub get_enabled_workflows : List WorkflowConfig → List WorkflowConfig
get_enabled_workflows [] = []
get_enabled_workflows (w ∷ ws) =
    let rest = get_enabled_workflows ws in if w.enabled then w ∷ rest else rest

unfoldable pub workflow_ids : List WorkflowConfig → List String
workflow_ids [] = []
workflow_ids (w ∷ ws) = w.id ∷ workflow_ids ws

-- `set(duplicates)`: the ids that a later workflow repeats.
unfoldable pub duplicates : List String → List String
duplicates [] = []
duplicates (x ∷ xs) = let rest = duplicates xs in if contains x xs then add x rest else rest

unfoldable pub check_duplicates : List String → Option WorkflowError
check_duplicates [] = none
check_duplicates (x ∷ xs) = some (duplicate_ids (x ∷ xs))

unfoldable pub check_nodes : List WorkflowConfig → Option WorkflowError
check_nodes [] = none
check_nodes (w ∷ ws) =
    raise_if (nat_eq (length w.topology.nodes) 0) (no_nodes w.id) then_check check_nodes ws

-- WorkflowsConfig.validate_all
unfoldable pub validate_all : List WorkflowConfig → Option WorkflowError
validate_all ws = check_duplicates (duplicates (workflow_ids ws)) then_check check_nodes ws
