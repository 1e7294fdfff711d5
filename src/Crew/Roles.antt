-- ===== src/Crew/Roles.antt =====
-- src/crewai_runtime/runtime.py: which nodes and agents play which part in a crew. Of an agent's
-- configuration (AgentConfig of src/config/agent_models.py) the fields that the crew reads are kept.
use delaxis.Prelude.{
  String, ◌==◌, Bool, false, ◌||◌, Option, none, some, List, [], ◌∷◌, ◌++◌, contains, add, lookup,
  if◌then◌else◌,
}
use delaxis.Topology.{AgentNode}

pub data HumanInputMode : Type 0 where
  always never terminate : HumanInputMode

pub record AgentConfig : Type 0 where
  pub description : String
  pub is_selector : Bool
  pub human_input_mode : HumanInputMode
  pub tools : List String

unfoldable pub human_input_enabled : Bool → HumanInputMode → Bool
human_input_enabled allowed always = allowed
human_input_enabled allowed never = false
human_input_enabled allowed terminate = false

-- `node.agent_id in agent_configs and is_selector(node)`, for the agent's configuration.
unfoldable pub is_selector : AgentNode → Option AgentConfig → Bool
is_selector n none = false
is_selector n (some c) = n.is_router || c.is_selector

unfoldable pub manager_node : List AgentNode → List (String × AgentConfig) → Option AgentNode
manager_node [] configs = none
manager_node (n ∷ nodes) configs =
    let rest = manager_node nodes configs in
    if is_selector n (lookup n.agent_id configs) then some n else rest

unfoldable pub append_new : List String → List String → List String
append_new [] bucket = bucket
append_new (tool ∷ tools) bucket =
    append_new tools (if contains tool bucket then bucket else bucket ++ tool ∷ [])

-- The loop over the tools of a node. The list of an agent is made with its first tool.
unfoldable pub add_tools :
    String → List String → List (String × List String) → List (String × List String)
add_tools agent [] extra = extra
add_tools agent (tool ∷ tools) [] = (agent, append_new (tool ∷ tools) []) ∷ []
add_tools agent (tool ∷ tools) ((a, bucket) ∷ extra) =
    let rest = add_tools agent (tool ∷ tools) extra in
    if a == agent then (a, append_new (tool ∷ tools) bucket) ∷ extra else (a, bucket) ∷ rest

pub record Attachments : Type 0 where
  pub extra_tools : List (String × List String)
  pub wants_memory : List String
  pub wants_knowledge : List String
  pub routers : List String

abbrev pub no_attachments : Attachments
no_attachments = record { extra_tools = []; wants_memory = []; wants_knowledge = []; routers = [] }

abbrev pub add_if : Bool → String → List String → List String
add_if b a s = if b then add a s else s

unfoldable pub attach_node : AgentNode → Attachments → Attachments
attach_node n a = record {
  extra_tools = add_tools n.agent_id n.tools a.extra_tools;
  wants_memory = add_if n.memory n.agent_id a.wants_memory;
  wants_knowledge = add_if n.knowledge n.agent_id a.wants_knowledge;
  routers = add_if n.is_router n.agent_id a.routers;
}

unfoldable pub attach_nodes : List AgentNode → Attachments → Attachments
attach_nodes [] a = a
attach_nodes (n ∷ nodes) a = attach_nodes nodes (attach_node n a)

unfoldable pub node_attachments : List AgentNode → Attachments
node_attachments nodes = attach_nodes nodes no_attachments

unfoldable pub config_tools : Option AgentConfig → List String
config_tools none = []
config_tools (some c) = c.tools

unfoldable pub collect_tools :
    List AgentNode → List (String × AgentConfig) → List String → List String
collect_tools [] configs tools = tools
collect_tools (n ∷ nodes) configs tools =
    collect_tools nodes configs (append_new (config_tools (lookup n.agent_id configs)) tools)

unfoldable pub workflow_tool_ids : List AgentNode → List (String × AgentConfig) → List String
workflow_tool_ids nodes configs = collect_tools nodes configs []

pub data Process : Type 0 where
  sequential hierarchical : Process

-- The lower-case name of a process or pattern; `process`, `pattern` and `strategy` are empty or
-- missing where the workflow does not say.
unfoldable pub is_hierarchical : String → Bool
is_hierarchical name = contains name ("hierarchical" ∷ "selector" ∷ "group_chat" ∷ [])

unfoldable pub first_given : List (Option String) → String → String
first_given [] default = default
first_given (none ∷ names) default = first_given names default
first_given (some name ∷ names) default =
    let rest = first_given names default in if name == "" then rest else name

unfoldable pub resolve_process :
    (String → String) → Option String → Option String → Option String → String → Process
resolve_process lower process pattern strategy default =
    if is_hierarchical (lower (first_given (process ∷ pattern ∷ strategy ∷ []) default))
    then hierarchical
    else sequential
