-- ===== src/Crew/Planning.antt =====
-- src/crewai_runtime/runtime.py: `_run_message_inner` up to the crew: the order of the nodes, the
-- agents, the checks, the tasks, and the emitter that will follow them. How an agent is made is a
-- parameter. Knowledge sources are left out of the crew itself.
use delaxis.Prelude.{
  String, ◌==◌, Bool, true, false, ◌&&◌, ◌||◌, Option, none, some, List, [], ◌∷◌, ◌++◌, contains,
  lookup, if◌then◌else◌,
}
use delaxis.Prelude.Outcome.{Outcome, ret, ◌>>=◌}
use delaxis.Topology.{AgentNode, TopologyConfig}
use delaxis.ExecutionEvents.{Emitter}
use delaxis.ExecutionEvents.Operations.{emitter, register_tasks, set_key}
use delaxis.ExecutionEvents.Steps.{set_default}
use delaxis.Crew.Order.{ordered_nodes}
use delaxis.Crew.Roles.{
  AgentConfig, node_attachments, manager_node, Process, hierarchical, sequential, resolve_process,
  config_tools,
}
use delaxis.Crew.Inputs.{TaskConfig, Platform, Inputs, Built}
use delaxis.Crew.Tasks.{create_tasks}

-- The arguments of `_create_agent` that differ between agents: whether memory, the attached knowledge and the
-- tools for it are given, and what the callback of its steps announces.
pub record AgentArguments : Type 0 where
  pub config : AgentConfig
  pub extra_tool_ids : List String
  pub memory : Bool
  pub knowledge_sources : Bool
  pub knowledge_tools : Bool
  pub delegates : Bool
  pub node_id : Option String
  pub delegated_from : Option String

-- The workflow, as far as a crew reads it.
pub record CrewWorkflow : Type 0 where
  pub topology : TopologyConfig
  pub explicit_tasks : List TaskConfig
  pub guardrails_enabled : Bool
  pub guardrail_schema : String
  pub process : Option String
  pub pattern : Option String
  pub execution_strategy : Option String
  pub knowledge_enabled : Bool

-- A message, its text with the history, and what the server is set to.
pub record Request : Type 0 where
  pub message : String
  pub request_text : String
  pub has_sink : Bool
  pub agent_configs : List (String × AgentConfig)
  pub allow_human_input : Bool
  pub default_process : String

pub data PlanError : Type 0 where
  no_agents : PlanError
  no_specialists : String → PlanError
  no_valid_agents : PlanError
  manager_tools : String → List String → PlanError
  -- the KeyError of agent_configs[agent_id]
  no_config : String → PlanError

-- `crew_agents` and `crew_agent_by_id`.
pub record CrewAgents (Agent : Type 0) : Type 0 where
  pub agents : List Agent
  pub by_id : List (String × Agent)

pub record CrewPlan (Agent Task : Type 0) : Type 0 where
  pub order : List AgentNode
  pub manager : Option AgentNode
  pub manager_agent : Option Agent
  pub crew : CrewAgents Agent
  pub built : Built Task
  pub events : Emitter

pub data PlanResult (Agent Task : Type 0) : Type 0 where
  refused : PlanError → PlanResult Agent Task
  planned : CrewPlan Agent Task → PlanResult Agent Task

unfoldable pub nodes_for_agents : List AgentNode → List (String × String) → List (String × String)
nodes_for_agents [] found = found
nodes_for_agents (n ∷ nodes) found = nodes_for_agents nodes (set_default n.agent_id n.id found)

unfoldable pub is_manager : Option AgentNode → String → Bool
is_manager none agent_id = false
is_manager (some m) agent_id = agent_id == m.agent_id

-- `manager_node.id if manager_node is not None and agent_id != manager_agent_id else None`
unfoldable pub delegated_from : Option AgentNode → String → Option String
delegated_from none agent_id = none
delegated_from (some m) agent_id = if agent_id == m.agent_id then none else some m.id

unfoldable pub tools_of : String → List (String × List String) → List String
tools_of agent_id extra = elim (lookup agent_id extra) [ none ↦ [] | some tools ↦ tools ]

unfoldable pub is_empty : List String → Bool
is_empty [] = true
is_empty (x ∷ xs) = false

unfoldable pub manager_if :
    Process → List AgentNode → List (String × AgentConfig) → Option AgentNode
manager_if hierarchical nodes configs = manager_node nodes configs
manager_if sequential nodes configs = none

unfoldable pub is_sequential : Process → Bool
is_sequential sequential = true
is_sequential hierarchical = false

module _ {Agent Task : Type 0} (create_agent : AgentArguments → Agent) (p : Platform Agent Task)
    (w : CrewWorkflow) (r : Request) where
  unfoldable pub agent_arguments :
      List AgentNode → Option AgentNode → String → AgentConfig → AgentArguments
  agent_arguments order manager agent_id config =
      let a = node_attachments order in
      let knows = contains agent_id a.wants_knowledge in
      record {
        config = config;
        extra_tool_ids = tools_of agent_id a.extra_tools;
        memory = contains agent_id a.wants_memory;
        knowledge_sources = knows;
        knowledge_tools = (is_empty a.wants_knowledge && w.knowledge_enabled) || knows;
        delegates = contains agent_id a.routers;
        node_id = lookup agent_id (nodes_for_agents order []);
        delegated_from = delegated_from manager agent_id;
      }

  -- The manager gets neither tools nor knowledge.
  unfoldable pub manager_arguments : List AgentNode → AgentNode → AgentConfig → AgentArguments
  manager_arguments order m config = record {
    config = config;
    extra_tool_ids = [];
    memory = contains m.agent_id (node_attachments order).wants_memory;
    knowledge_sources = false;
    knowledge_tools = false;
    delegates = true;
    node_id = lookup m.agent_id (nodes_for_agents order []);
    delegated_from = delegated_from (some m) m.agent_id;
  }

  -- The agent of an id, unless it is the manager or has no configuration.
  unfoldable pub add_agent :
      List AgentNode
      → Option AgentNode
      → String
      → Bool
      → Option AgentConfig
      → CrewAgents Agent
      → CrewAgents Agent
  add_agent order manager agent_id true config crew = crew
  add_agent order manager agent_id false none crew = crew
  add_agent order manager agent_id false (some config) crew =
      let agent = create_agent (agent_arguments order manager agent_id config) in
      record { agents = crew.agents ++ agent ∷ []; by_id = set_key agent_id agent crew.by_id }

  -- The loop over `workflow_agent_ids`.
  unfoldable pub add_agents :
      List AgentNode → Option AgentNode → List AgentNode → CrewAgents Agent → CrewAgents Agent
  add_agents order manager [] crew = crew
  add_agents order manager (n ∷ nodes) crew = add_agents order manager nodes (
      add_agent order manager n.agent_id (is_manager manager n.agent_id)
        (lookup n.agent_id r.agent_configs) crew)

  unfoldable pub task_inputs : CrewAgents Agent → Inputs Agent
  task_inputs crew = record {
    explicit_tasks = w.explicit_tasks;
    guardrails_enabled = w.guardrails_enabled;
    guardrail_schema = w.guardrail_schema;
    edges = w.topology.edges;
    crew_agent_by_id = crew.by_id;
    agent_configs = r.agent_configs;
    request_text = r.request_text;
    allow_human_input = r.allow_human_input;
  }

  unfoldable pub finish_plan :
      Process
      → List AgentNode
      → Option AgentNode
      → Option Agent
      → CrewAgents Agent
      → PlanResult Agent Task
  finish_plan process order manager manager_agent crew =
      let built = create_tasks p (task_inputs crew) manager order in
      planned (record {
        order = order;
        manager = manager;
        manager_agent = manager_agent;
        crew = crew;
        built = built;
        events = register_tasks built.metas (is_sequential process) (emitter r.has_sink r.message);
      })

  -- The tools that the manager's agent has or is given.
  unfoldable pub manager_tool_ids : List AgentNode → AgentNode → List String
  manager_tool_ids order m =
      config_tools (lookup m.agent_id r.agent_configs)
      ++ tools_of m.agent_id (node_attachments order).extra_tools

  unfoldable pub check_manager :
      List String
      → Process
      → List AgentNode
      → AgentNode
      → Option AgentConfig
      → CrewAgents Agent
      → PlanResult Agent Task
  check_manager tools process order m none crew = refused (no_config m.agent_id)
  check_manager (tool ∷ tools) process order m (some config) crew =
      refused (manager_tools m.agent_id (tool ∷ tools))
  check_manager [] process order m (some config) crew =
      finish_plan process order (some m) (some (create_agent (manager_arguments order m config)))
        crew

  unfoldable pub check_crew :
      List Agent
      → Process
      → List AgentNode
      → Option AgentNode
      → CrewAgents Agent
      → PlanResult Agent Task
  check_crew [] process order none crew = refused no_valid_agents
  check_crew [] process order (some m) crew = refused (no_specialists m.agent_id)
  check_crew (agent ∷ agents) process order none crew = finish_plan process order none none crew
  check_crew (agent ∷ agents) process order (some m) crew =
      check_manager (manager_tool_ids order m) process order m (lookup m.agent_id r.agent_configs)
        crew

  unfoldable pub plan_process : Process → List AgentNode → PlanResult Agent Task
  plan_process process order =
      let manager = manager_if process order r.agent_configs in
      let crew = add_agents order manager order (record { agents = []; by_id = [] }) in
      check_crew crew.agents process order manager crew

  unfoldable pub plan_nodes : (String → String) → List AgentNode → PlanResult Agent Task
  plan_nodes lower [] = refused no_agents
  plan_nodes lower (n ∷ nodes) =
      plan_process
        (resolve_process lower w.process w.pattern w.execution_strategy r.default_process)
        (n ∷ nodes)

  unfoldable pub plan_crew : (String → String) → Outcome (PlanResult Agent Task)
  plan_crew lower = do order ← ordered_nodes w.topology; ret (plan_nodes lower order)
