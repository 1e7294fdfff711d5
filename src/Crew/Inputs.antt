-- ===== src/Crew/Inputs.antt =====
-- src/crewai_runtime/runtime.py: what `_create_tasks` is given and what it returns. The classes of
-- CrewAI are parameters: an agent, a task, and the task made of its arguments. A list of tasks that
-- is not given as context is the empty list.
use delaxis.Prelude.{ℕ, String, Bool, Option, List}
use delaxis.Topology.{AgentEdge}
use delaxis.ExecutionEvents.{TaskMeta}
use delaxis.Crew.Roles.{AgentConfig}

-- CrewAITaskConfig of src/config/workflow_models.py.
pub record TaskConfig : Type 0 where
  pub id : String
  pub node_id : Option String
  pub agent_id : String
  pub description : String
  pub expected_output : String

pub record TaskArguments (Agent Task : Type 0) : Type 0 where
  pub name : String
  pub description : String
  pub expected_output : String
  pub agent : Option Agent
  pub context : List Task
  pub human_input : Bool
  -- the schema of the guardrail of the output
  pub guardrail : Option String

-- CrewAI, and the operations on texts: `strip`, `rstrip` of colons and blanks, the text in which the
-- placeholder is replaced by the request, and the name of the task of that number.
pub record Platform (Agent Task : Type 0) : Type 0 where
  pub task_cls : TaskArguments Agent Task → Task
  pub role : Agent → String
  pub goal : Agent → String
  pub strip : String → String
  pub rstrip : String → String
  pub replace_request : String → String → String
  pub numbered : ℕ → String

-- What `_create_tasks` reads of its arguments and of the environment.
pub record Inputs (Agent : Type 0) : Type 0 where
  pub explicit_tasks : List TaskConfig
  pub guardrails_enabled : Bool
  pub guardrail_schema : String
  pub edges : List AgentEdge
  pub crew_agent_by_id : List (String × Agent)
  pub agent_configs : List (String × AgentConfig)
  pub request_text : String
  pub allow_human_input : Bool

-- What `_create_tasks` returns, and what its loops have built so far.
pub record Built (Task : Type 0) : Type 0 where
  pub tasks : List Task
  pub metas : List TaskMeta
