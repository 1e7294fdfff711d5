-- ===== src/Samples/Plans.antt =====
-- The plan of a crew on the diamond of a, b, c and d.
use mathlib.Core.List.{Perm}
use delaxis.Prelude.{none, some, String, true, false, List, [], ◌∷◌, contains, lookup, ◌≡◌, refl}
use delaxis.Prelude.Outcome.{ret, Returns}
use delaxis.Topology.{AgentNode}
use delaxis.ExecutionEvents.{TaskOutput}
use delaxis.ExecutionEvents.Operations.{emitter, register_tasks, on_kickoff_start, set_key}
use delaxis.ExecutionEvents.Callbacks.{perform_all}
use delaxis.ExecutionEvents.Sequential.{milestones, Reports, report_all}
use delaxis.Crew.Order.{ordered_nodes}
use delaxis.Crew.Roles.{
  AgentConfig, never, sequential, resolve_process, first_given, is_hierarchical,
}
use delaxis.Crew.Inputs.{Built}
use delaxis.Crew.Tasks.{
  create_tasks, node_tasks, add_node_task, append_task, explicit_tasks, unless_built, is_last,
}
use delaxis.Crew.Context.{zip_tasks, upstream_task_pairs, keep_upstream, upstream_ids}
use delaxis.Crew.Streams.{IsStaffed, planned-IsTimeline}
use delaxis.ExecutionEvents.Streams.{IsTimeline}
use delaxis.Crew.Planning.{
  AgentArguments, CrewWorkflow, Request, CrewAgents, CrewPlan, planned, plan_crew, plan_nodes,
  plan_process, manager_if, check_crew, finish_plan, add_agents, add_agent, agent_arguments,
  is_manager, is_sequential, task_inputs,
}
use delaxis.Crew.Planned.{Sound, plan_crew-Sound}
use delaxis.Samples.Crews.{
  diamond, diamond_distinct, diamond_order, ordered_nodes-diamond, platform,
}

abbrev specialist : String → AgentConfig
specialist text = record {
  description = text;
  is_selector = false;
  human_input_mode = never;
  tools = [];
}

abbrev workflow : CrewWorkflow
workflow = record {
  topology = diamond;
  explicit_tasks = [];
  guardrails_enabled = true;
  guardrail_schema = "json";
  process = some "hierarchical";
  pattern = none;
  execution_strategy = none;
  knowledge_enabled = false;
}

abbrev request : Request
request = record {
  message = "hello";
  request_text = "hello";
  has_sink = true;
  agent_configs =
      (
        "planner",
        record { description = "plans"; is_selector = true; human_input_mode = never; tools = [] },
      )
      ∷ ("writer", specialist "writes")
      ∷ ("editor", specialist "edits")
      ∷ [];
  allow_human_input = false;
  default_process = "sequential";
}

abbrev agent_of : AgentArguments → String
agent_of arguments = arguments.config.description

plan_crew-Sound_example : Returns (plan_crew agent_of platform workflow request (λ s. s)) (λ result.
    (order : List AgentNode) × Perm order workflow.topology.nodes
    × Sound agent_of platform workflow request order result)
plan_crew-Sound_example =
    plan_crew-Sound agent_of platform workflow request (λ s. s) diamond_distinct

abbrev sequence : CrewWorkflow
sequence = record {
  topology = diamond;
  explicit_tasks = [];
  guardrails_enabled = true;
  guardrail_schema = "json";
  process = none;
  pattern = some "sequential";
  execution_strategy = none;
  knowledge_enabled = false;
}

abbrev crew : CrewAgents String
crew = record {
  agents = "plans" ∷ "writes" ∷ "edits" ∷ [];
  by_id = ("planner", "plans") ∷ ("writer", "writes") ∷ ("editor", "edits") ∷ [];
}

abbrev tasks : Built (List String)
tasks =
    create_tasks platform (task_inputs agent_of platform sequence request crew) none diamond_order

abbrev plan : CrewPlan String (List String)
plan = record {
  order = diamond_order;
  manager = none;
  manager_agent = none;
  crew = crew;
  built = tasks;
  events = register_tasks tasks.metas true (emitter true "hello");
}

process-sequence : resolve_process (λ s. s) none (some "sequential") none "sequential" ≡ sequential
unfolding resolve_process first_given is_hierarchical contains
process-sequence = refl

ordered_nodes-sequence : ordered_nodes sequence.topology ≡ ret diamond_order
ordered_nodes-sequence = ordered_nodes-diamond

plan_nodes-sequence :
    plan_nodes agent_of platform sequence request (λ s. s) diamond_order ≡ planned plan
unfolding plan_nodes plan_process manager_if check_crew finish_plan add_agents add_agent
    agent_arguments is_manager is_sequential set_key resolve_process first_given is_hierarchical
    contains lookup task_inputs
plan_nodes-sequence = refl

plan_crew-sequence : plan_crew agent_of platform sequence request (λ s. s) ≡ ret (planned plan)
unfolding plan_crew
plan_crew-sequence = rw (ordered_nodes-sequence, plan_nodes-sequence) refl

abbrev report : TaskOutput
report = record {
  name = some "a";
  raw = some "a plan";
  text = "";
  agent = none;
  expected_output = none;
  description = none;
}

Reports-sequence : Reports tasks.metas (report ∷ [])
unfolding create_tasks node_tasks add_node_task append_task explicit_tasks unless_built is_last
    zip_tasks upstream_task_pairs task_inputs keep_upstream upstream_ids lookup contains
Reports-sequence = (refl, tt)

planned-IsTimeline_example :
    IsStaffed agent_of platform sequence request refl refl diamond_distinct plan
    × IsTimeline [] plan.built.metas (report ∷ []) (
        milestones
          (perform_all (report_all ((7, report) ∷ [])) (on_kickoff_start 5 plan.events)).emitted)
planned-IsTimeline_example =
    planned-IsTimeline agent_of platform sequence request refl refl diamond_distinct (λ s. s)
      process-sequence plan plan_crew-sequence 5 ((7, report) ∷ []) Reports-sequence
