-- ===== src/Crew/Tasks.antt =====
-- src/crewai_runtime/runtime.py: `_create_tasks`, the tasks of a crew and what is kept of each.
use delaxis.Prelude.{
  ℕ, suc, String, ◌==◌, Bool, true, false, ◌&&◌, ◌||◌, Option, none, some, List, [], ◌∷◌, ◌++◌,
  length, lookup, map, if◌then◌else◌,
}
use delaxis.Topology.{AgentNode}
use delaxis.Crew.Roles.{AgentConfig, human_input_enabled}
use delaxis.Crew.Text.{join_text, concat_text, text_or}
use delaxis.Crew.Inputs.{TaskConfig, Platform, Inputs, Built}
use delaxis.Crew.Context.{pairs_of, tasks_of, ids_of, upstream_task_pairs}

abbrev request_placeholder : String
request_placeholder = "{request}"

abbrev reply_form : String
reply_form =
    "Your output is the reply the user reads. Answer what they asked, in the form and at the length they asked for. Do not describe this workflow."

-- `index == len(items) - 1`, for the items after that index.
unfoldable pub is_last : {A : Type 0} → List A → Bool
is_last [] = true
is_last (x ∷ xs) = false

-- `optional == x`
unfoldable pub names : String → Option String → Bool
names x none = false
names x (some y) = y == x

module _ {Agent Task : Type 0} (p : Platform Agent Task) (w : Inputs Agent) where
  unfoldable pub task_description : Option String → Bool → String
  task_description description final = join_text "\n\n" (
      p.strip (text_or description "Respond to the user's request.")
        ∷ (if final then reply_form ∷ [] else [])
      ++ request_placeholder ∷ [])

  unfoldable pub asks_human : Option AgentConfig → Bool
  asks_human none = false
  asks_human (some c) = human_input_enabled w.allow_human_input c.human_input_mode

  -- The config of the agent, if the task has one.
  unfoldable pub config_of : Option String → Option AgentConfig
  config_of none = none
  config_of (some agent_id) = if agent_id == "" then none else lookup agent_id w.agent_configs

  unfoldable pub guardrail_of : Bool → Option String
  guardrail_of final = if final && w.guardrails_enabled then some w.guardrail_schema else none

  -- The task and its metadata, appended to what is built; `context` and `upstream` are the tasks that
  -- it takes as context, and the ids of their nodes.
  unfoldable pub append_task :
      String
      → String
      → String
      → String
      → Agent
      → Bool
      → List Task
      → List String
      → Built Task
      → Built Task
  append_task node_id agent_id description expected_output agent final context upstream b = record {
    tasks =
        b.tasks
        ++ p.task_cls (record {
          name = node_id;
          description = description;
          expected_output = expected_output;
          agent = some agent;
          context = context;
          human_input = asks_human (config_of (some agent_id));
          guardrail = guardrail_of final;
        })
          ∷ [];
    metas =
        b.metas
        ++ record {
          node_id = node_id;
          agent_id = some agent_id;
          index = length b.tasks;
          description = p.replace_request description w.request_text;
          expected_output = some expected_output;
          upstream_node_ids = upstream;
        }
          ∷ [];
  }

  unfoldable pub role_text : Option AgentConfig → Option String
  role_text none = none
  role_text (some c) =
      if c.description == ""
      then none
      else some (concat_text ("Do your part of this workflow: " ∷ c.description ∷ []))

  -- `node_goal or (… if role_goal else None)`
  unfoldable pub goal_or : Option String → Option String → Option String
  goal_or none role = role
  goal_or (some goal) role = if goal == "" then role else some goal

  abbrev default_output : Bool → String
  default_output final =
      if final
      then "The reply to the user."
      else "Your contribution, in the form the next step needs."

  -- `d.get(key, default)`
  unfoldable pub given_or : Option String → String → String
  given_or none default = default
  given_or (some s) default = s

  unfoldable pub add_node_task : Bool → AgentNode → Option Agent → Built Task → Built Task
  add_node_task final n none b = b
  add_node_task final n (some agent) b =
      append_task n.id n.agent_id
        (task_description
          (goal_or (lookup "task" n.config_override)
            (role_text (lookup n.agent_id w.agent_configs)))
          final)
        (given_or (lookup "expected_output" n.config_override) (default_output final)) agent final
        (tasks_of (upstream_task_pairs w.edges n.id (pairs_of b)))
        (ids_of (upstream_task_pairs w.edges n.id (pairs_of b))) b

  -- One task for each node whose agent is in the crew.
  unfoldable pub node_tasks : List AgentNode → Built Task → Built Task
  node_tasks [] b = b
  node_tasks (n ∷ nodes) b =
      node_tasks nodes (add_node_task (is_last nodes) n (lookup n.agent_id w.crew_agent_by_id) b)

  -- `task_config.node_id or task_config.id or f"task-{index + 1}"`
  unfoldable pub task_name : ℕ → TaskConfig → String
  task_name index c = text_or c.node_id (text_or (some c.id) (p.numbered (suc index)))

  unfoldable pub add_explicit_task : ℕ → Bool → TaskConfig → Option Agent → Built Task → Built Task
  add_explicit_task index final c none b = b
  add_explicit_task index final c (some agent) b =
      append_task (task_name index c) c.agent_id (task_description (some c.description) final)
        c.expected_output agent final b.tasks (map (λ m. m.node_id) b.metas) b

  unfoldable pub explicit_tasks : ℕ → List TaskConfig → Built Task → Built Task
  explicit_tasks index [] b = b
  explicit_tasks index (c ∷ configs) b =
      explicit_tasks (suc index) configs
        (add_explicit_task index (is_last configs) c (lookup c.agent_id w.crew_agent_by_id) b)

  -- `task.node_id == manager_node.id or task.agent_id == manager_node.agent_id`
  unfoldable pub is_own : AgentNode → TaskConfig → Bool
  is_own n c = names n.id c.node_id || (c.agent_id == n.agent_id)

  unfoldable pub own_task : AgentNode → List TaskConfig → Option TaskConfig
  own_task n [] = none
  own_task n (c ∷ configs) = let rest = own_task n configs in if is_own n c then some c else rest

  -- `override.setdefault(key, value)`, then `override.get(key)`
  unfoldable pub with_default :
      Option String → Option TaskConfig → (TaskConfig → String) → Option String
  with_default (some s) own field = some s
  with_default none none field = none
  with_default none (some c) field = some (field c)

  unfoldable pub roster_lines : String → List (String × Agent) → List String
  roster_lines manager [] = []
  roster_lines manager ((i, agent) ∷ agents) =
      let rest = roster_lines manager agents in
      if i == manager
      then rest
      else p.rstrip (concat_text ("- " ∷ p.role agent ∷ ": " ∷ p.goal agent ∷ [])) ∷ rest

  unfoldable pub routing : AgentNode → String
  routing n = concat_text (
      "Your coworkers, and what each is for:\n"
      ∷ join_text "\n" (roster_lines n.agent_id w.crew_agent_by_id)
      ∷ "\n\nDelegate the request to the coworker whose purpose covers it, even when you could answer yourself: they have the tools to get it right. Answer directly only when no coworker's purpose applies. Give the final answer in your own words."
      ∷ [])

  unfoldable pub manager_description : AgentNode → Option TaskConfig → String
  manager_description n own =
      task_description
        (some (
          join_text "\n\n" (
            text_or (with_default (lookup "task" n.config_override) own (λ c. c.description))
              "Answer the user's request."
            ∷ routing n
            ∷ [])))
        true

  unfoldable pub manager_output : AgentNode → Option TaskConfig → String
  manager_output n own =
      given_or
        (with_default (lookup "expected_output" n.config_override) own (λ c. c.expected_output))
        "A direct, complete answer to the user's request."

  -- The one task of a crew that a manager leads: no agent is assigned to it.
  unfoldable pub manager_task : AgentNode → Built Task
  manager_task n =
      let own = own_task n w.explicit_tasks in
      record {
        tasks =
            p.task_cls (record {
              name = n.id;
              description = manager_description n own;
              expected_output = manager_output n own;
              agent = none;
              context = [];
              human_input = asks_human (config_of none);
              guardrail = guardrail_of true;
            })
            ∷ [];
        metas =
            record {
              node_id = n.id;
              agent_id = some n.agent_id;
              index = 0;
              description = p.replace_request (manager_description n own) w.request_text;
              expected_output = some (manager_output n own);
              upstream_node_ids = [];
            }
            ∷ [];
      }

  abbrev pub nothing_built : Built Task
  nothing_built = record { tasks = []; metas = [] }

  -- `if tasks: return tasks, metas`
  unfoldable pub unless_built : Built Task → List Task → Built Task → Built Task
  unless_built nodes [] explicit = nodes
  unless_built nodes (t ∷ tasks) explicit = explicit

  unfoldable pub create_tasks : Option AgentNode → List AgentNode → Built Task
  create_tasks (some manager) nodes = manager_task manager
  create_tasks none nodes =
      let explicit = explicit_tasks 0 w.explicit_tasks nothing_built in
      unless_built (node_tasks nodes nothing_built) explicit.tasks explicit
