-- ===== src/Crew/Planned.antt =====
-- src/crewai_runtime/runtime.py: what holds of a crew that is planned, and when none is.
use mathlib.Core.List.{Perm}
use delaxis.Prelude.{
  String, ◌==◌, Bool, true, false, Option, none, some, List, [], ◌∷◌, ◌++◌, contains, lookup, keys,
  ◌≡◌, ◌≢◌, ◌↔◌, refl, sym, ap, subst, ◌∙◌, arith, Bool-cases, Option-cases, inl, inr, ◌⊎◌,
  Distinct,
}
use delaxis.Prelude.Outcome.{ret, Returns, Returns-bind}
use delaxis.Topology.{AgentNode, node_ids}
use delaxis.ExecutionEvents.Operations.{register_tasks}
use delaxis.ExecutionEvents.Callbacks.{keys-set_key}
use delaxis.Crew.Order.{ordered_nodes}
use delaxis.Crew.Visits.{IsOrder, ordered_nodes-IsOrder}
use delaxis.Crew.Roles.{AgentConfig, manager_node, is_selector, Process, hierarchical, sequential}
use delaxis.Crew.Inputs.{Platform}
use delaxis.Crew.Plan.{Expected, create_tasks-Expected}
use delaxis.Crew.ManagerTools.{HasTool, manager_tool_ids-HasTool}
use delaxis.Crew.Planning.{
  AgentArguments, CrewWorkflow, Request, no_agents, no_specialists, no_valid_agents, manager_tools,
  no_config, CrewAgents, CrewPlan, PlanResult, refused, planned, is_manager, add_agent, add_agents,
  task_inputs, finish_plan, manager_tool_ids, check_manager, check_crew, plan_process, plan_nodes,
  plan_crew, manager_if,
}

append-ne-nil : {A : Type 0} (xs : List A) (x : A) → xs ++ x ∷ [] ≢ []
append-ne-nil [] x e = cc
append-ne-nil (y ∷ xs) x e = cc

manager_node-known :
    (nodes : List AgentNode) (configs : List (String × AgentConfig)) (m : AgentNode)
    → manager_node nodes configs ≡ some m
    → lookup m.agent_id configs ≢ none
unfolding manager_node is_selector
manager_node-known [] configs m e = cc
manager_node-known (n ∷ nodes) configs m e = elim (Option-cases (lookup n.agent_id configs)) [
  | inl missing ↦ manager_node-known nodes configs m (rw missing at e)
  | inr (config, found) ↦ elim (Bool-cases (is_selector n (lookup n.agent_id configs))) [
    | inl selector ↦
        (let e' : some n ≡ some m = (rw selector at e) in
          let same : n ≡ m = cc in
          subst (λ k. lookup k.agent_id configs ≢ none) same
            (λ h. absurd (let both = sym found ∙ h in cc)))
    | inr other ↦ manager_node-known nodes configs m (rw other at e)
  ]
]

manager_if-known :
    (process : Process) (nodes : List AgentNode) (configs : List (String × AgentConfig))
    (m : AgentNode)
    → manager_if process nodes configs ≡ some m
    → lookup m.agent_id configs ≢ none
unfolding manager_if
manager_if-known hierarchical nodes configs m e = manager_node-known nodes configs m e
manager_if-known sequential nodes configs m e = cc

module _ {Agent Task : Type 0} (create_agent : AgentArguments → Agent) (p : Platform Agent Task)
    (w : CrewWorkflow) (r : Request) where
  -- Each node's agent is the manager or has no configuration.
  unfoldable pub Unstaffed : Option AgentNode → List AgentNode → Type 0
  Unstaffed manager [] = Unit
  Unstaffed manager (n ∷ nodes) =
      ((is_manager manager n.agent_id ≡ true) ⊎ (lookup n.agent_id r.agent_configs ≡ none))
      × Unstaffed manager nodes

  pub record IsPlanned (order : List AgentNode) (plan : CrewPlan Agent Task) : Type 0 where
    pub in_order : plan.order ≡ order
    pub staffed : plan.crew.agents ≢ []
    pub apart :
        (m : AgentNode) → plan.manager ≡ some m → contains m.agent_id (keys plan.crew.by_id) ≡ false
    pub toolless :
        (m : AgentNode) → plan.manager ≡ some m → manager_tool_ids create_agent p w r order m ≡ []
    pub bare :
        (m : AgentNode)
        → plan.manager ≡ some m
        → (t : String) → ¬ HasTool r.agent_configs order m.agent_id t
    pub tasks : Expected p (task_inputs create_agent p w r plan.crew) plan.manager order plan.built
    pub followed : plan.events.metas ≡ plan.built.metas

  -- What is promised of the nodes in their order.
  unfoldable pub Sound : List AgentNode → PlanResult Agent Task → Type 0
  Sound order (refused no_agents) = order ≡ []
  Sound order (refused no_valid_agents) = Unstaffed none order
  Sound order (refused (no_specialists i)) =
      (m : AgentNode) × (m.agent_id ≡ i) × Unstaffed (some m) order
  Sound order (refused (manager_tools i tools)) =
      (m : AgentNode) × (m.agent_id ≡ i)
      × (manager_tool_ids create_agent p w r order m ≡ tools)
      × (tools ≢ [])
      × ((t : String) → (contains t tools ≡ true) ↔ HasTool r.agent_configs order m.agent_id t)
  Sound order (refused (no_config i)) = ⊥
  Sound order (planned plan) = IsPlanned order plan

  add_agent-skips :
      (order : List AgentNode) (manager : Option AgentNode) (i : String) (b : Bool)
      (config : Option AgentConfig) (crew : CrewAgents Agent)
      → (add_agent create_agent p w r order manager i b config crew).agents ≡ []
      → (crew.agents ≡ []) × ((b ≡ true) ⊎ (config ≡ none))
  unfolding add_agent
  add_agent-skips order manager i true config crew e = (e, inl refl)
  add_agent-skips order manager i false none crew e = (e, inr refl)
  add_agent-skips order manager i false (some config) crew e =
      absurd (append-ne-nil crew.agents _ e)

  add_agents-Unstaffed :
      (order : List AgentNode) (manager : Option AgentNode) (nodes : List AgentNode)
      (crew : CrewAgents Agent)
      → (add_agents create_agent p w r order manager nodes crew).agents ≡ []
      → (crew.agents ≡ []) × Unstaffed manager nodes
  unfolding add_agents Unstaffed
  add_agents-Unstaffed order manager [] crew e = (e, tt)
  add_agents-Unstaffed order manager (n ∷ nodes) crew e =
      let (now, later) = add_agents-Unstaffed order manager nodes _ e in
      let (start, skipped) = add_agent-skips order manager n.agent_id _ _ crew now in
      (start, (skipped, later))

  add_agent-apart :
      (order : List AgentNode) (m : AgentNode) (manager : Option AgentNode) (i : String) (b : Bool)
      (config : Option AgentConfig) (crew : CrewAgents Agent)
      → b ≡ (i == m.agent_id)
      → contains m.agent_id (keys crew.by_id) ≡ false
      → contains m.agent_id
          (keys (add_agent create_agent p w r order manager i b config crew).by_id)
        ≡ false
  unfolding add_agent
  add_agent-apart order m manager i true config crew e h = h
  add_agent-apart order m manager i false none crew e h = h
  add_agent-apart order m manager i false (some config) crew e h =
      keys-set_key m.agent_id i _ crew.by_id ∙ ground (arith, sym e, h)

  add_agents-apart :
      (order : List AgentNode) (m : AgentNode) (nodes : List AgentNode) (crew : CrewAgents Agent)
      → contains m.agent_id (keys crew.by_id) ≡ false
      → contains m.agent_id (keys (add_agents create_agent p w r order (some m) nodes crew).by_id)
        ≡ false
  unfolding add_agents is_manager
  add_agents-apart order m [] crew h = h
  add_agents-apart order m (n ∷ nodes) crew h = add_agents-apart order m nodes _ (
      add_agent-apart order m (some m) n.agent_id _ (lookup n.agent_id r.agent_configs) crew refl h)

  apart_of :
      (m k : AgentNode) (crew : CrewAgents Agent)
      → ◌≡◌ {A = Option AgentNode} (some m) (some k)
      → contains m.agent_id (keys crew.by_id) ≡ false
      → contains k.agent_id (keys crew.by_id) ≡ false
  apart_of m k crew same h =
      let e : m ≡ k = cc in subst (λ x. contains x.agent_id (keys crew.by_id) ≡ false) e h

  toolless_of :
      (order : List AgentNode) (m k : AgentNode)
      → ◌≡◌ {A = Option AgentNode} (some m) (some k)
      → manager_tool_ids create_agent p w r order m ≡ []
      → manager_tool_ids create_agent p w r order k ≡ []
  toolless_of order m k same h =
      let e : m ≡ k = cc in subst (λ x. manager_tool_ids create_agent p w r order x ≡ []) e h

  add_agents-apart_at :
      (order : List AgentNode) (manager : Option AgentNode) (m : AgentNode)
      → manager ≡ some m
      → contains m.agent_id (
          keys
            (add_agents create_agent p w r order manager order
              (record { agents = []; by_id = [] })).by_id)
        ≡ false
  unfolding contains keys
  add_agents-apart_at order manager m same =
      subst
        (λ x.
          contains m.agent_id (
            keys
              (add_agents create_agent p w r order x order
                (record { agents = []; by_id = [] })).by_id)
          ≡ false)
        (sym same) (add_agents-apart order m order _ refl)

  toolless-HasTool :
      (order : List AgentNode) (m : AgentNode) (t : String)
      → manager_tool_ids create_agent p w r order m ≡ []
      → ¬ HasTool r.agent_configs order m.agent_id t
  unfolding contains
  toolless-HasTool order m t none_given has =
      let there = (manager_tool_ids-HasTool create_agent p w r order m t).1 has in
      let never = ap (contains t) (sym none_given) ∙ there in cc

  finish_plan-Sound :
      (process : Process) (order : List AgentNode) (manager : Option AgentNode)
      (manager_agent : Option Agent) (crew : CrewAgents Agent)
      → crew.agents ≢ []
      → ((m : AgentNode) → manager ≡ some m → contains m.agent_id (keys crew.by_id) ≡ false)
      → ((m : AgentNode) → manager ≡ some m → manager_tool_ids create_agent p w r order m ≡ [])
      → Sound order (finish_plan create_agent p w r process order manager manager_agent crew)
  unfolding finish_plan Sound register_tasks
  finish_plan-Sound process order manager manager_agent crew staffed apart toolless = record {
    in_order = refl;
    staffed = staffed;
    apart = apart;
    toolless = toolless;
    bare = λ m same t has. toolless-HasTool order m t (toolless m same) has;
    tasks = create_tasks-Expected p (task_inputs create_agent p w r crew) manager order;
    followed = refl;
  }

  check_manager-Sound :
      (tools : List String) (process : Process) (order : List AgentNode) (m : AgentNode)
      (config : Option AgentConfig) (crew : CrewAgents Agent)
      → config ≢ none
      → manager_tool_ids create_agent p w r order m ≡ tools
      → crew.agents ≢ []
      → contains m.agent_id (keys crew.by_id) ≡ false
      → Sound order (check_manager create_agent p w r tools process order m config crew)
  unfolding check_manager Sound
  check_manager-Sound tools process order m none crew known e staffed apart = known refl
  check_manager-Sound (tool ∷ tools) process order m (some config) crew known e staffed apart = (
    m,
    refl,
    e,
    λ h. cc,
    λ t.
        subst (λ l. (contains t l ≡ true) ↔ HasTool r.agent_configs order m.agent_id t) e
          (manager_tool_ids-HasTool create_agent p w r order m t),
  )
  check_manager-Sound [] process order m (some config) crew known e staffed apart =
      finish_plan-Sound process order (some m) _ crew staffed
        (λ k same. apart_of m k crew same apart) (λ k same. toolless_of order m k same e)

  check_crew-Sound :
      (agents : List Agent) (process : Process) (order : List AgentNode)
      (manager : Option AgentNode) (crew : CrewAgents Agent)
      → crew.agents ≡ agents
      → (agents ≡ [] → Unstaffed manager order)
      → ((m : AgentNode) → manager ≡ some m → contains m.agent_id (keys crew.by_id) ≡ false)
      → ((m : AgentNode) → manager ≡ some m → lookup m.agent_id r.agent_configs ≢ none)
      → Sound order (check_crew create_agent p w r agents process order manager crew)
  unfolding check_crew Sound
  check_crew-Sound [] process order none crew e idle apart known = idle refl
  check_crew-Sound [] process order (some m) crew e idle apart known = (m, refl, idle refl)
  check_crew-Sound (agent ∷ agents) process order none crew e idle apart known =
      finish_plan-Sound process order none none crew (λ h. cc) apart (λ m same. cc)
  check_crew-Sound (agent ∷ agents) process order (some m) crew e idle apart known =
      check_manager-Sound _ process order m _ crew (known m refl) refl (λ h. cc) (apart m refl)

  plan_process-Sound :
      (process : Process) (order : List AgentNode)
      → Sound order (plan_process create_agent p w r process order)
  unfolding plan_process
  plan_process-Sound process order =
      let manager = manager_if process order r.agent_configs in
      check_crew-Sound _ process order manager _ refl
        (λ e. (add_agents-Unstaffed order manager order _ e).1)
        (λ m same. add_agents-apart_at order manager m same)
        (λ m same. manager_if-known process order r.agent_configs m same)

  plan_nodes-Sound :
      (lower : String → String) (order : List AgentNode)
      → Sound order (plan_nodes create_agent p w r lower order)
  unfolding plan_nodes Sound
  plan_nodes-Sound lower [] = refl
  plan_nodes-Sound lower (n ∷ nodes) = plan_process-Sound _ (n ∷ nodes)

  -- For a topology with distinct node ids, planning a crew returns, and goes by a permutation of the nodes. It is
  -- refused only if there are no nodes; if each node's agent has no configuration, or only the manager's has;
  -- or if the manager has tools, in its agent's configuration or at one of its nodes, and then it is refused with these tools. A crew that is planned has an agent, its manager is not
  -- among its agents and has no tools, in neither place, its tasks are those expected of the order, and the
  -- emitter follows these tasks.
  pub plan_crew-Sound :
      (lower : String → String)
      → Distinct (node_ids w.topology.nodes)
      → Returns
          (plan_crew create_agent p w r lower)
          (λ result. (order : List AgentNode) × Perm order w.topology.nodes × Sound order result)
  unfolding plan_crew
  plan_crew-Sound lower distinct =
      Returns-bind (ordered_nodes w.topology)
        (λ order. ret (plan_nodes create_agent p w r lower order)) (IsOrder w.topology distinct) _
        (ordered_nodes-IsOrder w.topology distinct)
        (λ order ran ordered. (order, ordered.complete, plan_nodes-Sound lower order))
