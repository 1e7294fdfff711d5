-- ===== src/Crew/Plan.antt =====
-- src/crewai_runtime/runtime.py: `_create_tasks` keeps the tasks and their metadata in step, and gives
-- each task the right earlier tasks as context.
use delaxis.Prelude.{
  In, ℕ, suc, String, Bool, Option, none, some, List, [], ◌∷◌, ◌++◌, append-nil, append_assoc,
  length, map, lookup, length-append, ◌≡◌, refl, sym, ap, subst, ◌∙◌, arith, Option-cases, inl, inr,
  ◌↔◌,
}
use delaxis.Topology.{AgentNode}
use delaxis.ExecutionEvents.{TaskMeta}
use delaxis.Crew.Inputs.{TaskConfig, TaskArguments, Platform, Inputs, Built}
use delaxis.Crew.Context.{zip_tasks, pairs_of, tasks_of, ids_of, upstream_task_pairs}
use delaxis.Crew.Aligned.{
  FromEdges, FromAll, FromNone, zip-append, tasks_of-zip, ids_of-zip, length-zip,
  upstream_task_pairs-FromEdges,
}
use delaxis.Crew.Tasks.{
  append_task, add_node_task, node_tasks, add_explicit_task, explicit_tasks, manager_task,
  nothing_built, unless_built, create_tasks, task_name, is_last,
}

length-map : (metas : List TaskMeta) → length (map (λ k. k.node_id) metas) ≡ length metas
length-map [] = refl
length-map (m ∷ metas) = ap suc (length-map metas)

map-append-last :
    (metas : List TaskMeta) (m : TaskMeta)
    → map (λ k. k.node_id) (metas ++ m ∷ []) ≡ map (λ k. k.node_id) metas ++ m.node_id ∷ []
map-append-last [] m = refl
map-append-last (n ∷ metas) m = ap (λ l. n.node_id ∷ l) (map-append-last metas m)

-- The name in front of the names, if there is an agent.
unfoldable pub name_if : {Agent : Type 0} → Option Agent → String → List String → List String
name_if none i names = names
name_if (some agent) i names = i ∷ names

module _ {Agent Task : Type 0} (p : Platform Agent Task) (w : Inputs Agent) where
  -- A task made after the tasks `before`: its name is the node of its metadata, whose index is the
  -- task's; its context is the tasks, and its upstream ids are the nodes, of the earlier tasks that
  -- the rule picks.
  pub record IsStep (Rule : List (TaskMeta × Task) → (TaskMeta × Task) → (TaskMeta × Task) → Type 0)
      (before : List (TaskMeta × Task)) (k : TaskMeta × Task) : Type 0 where
    pub arguments : TaskArguments Agent Task
    pub made : k.1 ≡ p.task_cls arguments
    pub named : arguments.name ≡ k.0.node_id
    pub numbered : k.0.index ≡ length before
    pub picked : List (TaskMeta × Task)
    pub chosen : (j : TaskMeta × Task) → In j picked ↔ Rule before j k
    pub context : arguments.context ≡ tasks_of picked
    pub upstream : k.0.upstream_node_ids ≡ ids_of picked

  -- Each task of the list is such a step after the ones before it.
  pub data Planned (Rule : List (TaskMeta × Task) → (TaskMeta × Task) → (TaskMeta × Task) → Type 0)
      : List (TaskMeta × Task) → Type 0 where
    planned_none : Planned Rule []
    planned_next :
        {before : List (TaskMeta × Task)} {k : TaskMeta × Task}
        → Planned Rule before
        → IsStep Rule before k
        → Planned Rule (before ++ k ∷ [])

  -- As many tasks as metadata, planned by the rule, for the nodes with these ids.
  pub record IsPlan (Rule : List (TaskMeta × Task) → (TaskMeta × Task) → (TaskMeta × Task) → Type 0)
      (ids : List String) (b : Built Task) : Type 0 where
    pub aligned : length b.metas ≡ length b.tasks
    pub planned : Planned Rule (pairs_of b)
    pub named : map (λ m. m.node_id) b.metas ≡ ids

  -- The ids of the nodes whose agent is in the crew.
  unfoldable pub staffed : List AgentNode → List String
  staffed [] = []
  staffed (n ∷ nodes) = name_if (lookup n.agent_id w.crew_agent_by_id) n.id (staffed nodes)

  -- The names of the explicit tasks whose agent is in the crew.
  unfoldable pub staffed_tasks : ℕ → List TaskConfig → List String
  staffed_tasks index [] = []
  staffed_tasks index (c ∷ configs) =
      name_if (lookup c.agent_id w.crew_agent_by_id) (task_name p w index c)
        (staffed_tasks (suc index) configs)

  append_task-IsPlan :
      (Rule : List (TaskMeta × Task) → (TaskMeta × Task) → (TaskMeta × Task) → Type 0)
      (ids : List String) (b : Built Task) (node_id agent_id description expected_output : String)
      (agent : Agent) (final : Bool) (picked : List (TaskMeta × Task))
      → ((j k : TaskMeta × Task) → k.0.node_id ≡ node_id → In j picked ↔ Rule (pairs_of b) j k)
      → IsPlan Rule ids b
      → IsPlan Rule (ids ++ node_id ∷ []) (
          append_task p w node_id agent_id description expected_output agent final
            (tasks_of picked)
            (ids_of picked)
            b)
  unfolding append_task
  append_task-IsPlan Rule ids b node_id agent_id description expected_output agent final picked rule
        plan =
      let b' =
        append_task p w node_id agent_id description expected_output agent final (tasks_of picked)
          (ids_of picked) b in
      record {
        aligned = omega (arith, length-append b.metas, length-append b.tasks, plan.aligned);
        planned = rw (zip-append b.metas b.tasks _ _ plan.aligned) (
            planned_next plan.planned (record {
              arguments = _;
              made = refl;
              named = refl;
              numbered = sym (length-zip b.metas b.tasks plan.aligned);
              picked = picked;
              chosen = λ j. rule j _ refl;
              context = refl;
              upstream = refl;
            }));
        named = map-append-last b.metas _ ∙ ap (λ l. l ++ node_id ∷ []) plan.named;
      }

  add_node_task-IsPlan :
      (ids : List String) (b : Built Task) (final : Bool) (n : AgentNode) (agent : Agent)
      → IsPlan (FromEdges w.edges) ids b
      → IsPlan (FromEdges w.edges) (ids ++ n.id ∷ []) (add_node_task p w final n (some agent) b)
  unfolding add_node_task
  add_node_task-IsPlan ids b final n agent plan =
      append_task-IsPlan (FromEdges w.edges) ids b n.id n.agent_id _ _ agent final
        (upstream_task_pairs w.edges n.id (pairs_of b))
        (λ j k e. upstream_task_pairs-FromEdges w.edges n.id (pairs_of b) j k e) plan

  append_all-IsPlan :
      (ids : List String) (b : Built Task) (node_id agent_id description expected_output : String)
      (agent : Agent) (final : Bool)
      → IsPlan FromAll ids b
      → IsPlan FromAll (ids ++ node_id ∷ []) (
          append_task p w node_id agent_id description expected_output agent final b.tasks
            (map (λ m. m.node_id) b.metas)
            b)
  append_all-IsPlan ids b node_id agent_id description expected_output agent final plan =
      subst
        (λ l. IsPlan FromAll (ids ++ node_id ∷ []) (
          append_task p w node_id agent_id description expected_output agent final l
            (map (λ m. m.node_id) b.metas) b))
        (tasks_of-zip b.metas b.tasks plan.aligned)
        (subst
          (λ l. IsPlan FromAll (ids ++ node_id ∷ []) (
            append_task p w node_id agent_id description expected_output agent final
              (tasks_of (pairs_of b)) l b))
          (ids_of-zip b.metas b.tasks plan.aligned)
          (append_task-IsPlan FromAll ids b node_id agent_id description expected_output agent final
            (pairs_of b) (λ j k e. (λ h. h, λ h. h)) plan))

  add_explicit_task-IsPlan :
      (ids : List String) (b : Built Task) (index : ℕ) (final : Bool) (c : TaskConfig)
      (agent : Agent)
      → IsPlan FromAll ids b
      → IsPlan FromAll
          (ids ++ task_name p w index c ∷ [])
          (add_explicit_task p w index final c (some agent) b)
  unfolding add_explicit_task
  add_explicit_task-IsPlan ids b index final c agent plan =
      append_all-IsPlan ids b (task_name p w index c) c.agent_id _ _ agent final plan

  node_tasks-IsPlan :
      (nodes : List AgentNode) (ids : List String) (b : Built Task)
      → IsPlan (FromEdges w.edges) ids b
      → IsPlan (FromEdges w.edges) (ids ++ staffed nodes) (node_tasks p w nodes b)
  unfolding node_tasks staffed add_node_task name_if
  node_tasks-IsPlan [] ids b plan = rw (append-nil ids) plan
  node_tasks-IsPlan (n ∷ nodes) ids b plan =
      elim (Option-cases (lookup n.agent_id w.crew_agent_by_id)) [
        | inl missing ↦ rw missing (node_tasks-IsPlan nodes ids b plan)
        | inr (agent, found) ↦
            let b' : Built Task = add_node_task p w (is_last nodes) n (some agent) b in
            rw found (
              subst (λ l. IsPlan (FromEdges w.edges) l (node_tasks p w nodes b'))
                (append_assoc ids (n.id ∷ []) (staffed nodes))
                (node_tasks-IsPlan nodes (ids ++ n.id ∷ []) b'
                  (add_node_task-IsPlan ids b (is_last nodes) n agent plan)))
      ]

  explicit_tasks-IsPlan :
      (configs : List TaskConfig) (index : ℕ) (ids : List String) (b : Built Task)
      → IsPlan FromAll ids b
      → IsPlan FromAll (ids ++ staffed_tasks index configs) (explicit_tasks p w index configs b)
  unfolding explicit_tasks staffed_tasks add_explicit_task name_if
  explicit_tasks-IsPlan [] index ids b plan = rw (append-nil ids) plan
  explicit_tasks-IsPlan (c ∷ configs) index ids b plan =
      elim (Option-cases (lookup c.agent_id w.crew_agent_by_id)) [
        | inl missing ↦ rw missing (explicit_tasks-IsPlan configs (suc index) ids b plan)
        | inr (agent, found) ↦
            let b' : Built Task = add_explicit_task p w index (is_last configs) c (some agent) b in
            rw found (
              subst (λ l. IsPlan FromAll l (explicit_tasks p w (suc index) configs b'))
                (append_assoc ids (task_name p w index c ∷ []) (staffed_tasks (suc index) configs))
                (explicit_tasks-IsPlan configs (suc index) (ids ++ task_name p w index c ∷ []) b'
                  (add_explicit_task-IsPlan ids b index (is_last configs) c agent plan)))
      ]

  nothing-IsPlan :
      (Rule : List (TaskMeta × Task) → (TaskMeta × Task) → (TaskMeta × Task) → Type 0)
      → IsPlan Rule [] (nothing_built p w)
  unfolding zip_tasks
  nothing-IsPlan Rule = record { aligned = refl; planned = planned_none; named = refl }

  manager_task-IsPlan : (n : AgentNode) → IsPlan FromNone (n.id ∷ []) (manager_task p w n)
  unfolding manager_task zip_tasks
  manager_task-IsPlan n = record {
    aligned = refl;
    planned = planned_next planned_none (record {
      arguments = _;
      made = refl;
      named = refl;
      numbered = refl;
      picked = [];
      chosen = λ j. (λ h. h, λ h. h);
      context = refl;
      upstream = refl;
    });
    named = refl;
  }

  -- What is planned without a manager: the explicit tasks, if one of them has its agent in the crew.
  unfoldable pub Unmanaged : List String → List AgentNode → Built Task → Type 0
  Unmanaged [] nodes b = IsPlan (FromEdges w.edges) (staffed nodes) b
  Unmanaged (i ∷ ids) nodes b = IsPlan FromAll (i ∷ ids) b

  unfoldable pub Expected : Option AgentNode → List AgentNode → Built Task → Type 0
  Expected none nodes b = Unmanaged (staffed_tasks 0 w.explicit_tasks) nodes b
  Expected (some manager) nodes b = IsPlan FromNone (manager.id ∷ []) b

  unless_built-Unmanaged :
      (ids : List String) (nodes : List AgentNode) (explicit : Built Task) (tasks : List Task)
      → length ids ≡ length tasks
      → IsPlan FromAll ids explicit
      → Unmanaged ids nodes
          (unless_built p w (node_tasks p w nodes (nothing_built p w)) tasks explicit)
  unfolding Unmanaged unless_built
  unless_built-Unmanaged [] nodes explicit [] e plan =
      node_tasks-IsPlan nodes [] _ (nothing-IsPlan (FromEdges w.edges))
  unless_built-Unmanaged [] nodes explicit (t ∷ tasks) e plan = absurd (omega (arith, e))
  unless_built-Unmanaged (i ∷ ids) nodes explicit [] e plan = absurd (omega (arith, e))
  unless_built-Unmanaged (i ∷ ids) nodes explicit (t ∷ tasks) e plan = plan

  names-aligned :
      {Rule : List (TaskMeta × Task) → (TaskMeta × Task) → (TaskMeta × Task) → Type 0}
      {ids : List String} {b : Built Task}
      → IsPlan Rule ids b
      → length ids ≡ length b.tasks
  names-aligned {b = b} plan = sym (ap length plan.named) ∙ (length-map b.metas ∙ plan.aligned)

  -- The tasks and the metadata that _create_tasks returns are in step: the i-th task is named after the
  -- node of the i-th metadata, whose index is i. With a manager there is one task, named after the
  -- manager's node, with no context. Else, if an explicit task has its agent in the crew, there is one task for each such explicit
  -- task, and its context is all tasks before it. Else there is one for each node whose agent is in
  -- the crew, and its context is the tasks before it whose nodes have an edge to its node, or, in a
  -- topology without edges, the task just before it. The upstream ids are always the nodes of the context.
  pub create_tasks-Expected :
      (manager : Option AgentNode) (nodes : List AgentNode)
      → Expected manager nodes (create_tasks p w manager nodes)
  unfolding create_tasks Expected
  create_tasks-Expected (some manager) nodes = manager_task-IsPlan manager
  create_tasks-Expected none nodes =
      (let plan = explicit_tasks-IsPlan w.explicit_tasks 0 [] _ (nothing-IsPlan FromAll) in
        unless_built-Unmanaged _ nodes _ _ (names-aligned plan) plan)
