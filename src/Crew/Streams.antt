-- ===== src/Crew/Streams.antt =====
-- src/crewai_runtime/runtime.py and src/crewai_runtime/execution_events.py: a planned sequential crew
-- and the emitter that follows it.
use mathlib.Core.Logic.{∥∥₁_elim}
use mathlib.Core.List.{Perm, Permᴰ}
use mathlib.Core.List.Perm
use delaxis.Prelude.{
  ℕ, String, true, false, Option, none, some, List, [], ◌∷◌, contains, lookup, map, ◌≡◌, refl, sym,
  ap, subst, ◌∙◌, arith, Bool-cases, inl, inr, str_eq_iff, Distinct,
}
use delaxis.Prelude.Outcome.{ret, Returns, Returns-bind, Returns-at}
use delaxis.Topology.{AgentNode, node_ids}
use delaxis.ExecutionEvents.{TaskOutput}
use delaxis.ExecutionEvents.Operations.{register_tasks, emitter, on_kickoff_start}
use delaxis.ExecutionEvents.Callbacks.{perform_all}
use delaxis.ExecutionEvents.Sequential.{milestones, Reports, ids, report_all}
use delaxis.ExecutionEvents.Streams.{IsTimeline}
use delaxis.Crew.Configured.{configured, staff, staffed-configured}
use delaxis.ExecutionEvents.Timeline.{emitted-IsTimeline}
use delaxis.Crew.Inputs.{TaskConfig, Built, Platform, Inputs}
use delaxis.Crew.Aligned.{FromEdges}
use delaxis.Crew.Plan.{
  staffed, staffed_tasks, name_if, Unmanaged, Expected, IsPlan, create_tasks-Expected,
}
use delaxis.Crew.Tasks.{create_tasks}
use delaxis.Crew.Order.{ordered_nodes}
use delaxis.Crew.Visits.{IsOrder, ordered_nodes-IsOrder}
use delaxis.Crew.Roles.{Process, hierarchical, sequential, resolve_process}
use delaxis.Crew.Planning.{
  AgentArguments, CrewWorkflow, Request, CrewPlan, PlanResult, refused, planned, is_sequential,
  task_inputs, finish_plan, check_crew, plan_process, plan_nodes, plan_crew, manager_if,
}

perm_contains :
    (i : String) (xs ys : List AgentNode)
    → Permᴰ xs ys
    → contains i (node_ids xs) ≡ contains i (node_ids ys)
unfolding contains
perm_contains i [] [] Permᴰ.nil = refl
perm_contains i (a ∷ xs) (b ∷ ys) (Permᴰ.cons e d) =
    ground (arith, perm_contains i xs ys d, ap (λ n. n.id) e)
perm_contains i (a ∷ b ∷ xs) (a' ∷ b' ∷ ys) (Permᴰ.swap e e') =
    ground (arith, ap (λ n. n.id) e, ap (λ n. n.id) e')
perm_contains i xs ys (Permᴰ.trans {l₂ = zs} d d') =
    perm_contains i xs zs d ∙ perm_contains i zs ys d'

perm_Distinct :
    (xs ys : List AgentNode) → Permᴰ xs ys → Distinct (node_ids xs) → Distinct (node_ids ys)
unfolding contains
perm_Distinct [] [] Permᴰ.nil d = d
perm_Distinct (a ∷ xs) (b ∷ ys) (Permᴰ.cons e p) d = (
  ap (λ n. contains n.id (node_ids ys)) (sym e) ∙ (sym (perm_contains a.id xs ys p) ∙ d.0),
  perm_Distinct xs ys p d.1,
)
perm_Distinct (a ∷ b ∷ xs) (a' ∷ b' ∷ ys) (Permᴰ.swap e e') d = (
  ground (
    arith,
    d.0,
    d.1.0,
    ap (λ n. n.id) e,
    ap (λ n. n.id) e',
    str_eq_iff a.id b.id,
    str_eq_iff b.id a.id,
  ),
  (ground (arith, d.0, ap (λ n. n.id) e), d.1.1),
)
perm_Distinct xs ys (Permᴰ.trans {l₂ = zs} p q) d = perm_Distinct zs ys q (perm_Distinct xs zs p d)

Distinct_prop : (xs : List String) → IsProp (Distinct xs)
Distinct_prop [] = hlevel
Distinct_prop (x ∷ xs) = hlevel (Distinct_prop xs)

pub Perm-Distinct :
    (xs ys : List AgentNode) → Perm xs ys → Distinct (node_ids ys) → Distinct (node_ids xs)
Perm-Distinct xs ys p d =
    ∥∥₁_elim (Perm.symm p) (Distinct_prop (node_ids xs)) (λ q. perm_Distinct ys xs q d)

name-contains :
    {Agent : Type 0} (i j : String) (agent : Option Agent) (names all : List String)
    → contains i (name_if agent j names) ≡ true
    → (contains i names ≡ true → contains i all ≡ true)
    → contains i (j ∷ all) ≡ true
unfolding name_if contains
name-contains i j none names all h within = ground (arith, within h)
name-contains i j (some agent) names all h within = ground (arith, h, within)

name-Distinct :
    {Agent : Type 0} (j : String) (agent : Option Agent) (names : List String)
    → contains j names ≡ false
    → Distinct names
    → Distinct (name_if agent j names)
unfolding name_if
name-Distinct j none names h d = d
name-Distinct j (some agent) names h d = (h, d)

module _ {Agent Task : Type 0} (p : Platform Agent Task) (w : Inputs Agent) where
  staffed-contains :
      (i : String) (nodes : List AgentNode)
      → contains i (staffed p w nodes) ≡ true
      → contains i (node_ids nodes) ≡ true
  unfolding staffed contains
  staffed-contains i [] h = h
  staffed-contains i (n ∷ nodes) h =
      name-contains i n.id (lookup n.agent_id w.crew_agent_by_id) (staffed p w nodes)
        (node_ids nodes) h (staffed-contains i nodes)

  staffed-absent :
      (i : String) (nodes : List AgentNode)
      → contains i (node_ids nodes) ≡ false
      → contains i (staffed p w nodes) ≡ false
  staffed-absent i nodes h = elim (Bool-cases (contains i (staffed p w nodes))) [
    | inl there ↦ absurd (let also = staffed-contains i nodes there in cc)
    | inr absent ↦ absent
  ]

  staffed-Distinct :
      (nodes : List AgentNode) → Distinct (node_ids nodes) → Distinct (staffed p w nodes)
  unfolding staffed
  staffed-Distinct [] d = d
  staffed-Distinct (n ∷ nodes) d =
      name-Distinct n.id (lookup n.agent_id w.crew_agent_by_id) (staffed p w nodes)
        (staffed-absent n.id nodes d.0) (staffed-Distinct nodes d.1)

  planned_tasks :
      (tasks : List TaskConfig) (nodes : List AgentNode) (b : Built Task)
      → tasks ≡ []
      → Unmanaged p w (staffed_tasks p w 0 tasks) nodes b
      → IsPlan p w (FromEdges w.edges) (staffed p w nodes) b
  unfolding Unmanaged staffed_tasks
  planned_tasks [] nodes b e plan = plan
  planned_tasks (c ∷ tasks) nodes b e plan = cc

module _ {Agent Task : Type 0} (create_agent : AgentArguments → Agent) (p : Platform Agent Task)
    (w : CrewWorkflow) (r : Request) (no_tasks : w.explicit_tasks ≡ []) (sink : r.has_sink ≡ true)
    (distinct : Distinct (node_ids w.topology.nodes)) where
  -- The plan goes by an order of the nodes, has one task for each node whose agent has a configuration, in that order and with the
  -- context that the edges say, and its emitter has been given these tasks.
  pub record IsStaffed (plan : CrewPlan Agent Task) : Type 0 where
    pub ordered : IsOrder w.topology distinct plan.order
    pub tasks :
        IsPlan p
          (task_inputs create_agent p w r plan.crew)
          (FromEdges w.topology.edges)
          (configured r.agent_configs plan.order)
          plan.built
    pub followed : plan.events ≡ register_tasks plan.built.metas true (emitter true r.message)

  Follows : PlanResult Agent Task → Type 0
  Follows (refused e) = Unit
  Follows (planned plan) = IsStaffed plan × Distinct (ids plan.built.metas)

  finish_plan-Follows :
      (order : List AgentNode)
      → IsOrder w.topology distinct order
      → Follows (
          finish_plan create_agent p w r sequential order none none
            (staff create_agent p w r order))
  unfolding finish_plan Follows is_sequential task_inputs Expected
  finish_plan-Follows order ordered =
      let inputs = task_inputs create_agent p w r (staff create_agent p w r order) in
      let built = create_tasks p inputs none order in
      let tasks : IsPlan p inputs (FromEdges w.topology.edges) (staffed p inputs order) built =
        planned_tasks p inputs w.explicit_tasks order built no_tasks
          (create_tasks-Expected p inputs none order) in
      (
        record {
          ordered = ordered;
          tasks =
              subst (λ l. IsPlan p inputs (FromEdges w.topology.edges) l built)
                (staffed-configured create_agent p w r order) tasks;
          followed = ap (λ b. register_tasks built.metas true (emitter b r.message)) sink;
        },
        subst Distinct (sym tasks.named) (
            staffed-Distinct p inputs order
              (Perm-Distinct order w.topology.nodes ordered.complete distinct)),
      )

  check_crew-Follows :
      (agents : List Agent) (order : List AgentNode)
      → IsOrder w.topology distinct order
      → Follows (
          check_crew create_agent p w r agents sequential order none
            (staff create_agent p w r order))
  unfolding check_crew Follows
  check_crew-Follows [] order ordered = tt
  check_crew-Follows (agent ∷ agents) order ordered = finish_plan-Follows order ordered

  plan_process-Follows :
      (process : Process) (order : List AgentNode)
      → process ≡ sequential
      → IsOrder w.topology distinct order
      → Follows (plan_process create_agent p w r process order)
  unfolding plan_process manager_if
  plan_process-Follows sequential order e ordered = check_crew-Follows _ order ordered
  plan_process-Follows hierarchical order e ordered = cc

  plan_nodes-Follows :
      (lower : String → String) (order : List AgentNode)
      → resolve_process lower w.process w.pattern w.execution_strategy r.default_process
        ≡ sequential
      → IsOrder w.topology distinct order
      → Follows (plan_nodes create_agent p w r lower order)
  unfolding plan_nodes Follows
  plan_nodes-Follows lower [] e ordered = tt
  plan_nodes-Follows lower (n ∷ nodes) e ordered = plan_process-Follows _ (n ∷ nodes) e ordered

  plan_crew-Follows :
      (lower : String → String)
      → resolve_process lower w.process w.pattern w.execution_strategy r.default_process
        ≡ sequential
      → Returns (plan_crew create_agent p w r lower) Follows
  unfolding plan_crew
  plan_crew-Follows lower e =
      Returns-bind (ordered_nodes w.topology)
        (λ order. ret (plan_nodes create_agent p w r lower order)) (IsOrder w.topology distinct) _
        (ordered_nodes-IsOrder w.topology distinct)
        (λ order ran ordered. plan_nodes-Follows lower order e ordered)

  -- A crew that is planned for a sequential workflow without explicit tasks, whose nodes have distinct ids, for a request with a sink, goes by an order of all the
  -- nodes, the entry node first. It has one task for each node of that order whose agent has a
  -- configuration, in the order, and the context of a task is the tasks before it whose nodes have an edge to its node, or, in a
  -- topology without edges, the task just before it. When its first tasks report in order, the stream is the one described for these tasks: each starts when
  -- the one before it has been shown, and is given the texts shown for the nodes of its context that have reported.
  pub planned-IsTimeline :
      (lower : String → String)
      → resolve_process lower w.process w.pattern w.execution_strategy r.default_process
        ≡ sequential
      → (plan : CrewPlan Agent Task) → plan_crew create_agent p w r lower ≡ ret (planned plan)
      → (now : ℕ) (reports : List (ℕ × TaskOutput))
      → Reports plan.built.metas (map (λ x. x.1) reports)
      → IsStaffed plan
        × IsTimeline [] plan.built.metas (map (λ x. x.1) reports) (
            milestones
              (perform_all (report_all reports) (on_kickoff_start now plan.events)).emitted)
  unfolding Follows
  planned-IsTimeline lower e plan ran now reports in_order =
      let follows =
        Returns-at (plan_crew create_agent p w r lower) Follows (plan_crew-Follows lower e) ran in
      (
        follows.0,
        subst
            (λ events.
              IsTimeline [] plan.built.metas (map (λ x. x.1) reports) (
                milestones
                  (perform_all (report_all reports) (on_kickoff_start now events)).emitted))
            (sym follows.0.followed)
            (emitted-IsTimeline now r.message plan.built.metas reports follows.1 in_order),
      )
