-- ===== src/Crew/Context.antt =====
-- src/crewai_runtime/runtime.py: `_upstream_task_pairs`, the tasks that a task takes as context.
use delaxis.Prelude.{String, ◌==◌, List, [], ◌∷◌, contains, map, if◌then◌else◌}
use delaxis.Topology.{AgentEdge}
use delaxis.ExecutionEvents.{TaskMeta}
use delaxis.Crew.Inputs.{Built}

-- `zip(metas, tasks, strict=False)`
unfoldable pub zip_tasks : {Task : Type 0} → List TaskMeta → List Task → List (TaskMeta × Task)
zip_tasks [] tasks = []
zip_tasks (m ∷ metas) [] = []
zip_tasks (m ∷ metas) (t ∷ tasks) = (m, t) ∷ zip_tasks metas tasks

abbrev pub pairs_of : {Task : Type 0} → Built Task → List (TaskMeta × Task)
pairs_of b = zip_tasks b.metas b.tasks

abbrev pub ids_of : {Task : Type 0} → List (TaskMeta × Task) → List String
ids_of pairs = map (λ k. k.0.node_id) pairs

abbrev pub tasks_of : {Task : Type 0} → List (TaskMeta × Task) → List Task
tasks_of pairs = map (λ k. k.1) pairs

-- `pairs[-1:]`
unfoldable pub last_pair : {Task : Type 0} → List (TaskMeta × Task) → List (TaskMeta × Task)
last_pair [] = []
last_pair (k ∷ []) = k ∷ []
last_pair (k ∷ next ∷ pairs) = last_pair (next ∷ pairs)

unfoldable pub upstream_ids : String → List AgentEdge → List String
upstream_ids i [] = []
upstream_ids i (e ∷ edges) =
    let rest = upstream_ids i edges in if e.to_node == i then e.from_node ∷ rest else rest

unfoldable pub keep_upstream :
    {Task : Type 0} → List String → List (TaskMeta × Task) → List (TaskMeta × Task)
keep_upstream ids [] = []
keep_upstream ids (k ∷ pairs) =
    let rest = keep_upstream ids pairs in if contains k.0.node_id ids then k ∷ rest else rest

unfoldable pub upstream_task_pairs :
    {Task : Type 0} → List AgentEdge → String → List (TaskMeta × Task) → List (TaskMeta × Task)
upstream_task_pairs [] i pairs = last_pair pairs
upstream_task_pairs (e ∷ edges) i pairs = keep_upstream (upstream_ids i (e ∷ edges)) pairs
