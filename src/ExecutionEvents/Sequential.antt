-- ===== src/ExecutionEvents/Sequential.antt =====
-- src/crewai_runtime/execution_events.py: the events of a sequential run, in which each task reports
-- in its turn.
use delaxis.Prelude.{
  ℕ, String, ◌==◌, true, false, some, List, [], ◌∷◌, ◌++◌, contains, keys, map, ◌≡◌, refl, ap,
  arith, Bool-cases, inl, inr, str_eq_iff, str_eq_refl, Distinct, contains-append,
}
use delaxis.ExecutionEvents.{
  TaskMeta, NodeInput, NodeOutput, Event, node_started, node_input, node_output, agent_transfer,
  tool_call_start, tool_call_result, reasoning_delta, TaskOutput,
}
use delaxis.ExecutionEvents.Operations.{
  set_key, context_of, output_of, next_meta, is_named, find_named,
}
use delaxis.ExecutionEvents.Callbacks.{Callback, task_done}

-- What the stream says of the nodes: that a node starts, what it is given of the earlier ones, and
-- what it puts out.
pub data Milestone : Type 0 where
  started : String → Milestone
  given : String → List (String × String) → Milestone
  finished : String → String → Milestone

unfoldable pub milestones : List Event → List Milestone
milestones [] = []
milestones (node_started i agent n text ∷ events) = started i ∷ milestones events
milestones (node_input i agent input ∷ events) = given i input.context ∷ milestones events
milestones (node_output i agent output ms ∷ events) = finished i output.raw ∷ milestones events
milestones (_ ∷ events) = milestones events

pub milestones-append :
    (xs ys : List Event) → milestones (xs ++ ys) ≡ milestones xs ++ milestones ys
unfolding milestones
milestones-append [] ys = refl
milestones-append (node_started i agent n text ∷ xs) ys =
    ap (λ l. started i ∷ l) (milestones-append xs ys)
milestones-append (node_input i agent input ∷ xs) ys =
    ap (λ l. given i input.context ∷ l) (milestones-append xs ys)
milestones-append (node_output i agent output ms ∷ xs) ys =
    ap (λ l. finished i output.raw ∷ l) (milestones-append xs ys)
milestones-append (agent_transfer i from agent ∷ xs) ys = milestones-append xs ys
milestones-append (tool_call_start name id args ∷ xs) ys = milestones-append xs ys
milestones-append (tool_call_result name id result error ms ∷ xs) ys = milestones-append xs ys
milestones-append (reasoning_delta step agent ∷ xs) ys = milestones-append xs ys

-- What the stream of a run should say: the first task starts, with what is known of its upstream
-- nodes; when it has reported, so does the next.
unfoldable pub timeline :
    List (String × NodeOutput) → List TaskMeta → List TaskOutput → List Milestone
timeline known [] outputs = []
timeline known (m ∷ metas) [] =
    started m.node_id ∷ given m.node_id (context_of m.upstream_node_ids known) ∷ []
timeline known (m ∷ metas) (o ∷ outputs) =
    started m.node_id
    ∷ given m.node_id (context_of m.upstream_node_ids known)
    ∷ finished m.node_id (output_of o m).raw
    ∷ timeline (known ++ (m.node_id, output_of o m) ∷ []) metas outputs

-- The reports are those of the first tasks, in order.
abbrev pub Reports : List TaskMeta → List TaskOutput → Type 0
Reports metas [] = Unit
Reports [] (o ∷ outputs) = ⊥
Reports (m ∷ metas) (o ∷ outputs) = (o.name ≡ some m.node_id) × Reports metas outputs

abbrev pub ids : List TaskMeta → List String
ids metas = map (λ m. m.node_id) metas

unfoldable pub report_all : List (ℕ × TaskOutput) → List Callback
report_all [] = []
report_all ((now, o) ∷ outputs) = task_done now o ∷ report_all outputs

pub set_key-fresh :
    {V : Type 0} (k : String) (v : V) (d : List (String × V))
    → contains k (keys d) ≡ false
    → set_key k v d ≡ d ++ (k, v) ∷ []
unfolding set_key keys contains
set_key-fresh k v [] h = refl
set_key-fresh k v ((j, w) ∷ d) h = elim (Bool-cases (j == k)) [
  | inl same ↦ absurd (let h' = (rw same at h) in cc)
  | inr other ↦ rw other (ap (λ l. (j, w) ∷ l) (set_key-fresh k v d (rw other at h)))
]

pub keys-append :
    {V : Type 0} (d : List (String × V)) (k : String) (v : V)
    → keys (d ++ (k, v) ∷ []) ≡ keys d ++ k ∷ []
unfolding keys
keys-append [] k v = refl
keys-append ((j, w) ∷ d) k v = ap (λ l. j ∷ l) (keys-append d k v)

pub Distinct-split :
    (xs ys : List String) (x : String) → Distinct (xs ++ x ∷ ys) → contains x xs ≡ false
unfolding contains
Distinct-split [] ys x d = refl
Distinct-split (y ∷ xs) ys x d = ground (
  arith,
  Distinct-split xs ys x d.1,
  d.0,
  contains-append y xs (x ∷ ys),
  str_eq_iff y x,
  str_eq_iff x y,
  str_eq_refl x,
)

pub find_named-split :
    (done rest : List TaskMeta) (m : TaskMeta)
    → contains m.node_id (ids done) ≡ false
    → find_named (some m.node_id) (done ++ m ∷ rest) ≡ some m
unfolding find_named is_named contains
find_named-split [] rest m h = rw (str_eq_refl m.node_id) refl
find_named-split (n ∷ done) rest m h =
    ground (arith, find_named-split done rest m, str_eq_iff n.node_id m.node_id)

pub next_meta-skip :
    (xs ys : List TaskMeta) (inputs : List (String × NodeInput))
    → ((x : String) → contains x (ids xs) ≡ true → contains x (keys inputs) ≡ true)
    → next_meta (xs ++ ys) inputs ≡ next_meta ys inputs
unfolding next_meta contains
next_meta-skip [] ys inputs h = refl
next_meta-skip (n ∷ xs) ys inputs h =
    rw (h n.node_id (rw (str_eq_refl n.node_id) refl))
      (next_meta-skip xs ys inputs (λ x k. h x (ground (arith, k))))
