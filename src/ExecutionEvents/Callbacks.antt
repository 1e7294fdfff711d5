-- ===== src/ExecutionEvents/Callbacks.antt =====
-- src/crewai_runtime/execution_events.py: the callbacks of a run as a sequence of calls.
use delaxis.Prelude.{
  ℕ, String, ◌==◌, true, false, Option, none, some, List, [], ◌∷◌, ◌++◌, contains, keys,
  if◌then◌else◌, ◌≡◌, refl, ap, arith, Bool-cases, inl, inr, str_eq_iff, Distinct, contains-append,
}
use delaxis.ExecutionEvents.{
  Event, node_started, node_input, node_output, agent_transfer, tool_call_start, tool_call_result,
  reasoning_delta, Emitter, TaskOutput, AgentStep,
}
use delaxis.ExecutionEvents.Operations.{set_key, append_once, mark_ran, handle_task_output}
use delaxis.ExecutionEvents.Steps.{agent_step, tool_started, tool_finished, emit_trace}

-- One call of the emitter by CrewAI or by a tool, with the readings of the clock.
pub data Callback : Type 0 where
  task_done : ℕ → TaskOutput → Callback
  agent_stepped : ℕ → String → Option String → AgentStep → Option String → Callback
  tool_began : String → String → List (String × String) → Callback
  tool_ended : String → String → Option String → Option String → Option ℕ → Callback
  traced : String → Option String → Callback

unfoldable pub perform : Callback → Emitter → Emitter
perform (task_done now o) e = handle_task_output now o e
perform (agent_stepped now agent node step from) e = agent_step now agent node step from e
perform (tool_began tool_id name kwargs) e = tool_started tool_id name kwargs e
perform (tool_ended tool_id name result error ms) e = tool_finished tool_id name result error ms e
perform (traced step agent) e = emit_trace step agent e

unfoldable pub perform_all : List Callback → Emitter → Emitter
perform_all [] e = e
perform_all (c ∷ callbacks) e = perform_all callbacks (perform c e)

-- The nodes announced by node_started, in order.
unfoldable pub started_nodes : List Event → List String
started_nodes [] = []
started_nodes (node_started i agent n text ∷ events) = i ∷ started_nodes events
started_nodes (_ ∷ events) = started_nodes events

pub started_nodes-append :
    (xs ys : List Event) → started_nodes (xs ++ ys) ≡ started_nodes xs ++ started_nodes ys
unfolding started_nodes
started_nodes-append [] ys = refl
started_nodes-append (node_started i agent n text ∷ xs) ys =
    ap (λ l. i ∷ l) (started_nodes-append xs ys)
started_nodes-append (node_input i agent input ∷ xs) ys = started_nodes-append xs ys
started_nodes-append (node_output i agent output ms ∷ xs) ys = started_nodes-append xs ys
started_nodes-append (agent_transfer i from agent ∷ xs) ys = started_nodes-append xs ys
started_nodes-append (tool_call_start name id args ∷ xs) ys = started_nodes-append xs ys
started_nodes-append (tool_call_result name id result error ms ∷ xs) ys = started_nodes-append xs ys
started_nodes-append (reasoning_delta step agent ∷ xs) ys = started_nodes-append xs ys

pub keys-set_key :
    {V : Type 0} (x k : String) (v : V) (d : List (String × V))
    → contains x (keys (set_key k v d)) ≡ (if k == x then true else contains x (keys d))
unfolding keys set_key contains
keys-set_key x k v [] = refl
keys-set_key x k v ((j, w) ∷ d) =
    ground (arith, keys-set_key x k v d, str_eq_iff j k, str_eq_iff j x, str_eq_iff k x)

pub Distinct-append :
    (x : String) (xs : List String) → Distinct xs → contains x xs ≡ false → Distinct (xs ++ x ∷ [])
unfolding contains
Distinct-append x [] d h = (refl, tt)
Distinct-append x (y ∷ xs) d h = (
  ground (arith, contains-append y xs (x ∷ []), d.0, str_eq_iff x y, str_eq_iff y x, h),
  Distinct-append x xs d.1 (ground (arith, h)),
)

pub append_once-Distinct :
    (x : String) (xs : List String) → Distinct xs → Distinct (append_once x xs)
unfolding append_once
append_once-Distinct x xs d = elim (Bool-cases (contains x xs)) [
  | inl old ↦ rw old d
  | inr new ↦ rw new (Distinct-append x xs d new)
]

pub mark_ran-Distinct :
    (agent : Option String) (ran : List String) → Distinct ran → Distinct (mark_ran agent ran)
unfolding mark_ran
mark_ran-Distinct none ran d = d
mark_ran-Distinct (some agent) ran d = elim (Bool-cases (agent == "")) [
  | inl no_id ↦ rw no_id d
  | inr id ↦ rw id (append_once-Distinct agent ran d)
]
