-- ===== src/ExecutionEvents/Steps.antt =====
-- src/crewai_runtime/execution_events.py: the methods of ExecutionEventEmitter that follow the agents
-- and the tools, and the summaries of a run.
use delaxis.Prelude.{
  ℕ, ◌-◌, nat_eq, String, ◌==◌, Bool, not, ◌||◌, Option, none, some, List, [], ◌∷◌, ◌++◌, contains,
  lookup, keys, if◌then◌else◌,
}
use delaxis.ExecutionEvents.{
  TaskMeta, truncate, truncate_given, NodeInput, NodeOutput, ToolCall, node_output, agent_transfer,
  tool_call_start, tool_call_result, reasoning_delta, Emitter, AgentStep,
}
use delaxis.ExecutionEvents.Operations.{append_once, emit, set_key}

-- `setdefault(node_id, started)`
unfoldable pub set_default {ℓ} : {V : Type ℓ} → String → V → List (String × V) → List (String × V)
set_default k v d = if contains k (keys d) then d else d ++ (k, v) ∷ []

unfoldable pub transfer : Bool → ℕ → String → String → String → Emitter → Emitter
transfer first now agent node from e =
    if first
    then emit (agent_transfer node from agent)
        (record e { started_at = set_default node now e.started_at })
    else e

-- `… if started_at else None`: a start at 0 counts as none.
unfoldable pub duration_from : ℕ → Option ℕ → Option ℕ
duration_from now none = none
duration_from now (some started) = if nat_eq started 0 then none else some (now - started)

unfoldable pub final_output : String → String → NodeOutput
final_output agent text = record {
  raw = (truncate text).0;
  agent = some agent;
  expected_output = none;
  description = none;
  truncated = (truncate text).1;
}

unfoldable pub finish_step : ℕ → String → String → AgentStep → Option String → Emitter → Emitter
finish_step now agent node step none e = e
finish_step now agent node step (some text) e =
    if step.has_tool
    then e
    else emit
        (node_output node (some agent) (final_output agent text)
          (duration_from now (lookup node e.started_at)))
        (record e { outputs = set_key node (final_output agent text) e.outputs })

unfoldable pub delegated_step :
    Bool → ℕ → String → AgentStep → Option String → Option String → Emitter → Emitter
delegated_step first now agent step none _ e = e
delegated_step first now agent step (some from) none e = e
delegated_step first now agent step (some from) (some node) e =
    finish_step now agent node step step.output (transfer first now agent node from e)

unfoldable pub agent_step :
    ℕ → String → Option String → AgentStep → Option String → Emitter → Emitter
agent_step now agent node step from e =
    delegated_step (not (contains agent e.agents_ran)) now agent step from node
      (record e { agents_ran = append_once agent e.agents_ran })

unfoldable pub truncate_args : List (String × String) → List (String × String)
truncate_args [] = []
truncate_args ((k, v) ∷ args) = (k, (truncate v).0) ∷ truncate_args args

unfoldable pub tool_started : String → String → List (String × String) → Emitter → Emitter
tool_started tool_id name kwargs e =
    emit (tool_call_start name tool_id (truncate_args kwargs)) (record e {
      tool_io =
          set_key name
            (record {
              tool_id = tool_id;
              args = some (truncate_args kwargs);
              result = none;
              error = none;
              duration_ms = none;
            })
            e.tool_io;
      tools_called = append_once tool_id e.tools_called;
    })

-- `if error: payload["error"] = error`, over what the record holds.
unfoldable pub error_or : Option String → Option String → Option String
error_or none old = old
error_or (some s) old = if s == "" then old else some s

-- The record of the call before, or a new one with no more than its tool.
unfoldable pub call_or_new : String → Option ToolCall → ToolCall
call_or_new tool_id (some call) = call
call_or_new tool_id none = record {
  tool_id = tool_id;
  args = none;
  result = none;
  error = none;
  duration_ms = none;
}

unfoldable pub tool_finished :
    String → String → Option String → Option String → Option ℕ → Emitter → Emitter
tool_finished tool_id name result error duration_ms e =
    let call = call_or_new tool_id (lookup name e.tool_io) in
    emit (tool_call_result name tool_id (truncate_given result) (error_or error none) duration_ms)
      (record e {
        tool_io =
            set_key name
              (record call {
                result = truncate_given result;
                error = error_or error call.error;
                duration_ms = duration_ms;
              })
              e.tool_io;
      })

unfoldable pub emit_trace : String → Option String → Emitter → Emitter
emit_trace step agent e = emit (reasoning_delta step agent) e

pub record NodeIo : Type 0 where
  pub input : Option NodeInput
  pub output : Option NodeOutput

unfoldable pub node_io_from :
    List TaskMeta → Emitter → List (String × NodeIo) → List (String × NodeIo)
node_io_from [] e io = io
node_io_from (m ∷ metas) e io = node_io_from metas e (
    if contains m.node_id (keys e.inputs) || contains m.node_id (keys e.outputs)
    then set_key m.node_id
        (record { input = lookup m.node_id e.inputs; output = lookup m.node_id e.outputs }) io
    else io)

unfoldable pub node_io : Emitter → List (String × NodeIo)
node_io e = node_io_from e.metas e []
