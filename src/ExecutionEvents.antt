-- ===== src/ExecutionEvents.antt =====
-- src/crewai_runtime/execution_events.py: the events of a run, and what the emitter keeps. Payloads are
-- texts; a text too long for the stream is cut. `emitted` is what was handed to the sink, whether or
-- not the sink then failed.
pub mod Operations
pub mod Steps
pub mod Callbacks
pub mod Invariants
pub mod Sequential
pub mod Streams
pub mod Timeline
use Prim.Native.String.{[] as empty, ◌∷◌, count, ◌++◌}
use delaxis.Prelude.{
  ℕ, zero, suc, String, ltb, Bool, true, false, Option, none, some, List, if◌then◌else◌,
}

pub record TaskMeta : Type 0 where
  pub node_id : String
  pub agent_id : Option String
  pub index : ℕ
  pub description : String
  pub expected_output : Option String
  pub upstream_node_ids : List String

abbrev pub max_text_chars : ℕ
max_text_chars = 6000

-- `s[:n]`
unfoldable pub take_chars : ℕ → String → String
take_chars zero s = empty
take_chars (suc n) empty = empty
take_chars (suc n) (c ∷ s) = c ∷ take_chars n s

unfoldable pub truncate : String → String × Bool
truncate s =
    if ltb max_text_chars (count s)
    then (take_chars max_text_chars s ++ "… [truncated]", true)
    else (s, false)

unfoldable pub truncate_given : Option String → Option String
truncate_given none = none
truncate_given (some s) = some (truncate s).0

pub record NodeInput : Type 0 where
  pub description : String
  pub message : String
  pub context : List (String × String)
  pub truncated : Bool

pub record NodeOutput : Type 0 where
  pub raw : String
  pub agent : Option String
  pub expected_output : Option String
  pub description : Option String
  pub truncated : Bool

-- The last call of a tool; a field that the record lacks is none.
pub record ToolCall : Type 0 where
  pub tool_id : String
  pub args : Option (List (String × String))
  pub result : Option String
  pub error : Option String
  pub duration_ms : Option ℕ

pub data Event : Type 0 where
  node_started : String → Option String → ℕ → String → Event
  node_input : String → Option String → NodeInput → Event
  node_output : String → Option String → NodeOutput → Option ℕ → Event
  agent_transfer : String → String → String → Event
  tool_call_start : String → String → List (String × String) → Event
  tool_call_result : String → String → Option String → Option String → Option ℕ → Event
  reasoning_delta : String → Option String → Event

pub record Emitter : Type 0 where
  pub has_sink : Bool
  pub message : String
  pub metas : List TaskMeta
  pub sequential : Bool
  pub inputs : List (String × NodeInput)
  pub outputs : List (String × NodeOutput)
  pub started_at : List (String × ℕ)
  pub completed : ℕ
  pub tool_io : List (String × ToolCall)
  pub agents_ran : List String
  pub tools_called : List String
  pub emitted : List Event

-- What CrewAI hands to the callback: `raw`, and the text of the whole object.
pub record TaskOutput : Type 0 where
  pub name : Option String
  pub raw : Option String
  pub text : String
  pub agent : Option String
  pub expected_output : Option String
  pub description : Option String

-- What CrewAI hands to the callback of an agent: the text of `output`, if there is one.
pub record AgentStep : Type 0 where
  pub output : Option String
  pub has_tool : Bool
