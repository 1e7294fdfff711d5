-- ===== src/ExecutionEvents/Operations.antt =====
-- src/crewai_runtime/execution_events.py: the methods of ExecutionEventEmitter that follow the tasks.
-- The readings of the clock, in milliseconds, are arguments; those of one call are taken to be equal.
use delaxis.Prelude.{
  ℕ, zero, suc, ◌-◌, String, ◌==◌, Bool, true, false, ◌||◌, Option, none, some, List, [], ◌∷◌, ◌++◌,
  contains, lookup, keys, if◌then◌else◌,
}
use delaxis.Crew.Text.{text_or}
use delaxis.ExecutionEvents.{
  TaskMeta, take_chars, truncate, truncate_given, NodeInput, NodeOutput, Event, node_started,
  node_input, node_output, Emitter, TaskOutput,
}

-- `d[k] = v`
unfoldable pub set_key {ℓ} : {V : Type ℓ} → String → V → List (String × V) → List (String × V)
set_key k v [] = (k, v) ∷ []
set_key k v ((j, w) ∷ d) = let rest = set_key k v d in if j == k then (j, v) ∷ d else (j, w) ∷ rest

unfoldable pub emitter : Bool → String → Emitter
emitter has_sink message = record {
  has_sink = has_sink;
  message = message;
  metas = [];
  sequential = true;
  inputs = [];
  outputs = [];
  started_at = [];
  completed = 0;
  tool_io = [];
  agents_ran = [];
  tools_called = [];
  emitted = [];
}

unfoldable pub emit : Event → Emitter → Emitter
emit event e = record e { emitted = if e.has_sink then e.emitted ++ event ∷ [] else e.emitted }

unfoldable pub register_tasks : List TaskMeta → Bool → Emitter → Emitter
register_tasks metas sequential e = record e { metas = metas; sequential = sequential }

-- The outputs that are known of the upstream nodes.
unfoldable pub context_of : List String → List (String × NodeOutput) → List (String × String)
context_of [] outputs = []
context_of (i ∷ ids) outputs =
    let rest = context_of ids outputs in
    elim (lookup i outputs) [ none ↦ rest | some o ↦ (i, o.raw) ∷ rest ]

unfoldable pub input_of : TaskMeta → Emitter → NodeInput
input_of m e = record {
  description = (truncate m.description).0;
  message = (truncate e.message).0;
  context = context_of m.upstream_node_ids e.outputs;
  truncated = (truncate m.description).1 || (truncate e.message).1;
}

unfoldable pub record_and_emit_input : ℕ → TaskMeta → Emitter → Emitter
record_and_emit_input now m e = emit (node_input m.node_id m.agent_id (input_of m e)) (
    emit (node_started m.node_id m.agent_id m.index (take_chars 240 m.description)) (record e {
      inputs = set_key m.node_id (input_of m e) e.inputs;
      started_at = set_key m.node_id now e.started_at;
    }))

unfoldable pub announce_first : ℕ → List TaskMeta → Emitter → Emitter
announce_first now [] e = e
announce_first now (m ∷ metas) e = record_and_emit_input now m e

unfoldable pub on_kickoff_start : ℕ → Emitter → Emitter
on_kickoff_start now e = if e.sequential then announce_first now e.metas e else e

-- `m.node_id == name`
unfoldable pub is_named : Option String → TaskMeta → Bool
is_named none m = false
is_named (some name) m = m.node_id == name

unfoldable pub find_named : Option String → List TaskMeta → Option TaskMeta
find_named name [] = none
find_named name (m ∷ metas) =
    let rest = find_named name metas in if is_named name m then some m else rest

unfoldable pub nth_meta : ℕ → List TaskMeta → Option TaskMeta
nth_meta n [] = none
nth_meta zero (m ∷ metas) = some m
nth_meta (suc n) (m ∷ metas) = nth_meta n metas

-- `if meta is None and self._completed < len(self._metas): …`
unfoldable pub or_next : Option TaskMeta → ℕ → List TaskMeta → Option TaskMeta
or_next (some m) completed metas = some m
or_next none completed metas = nth_meta completed metas

unfoldable pub append_once : String → List String → List String
append_once x xs = if contains x xs then xs else xs ++ x ∷ []

-- `if meta.agent_id and …: self._agents_ran.append(meta.agent_id)`
unfoldable pub mark_ran : Option String → List String → List String
mark_ran none ran = ran
mark_ran (some agent) ran = if agent == "" then ran else append_once agent ran

unfoldable pub given_or : Option String → Option String → Option String
given_or none default = default
given_or (some s) default = if s == "" then default else some s

unfoldable pub output_of : TaskOutput → TaskMeta → NodeOutput
output_of o m = record {
  raw = (truncate (text_or o.raw o.text)).0;
  agent = o.agent;
  expected_output = given_or o.expected_output m.expected_output;
  description = truncate_given o.description;
  truncated = (truncate (text_or o.raw o.text)).1;
}

unfoldable pub duration : ℕ → Option ℕ → Option ℕ
duration now none = none
duration now (some started) = some (now - started)

unfoldable pub announce : Bool → ℕ → TaskMeta → Emitter → Emitter
announce known now m e = if known then e else record_and_emit_input now m e

unfoldable pub record_output : ℕ → TaskOutput → TaskMeta → Emitter → Emitter
record_output now o m e =
    emit
      (node_output m.node_id m.agent_id (output_of o m)
        (duration now (lookup m.node_id e.started_at)))
      (record e { outputs = set_key m.node_id (output_of o m) e.outputs })

unfoldable pub next_meta : List TaskMeta → List (String × NodeInput) → Option TaskMeta
next_meta [] inputs = none
next_meta (m ∷ metas) inputs =
    let rest = next_meta metas inputs in if contains m.node_id (keys inputs) then rest else some m

unfoldable pub announce_if : Bool → ℕ → Option TaskMeta → Emitter → Emitter
announce_if false now found e = e
announce_if true now none e = e
announce_if true now (some m) e = record_and_emit_input now m e

unfoldable pub announce_next : ℕ → Emitter → Emitter
announce_next now e = announce_if e.sequential now (next_meta e.metas e.inputs) e

-- The part of `_handle_task_output` after the search for the metadata.
unfoldable pub handle_meta : ℕ → TaskOutput → Option TaskMeta → Emitter → Emitter
handle_meta now o none e = e
handle_meta now o (some m) e =
    let ran : Emitter = record e { agents_ran = mark_ran m.agent_id e.agents_ran } in
    announce_next now
      (record_output now o m (announce (contains m.node_id (keys e.inputs)) now m ran))

unfoldable pub handle_task_output : ℕ → TaskOutput → Emitter → Emitter
handle_task_output now o e =
    handle_meta now o (or_next (find_named o.name e.metas) e.completed e.metas)
      (record e { completed = suc e.completed })
