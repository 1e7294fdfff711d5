-- ===== src/ExecutionEvents/Invariants.antt =====
-- src/crewai_runtime/execution_events.py: what holds after any sequence of callbacks, in any order.
use delaxis.Prelude.{
  ℕ, String, Bool, true, false, Option, none, some, List, [], ◌∷◌, contains, keys, ◌≡◌, refl, sym,
  subst, ◌∙◌, arith, Bool-cases, inl, inr, Distinct, Subset, contains-append, append-nil,
}
use delaxis.ExecutionEvents.{TaskMeta, NodeInput, Event, Emitter, TaskOutput, AgentStep}
use delaxis.ExecutionEvents.Operations.{
  emitter, emit, register_tasks, input_of, record_and_emit_input, announce_first, on_kickoff_start,
  mark_ran, announce, record_output, next_meta, announce_if, announce_next, handle_meta,
  handle_task_output,
}
use delaxis.ExecutionEvents.Steps.{
  transfer, finish_step, delegated_step, agent_step, tool_started, tool_finished, emit_trace,
}
use delaxis.ExecutionEvents.Callbacks.{
  Callback, Distinct-append, agent_stepped, append_once-Distinct, keys-set_key, mark_ran-Distinct,
  perform, perform_all, started_nodes, started_nodes-append, task_done, tool_began, tool_ended,
  traced,
}

-- No agent is reported twice, no tool is, no node is announced twice, and an announced node has its
-- input recorded.
pub record IsSound (e : Emitter) : Type 0 where
  pub agents : Distinct e.agents_ran
  pub tools : Distinct e.tools_called
  pub once : Distinct (started_nodes e.emitted)
  pub recorded : Subset (started_nodes e.emitted) (keys e.inputs)

-- Two emitters that agree in what the invariant speaks of.
record Agrees (e e' : Emitter) : Type 0 where
  ran : e'.agents_ran ≡ e.agents_ran
  called : e'.tools_called ≡ e.tools_called
  started : started_nodes e'.emitted ≡ started_nodes e.emitted
  inputs : e'.inputs ≡ e.inputs

Agrees-IsSound : (e e' : Emitter) → Agrees e e' → IsSound e → IsSound e'
Agrees-IsSound e e' same s = record {
  agents = subst Distinct (sym same.ran) s.agents;
  tools = subst Distinct (sym same.called) s.tools;
  once = subst Distinct (sym same.started) s.once;
  recorded =
      subst (λ l. Subset l (keys e'.inputs)) (sym same.started)
        (subst (λ d. Subset (started_nodes e.emitted) (keys d)) (sym same.inputs) s.recorded);
}

quiet_emit :
    (event : Event) (e : Emitter) → started_nodes (event ∷ []) ≡ [] → Agrees e (emit event e)
unfolding emit
quiet_emit event e quiet = record {
  ran = refl;
  called = refl;
  inputs = refl;
  started = elim (Bool-cases e.has_sink) [
    | inl sink ↦
        rw (sink, started_nodes-append e.emitted (event ∷ []), quiet)
          (append-nil (started_nodes e.emitted))
    | inr none_given ↦ rw none_given refl
  ];
}

emit-IsSound :
    (event : Event) (e : Emitter)
    → started_nodes (event ∷ []) ≡ []
    → IsSound e
    → IsSound (emit event e)
emit-IsSound event e quiet s = Agrees-IsSound e (emit event e) (quiet_emit event e quiet) s

start-once :
    (now : ℕ) (m : TaskMeta) (e : Emitter)
    → contains m.node_id (keys e.inputs) ≡ false
    → IsSound e
    → contains m.node_id (started_nodes e.emitted) ≡ false
start-once now m e fresh s = elim (Bool-cases (contains m.node_id (started_nodes e.emitted))) [
  | inl old ↦ absurd (let known = s.recorded m.node_id old in cc)
  | inr new ↦ new
]

record_and_emit_input-IsSound :
    (now : ℕ) (m : TaskMeta) (e : Emitter)
    → contains m.node_id (keys e.inputs) ≡ false
    → IsSound e
    → IsSound (record_and_emit_input now m e)
unfolding record_and_emit_input emit started_nodes contains
record_and_emit_input-IsSound now m e fresh s =
    emit-IsSound _ _ refl (elim (Bool-cases e.has_sink) [
      | inl sink ↦ record {
        agents = s.agents;
        tools = s.tools;
        once =
            rw (sink, started_nodes-append e.emitted)
              (Distinct-append m.node_id (started_nodes e.emitted) s.once
                (start-once now m e fresh s));
        recorded = λ x h.
            keys-set_key x m.node_id (input_of m e) e.inputs
            ∙ (let h' = (rw (sink, started_nodes-append e.emitted) at h) in
                ground (
                  arith,
                  contains-append x (started_nodes e.emitted) (m.node_id ∷ []),
                  s.recorded x,
                ));
      }
      | inr none_given ↦ record {
        agents = s.agents;
        tools = s.tools;
        once = rw none_given s.once;
        recorded = λ x h.
            keys-set_key x m.node_id (input_of m e) e.inputs
            ∙ (let h' = (rw none_given at h) in ground (arith, s.recorded x));
      }
    ])

next_meta-fresh :
    (metas : List TaskMeta) (inputs : List (String × NodeInput)) (m : TaskMeta)
    → next_meta metas inputs ≡ some m
    → contains m.node_id (keys inputs) ≡ false
unfolding next_meta
next_meta-fresh [] inputs m e = cc
next_meta-fresh (n ∷ metas) inputs m e = elim (Bool-cases (contains n.node_id (keys inputs))) [
  | inl known ↦ next_meta-fresh metas inputs m (rw known at e)
  | inr fresh ↦
      (let e' : some n ≡ some m = (rw fresh at e) in
        let same : n ≡ m = cc in subst (λ k. contains k.node_id (keys inputs) ≡ false) same fresh)
]

announce-IsSound :
    (now : ℕ) (m : TaskMeta) (e : Emitter)
    → IsSound e
    → IsSound (announce (contains m.node_id (keys e.inputs)) now m e)
unfolding announce
announce-IsSound now m e s = elim (Bool-cases (contains m.node_id (keys e.inputs))) [
  | inl known ↦ rw known s
  | inr fresh ↦ rw fresh (record_and_emit_input-IsSound now m e fresh s)
]

announce_if-IsSound :
    (b : Bool) (now : ℕ) (found : Option TaskMeta) (e : Emitter)
    → ((m : TaskMeta) → found ≡ some m → contains m.node_id (keys e.inputs) ≡ false)
    → IsSound e
    → IsSound (announce_if b now found e)
unfolding announce_if
announce_if-IsSound false now found e fresh s = s
announce_if-IsSound true now none e fresh s = s
announce_if-IsSound true now (some m) e fresh s =
    record_and_emit_input-IsSound now m e (fresh m refl) s

announce_next-IsSound : (now : ℕ) (e : Emitter) → IsSound e → IsSound (announce_next now e)
unfolding announce_next
announce_next-IsSound now e s =
    announce_if-IsSound e.sequential now _ e (λ m next. next_meta-fresh e.metas e.inputs m next) s

record_output-IsSound :
    (now : ℕ) (o : TaskOutput) (m : TaskMeta) (e : Emitter)
    → IsSound e
    → IsSound (record_output now o m e)
unfolding record_output started_nodes
record_output-IsSound now o m e s =
    emit-IsSound _ _ refl
      (record { agents = s.agents; tools = s.tools; once = s.once; recorded = s.recorded })

handle_meta-IsSound :
    (now : ℕ) (o : TaskOutput) (found : Option TaskMeta) (e : Emitter)
    → IsSound e
    → IsSound (handle_meta now o found e)
unfolding handle_meta
handle_meta-IsSound now o none e s = s
handle_meta-IsSound now o (some m) e s =
    let ran : Emitter = record e { agents_ran = mark_ran m.agent_id e.agents_ran } in
    announce_next-IsSound now _ (
      record_output-IsSound now o m _ (
        announce-IsSound now m ran (record {
          agents = mark_ran-Distinct m.agent_id e.agents_ran s.agents;
          tools = s.tools;
          once = s.once;
          recorded = s.recorded;
        })))

finish_step-IsSound :
    (now : ℕ) (agent node : String) (step : AgentStep) (text : Option String) (e : Emitter)
    → IsSound e
    → IsSound (finish_step now agent node step text e)
unfolding finish_step started_nodes
finish_step-IsSound now agent node step none e s = s
finish_step-IsSound now agent node step (some text) e s = elim (Bool-cases step.has_tool) [
  | inl tool ↦ rw tool s
  | inr final ↦ rw final (
      emit-IsSound _ _ refl
        (record { agents = s.agents; tools = s.tools; once = s.once; recorded = s.recorded }))
]

delegated_step-IsSound :
    (first : Bool) (now : ℕ) (agent : String) (step : AgentStep) (from node : Option String)
    (e : Emitter)
    → IsSound e
    → IsSound (delegated_step first now agent step from node e)
unfolding delegated_step transfer started_nodes
delegated_step-IsSound first now agent step none _ e s = s
delegated_step-IsSound first now agent step (some from) none e s = s
delegated_step-IsSound true now agent step (some from) (some node) e s =
    finish_step-IsSound now agent node step step.output _ (
      emit-IsSound _ _ refl
        (record { agents = s.agents; tools = s.tools; once = s.once; recorded = s.recorded }))
delegated_step-IsSound false now agent step (some from) (some node) e s =
    finish_step-IsSound now agent node step step.output e s

perform-IsSound : (c : Callback) (e : Emitter) → IsSound e → IsSound (perform c e)
unfolding perform handle_task_output agent_step tool_started tool_finished emit_trace started_nodes
perform-IsSound (task_done now o) e s =
    handle_meta-IsSound now o _ _
      (record { agents = s.agents; tools = s.tools; once = s.once; recorded = s.recorded })
perform-IsSound (agent_stepped now agent node step from) e s =
    delegated_step-IsSound _ now agent step from node _ (record {
      agents = append_once-Distinct agent e.agents_ran s.agents;
      tools = s.tools;
      once = s.once;
      recorded = s.recorded;
    })
perform-IsSound (tool_began tool_id name kwargs) e s = emit-IsSound _ _ refl (record {
  agents = s.agents;
  tools = append_once-Distinct tool_id e.tools_called s.tools;
  once = s.once;
  recorded = s.recorded;
})
perform-IsSound (tool_ended tool_id name result error ms) e s =
    emit-IsSound _ _ refl
      (record { agents = s.agents; tools = s.tools; once = s.once; recorded = s.recorded })
perform-IsSound (traced step agent) e s = emit-IsSound _ _ refl s

perform_all-IsSound :
    (callbacks : List Callback) (e : Emitter) → IsSound e → IsSound (perform_all callbacks e)
unfolding perform_all
perform_all-IsSound [] e s = s
perform_all-IsSound (c ∷ callbacks) e s =
    perform_all-IsSound callbacks (perform c e) (perform-IsSound c e s)

kickoff-IsSound :
    (now : ℕ) (metas : List TaskMeta) (sequential has_sink : Bool) (message : String)
    → IsSound (on_kickoff_start now (register_tasks metas sequential (emitter has_sink message)))
unfolding on_kickoff_start register_tasks emitter announce_first started_nodes keys contains
kickoff-IsSound now metas false has_sink message = record {
  agents = tt;
  tools = tt;
  once = tt;
  recorded = λ x h. h;
}
kickoff-IsSound now [] true has_sink message = record {
  agents = tt;
  tools = tt;
  once = tt;
  recorded = λ x h. h;
}
kickoff-IsSound now (m ∷ metas) true has_sink message =
    record_and_emit_input-IsSound now m _ refl
      (record { agents = tt; tools = tt; once = tt; recorded = λ x h. h })

-- After a kickoff and any callbacks, in any order: agents_ran and tools_called name nobody twice, no
-- node is announced by node_started twice, and every announced node has its input recorded.
pub callbacks-IsSound :
    (now : ℕ) (metas : List TaskMeta) (sequential has_sink : Bool) (message : String)
    (callbacks : List Callback)
    → IsSound (
        perform_all callbacks
          (on_kickoff_start now (register_tasks metas sequential (emitter has_sink message))))
callbacks-IsSound now metas sequential has_sink message callbacks =
    perform_all-IsSound callbacks _ (kickoff-IsSound now metas sequential has_sink message)
