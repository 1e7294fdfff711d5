-- ===== src/Samples/Events.antt =====
-- The emitter of a run of two tasks.
use delaxis.Prelude.{ℕ, none, some, String, true, List, [], ◌∷◌, contains, refl, Distinct}
use delaxis.ExecutionEvents.{TaskMeta, TaskOutput}
use delaxis.ExecutionEvents.Operations.{emitter, register_tasks, on_kickoff_start}
use delaxis.ExecutionEvents.Invariants.{IsSound, callbacks-IsSound}
use delaxis.ExecutionEvents.Callbacks.{task_done, tool_began, perform_all}
use delaxis.ExecutionEvents.Sequential.{milestones, ids, report_all}
use delaxis.ExecutionEvents.Timeline.{emitted-IsTimeline}
use delaxis.ExecutionEvents.Streams.{IsTimeline}

abbrev meta : String → List String → ℕ → TaskMeta
meta i upstream n = record {
  node_id = i;
  agent_id = some i;
  index = n;
  description = "do it";
  expected_output = none;
  upstream_node_ids = upstream;
}

abbrev metas : List TaskMeta
metas = meta "a" [] 0 ∷ meta "b" ("a" ∷ []) 1 ∷ []

abbrev output : String → TaskOutput
output i = record {
  name = some i;
  raw = some "done";
  text = "done";
  agent = none;
  expected_output = none;
  description = none;
}

callbacks-IsSound_example : IsSound (
    perform_all
      (task_done 7 (output "a") ∷ tool_began "search" "search" [] ∷ task_done 9 (output "b") ∷ [])
      (on_kickoff_start 5 (register_tasks metas true (emitter true "hello"))))
callbacks-IsSound_example =
    callbacks-IsSound 5 metas true true "hello"
      (task_done 7 (output "a") ∷ tool_began "search" "search" [] ∷ task_done 9 (output "b") ∷ [])

metas_distinct : Distinct (ids metas)
unfolding contains
metas_distinct = (refl, (refl, tt))

emitted-IsTimeline_example : IsTimeline [] metas (output "a" ∷ []) (
    milestones
      (perform_all
        (report_all ((7, output "a") ∷ []))
        (on_kickoff_start 5 (register_tasks metas true (emitter true "hello")))).emitted)
emitted-IsTimeline_example =
    emitted-IsTimeline 5 "hello" metas ((7, output "a") ∷ []) metas_distinct (refl, tt)
