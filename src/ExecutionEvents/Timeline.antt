-- ===== src/ExecutionEvents/Timeline.antt =====
-- src/crewai_runtime/execution_events.py: the stream of a sequential run is its timeline.
use delaxis.Prelude.{
  ℕ, suc, String, true, false, none, some, List, [], ◌∷◌, ◌++◌, contains, keys, map, ◌≡◌, refl, sym,
  ap, subst, ◌∙◌, arith, str_eq_refl, Distinct, contains-append, append_assoc,
}
use delaxis.ExecutionEvents.{TaskMeta, NodeOutput, Emitter, TaskOutput}
use delaxis.ExecutionEvents.Operations.{
  emitter, emit, register_tasks, context_of, input_of, record_and_emit_input, announce_first,
  on_kickoff_start, mark_ran, announce, output_of, record_output, next_meta, announce_if,
  announce_next, handle_meta, handle_task_output, or_next, find_named,
}
use delaxis.ExecutionEvents.Callbacks.{perform, perform_all, keys-set_key}
use delaxis.ExecutionEvents.Sequential.{
  Milestone, started, given, finished, milestones, timeline, Reports, ids, report_all,
  milestones-append, set_key-fresh, keys-append, Distinct-split, find_named-split, next_meta-skip,
}
use delaxis.ExecutionEvents.Streams.{IsTimeline, timeline-IsTimeline}

ids-append : (xs ys : List TaskMeta) → ids (xs ++ ys) ≡ ids xs ++ ids ys
ids-append [] ys = refl
ids-append (m ∷ xs) ys = ap (λ l. m.node_id ∷ l) (ids-append xs ys)

-- The emitter between two tasks: those of `done` have reported.
record Ready (done rest : List TaskMeta) (known : List (String × NodeOutput))
    (past : List Milestone) (e : Emitter) : Type 0 where
  all : e.metas ≡ done ++ rest
  ordered : e.sequential ≡ true
  sink : e.has_sink ≡ true
  announced : (x : String) → contains x (keys e.inputs) ≡ contains x (ids done)
  kept : e.outputs ≡ known
  reported : keys known ≡ ids done
  said : milestones e.emitted ≡ past

-- The emitter while the task of m runs.
record Running (done : List TaskMeta) (m : TaskMeta) (rest : List TaskMeta)
    (known : List (String × NodeOutput)) (past : List Milestone) (e : Emitter) : Type 0 where
  all : e.metas ≡ done ++ m ∷ rest
  ordered : e.sequential ≡ true
  sink : e.has_sink ≡ true
  announced : (x : String) → contains x (keys e.inputs) ≡ contains x (ids (done ++ m ∷ []))
  kept : e.outputs ≡ known
  reported : keys known ≡ ids done
  said :
      milestones e.emitted
      ≡ past ++ started m.node_id ∷ given m.node_id (context_of m.upstream_node_ids known) ∷ []

start-Running :
    (now : ℕ) (done rest : List TaskMeta) (m : TaskMeta) (known : List (String × NodeOutput))
    (past : List Milestone) (e : Emitter)
    → Ready done (m ∷ rest) known past e
    → Running done m rest known past (record_and_emit_input now m e)
unfolding record_and_emit_input emit milestones input_of contains
start-Running now done rest m known past e r = record {
  all = r.all;
  ordered = r.ordered;
  sink = r.sink;
  kept = r.kept;
  reported = r.reported;
  announced = λ x.
      keys-set_key x m.node_id (input_of m e) e.inputs
      ∙ (let now_in = ap (contains x) (ids-append done (m ∷ [])) in
          ground (arith, now_in, r.announced x, contains-append x (ids done) (m.node_id ∷ [])));
  said =
      rw
        (
          r.sink,
          milestones-append (e.emitted ++ _ ∷ []),
          milestones-append e.emitted,
          r.said,
          r.kept,
        )
        (append_assoc past _ _);
}

finish-Ready :
    (now : ℕ) (o : TaskOutput) (done rest : List TaskMeta) (m : TaskMeta)
    (known : List (String × NodeOutput)) (past : List Milestone) (e : Emitter)
    → contains m.node_id (ids done) ≡ false
    → Running done m rest known past e
    → Ready
        (done ++ m ∷ [])
        rest
        (known ++ (m.node_id, output_of o m) ∷ [])
        (past
          ++ started m.node_id
            ∷ given m.node_id (context_of m.upstream_node_ids known)
            ∷ finished m.node_id (output_of o m).raw
            ∷ [])
        (record_output now o m e)
unfolding record_output emit milestones
finish-Ready now o done rest m known past e fresh r = record {
  all = r.all ∙ sym (append_assoc done (m ∷ []) rest);
  ordered = r.ordered;
  sink = r.sink;
  announced = r.announced;
  kept =
      set_key-fresh m.node_id (output_of o m) e.outputs (
        ap (λ d. contains m.node_id (keys d)) r.kept ∙ (ap (contains m.node_id) r.reported ∙ fresh))
      ∙ ap (λ d. d ++ (m.node_id, output_of o m) ∷ []) r.kept;
  reported =
      keys-append known m.node_id (output_of o m)
      ∙ (ap (λ l. l ++ m.node_id ∷ []) r.reported ∙ sym (ids-append done (m ∷ [])));
  said = rw (r.sink, milestones-append e.emitted, r.said) (append_assoc past _ _);
}

-- The callback of the running task, up to the announcement of the next one.
report-Ready :
    (now : ℕ) (o : TaskOutput) (done rest : List TaskMeta) (m : TaskMeta)
    (known : List (String × NodeOutput)) (past : List Milestone) (e : Emitter)
    → contains m.node_id (ids done) ≡ false
    → o.name ≡ some m.node_id
    → Running done m rest known past e
    → (e' : Emitter) × (handle_task_output now o e ≡ announce_next now e')
      × Ready
          (done ++ m ∷ [])
          rest
          (known ++ (m.node_id, output_of o m) ∷ [])
          (past
            ++ started m.node_id
              ∷ given m.node_id (context_of m.upstream_node_ids known)
              ∷ finished m.node_id (output_of o m).raw
              ∷ [])
          e'
unfolding handle_task_output handle_meta or_next announce contains
report-Ready now o done rest m known past e fresh reports r =
    let counted : Emitter = record e {
      completed = suc e.completed;
      agents_ran = mark_ran m.agent_id e.agents_ran;
    } in
    let found : find_named o.name e.metas ≡ some m =
      ap (λ n. find_named n e.metas) reports
      ∙ (ap (find_named (some m.node_id)) r.all ∙ find_named-split done rest m fresh) in
    let here : contains m.node_id (keys e.inputs) ≡ true =
      r.announced m.node_id
      ∙ (ap (contains m.node_id) (ids-append done (m ∷ []))
          ∙ (contains-append m.node_id (ids done) (m.node_id ∷ [])
              ∙ ground (arith, str_eq_refl m.node_id))) in
    (
      record_output now o m counted,
      rw (found, here) refl,
      finish-Ready now o done rest m known past counted fresh (record {
        all = r.all;
        ordered = r.ordered;
        sink = r.sink;
        announced = r.announced;
        kept = r.kept;
        reported = r.reported;
        said = r.said;
      }),
    )

next-none :
    (done : List TaskMeta) (known : List (String × NodeOutput)) (past : List Milestone) (now : ℕ)
    (e : Emitter)
    → Ready done [] known past e
    → milestones (announce_next now e).emitted ≡ past
unfolding announce_next announce_if next_meta
next-none done known past now e r =
    let over : next_meta e.metas e.inputs ≡ none =
      ap (λ l. next_meta l e.inputs) r.all
      ∙ next_meta-skip done [] e.inputs (λ x h. r.announced x ∙ h) in
    rw (r.ordered, over) r.said

next-Running :
    (done rest : List TaskMeta) (m : TaskMeta) (known : List (String × NodeOutput))
    (past : List Milestone) (now : ℕ) (e : Emitter)
    → contains m.node_id (ids done) ≡ false
    → Ready done (m ∷ rest) known past e
    → Running done m rest known past (announce_next now e)
unfolding announce_next announce_if next_meta
next-Running done rest m known past now e fresh r =
    let unknown : contains m.node_id (keys e.inputs) ≡ false = r.announced m.node_id ∙ fresh in
    let next : next_meta e.metas e.inputs ≡ some m =
      ap (λ l. next_meta l e.inputs) r.all
      ∙ (next_meta-skip done (m ∷ rest) e.inputs (λ x h. r.announced x ∙ h) ∙ rw unknown refl) in
    subst (Running done m rest known past)
      (sym (
        ap (λ b. announce_if b now (next_meta e.metas e.inputs) e) r.ordered
        ∙ ap (λ f. announce_if true now f e) next))
      (start-Running now done rest m known past e r)

run-timeline :
    (reports : List (ℕ × TaskOutput)) (done rest : List TaskMeta) (m : TaskMeta)
    (known : List (String × NodeOutput)) (past : List Milestone) (e : Emitter)
    → Distinct (ids (done ++ m ∷ rest))
    → Reports (m ∷ rest) (map (λ r. r.1) reports)
    → Running done m rest known past e
    → milestones (perform_all (report_all reports) e).emitted
      ≡ past ++ timeline known (m ∷ rest) (map (λ r. r.1) reports)
unfolding perform_all perform report_all timeline
run-timeline [] done rest m known past e distinct r running = running.said
run-timeline ((now, o) ∷ []) done [] m known past e distinct r running =
    let fresh =
      Distinct-split (ids done) [] m.node_id (subst Distinct (ids-append done (m ∷ [])) distinct) in
    let (e', same, ready) = report-Ready now o done [] m known past e fresh r.0 running in
    ap (λ x. milestones x.emitted) same ∙ next-none _ _ _ now e' ready
run-timeline ((now, o) ∷ report ∷ reports) done [] m known past e distinct r running = absurd r.1
run-timeline ((now, o) ∷ reports) done (n ∷ rest) m known past e distinct r running =
    let fresh =
      Distinct-split (ids done) (ids (n ∷ rest)) m.node_id
        (subst Distinct (ids-append done (m ∷ n ∷ rest)) distinct) in
    let (e', same, ready) = report-Ready now o done (n ∷ rest) m known past e fresh r.0 running in
    let distinct' : Distinct (ids ((done ++ m ∷ []) ++ n ∷ rest)) =
      subst (λ l. Distinct (ids l)) (sym (append_assoc done (m ∷ []) (n ∷ rest))) distinct in
    let fresh' =
      Distinct-split (ids (done ++ m ∷ [])) (ids rest) n.node_id
        (subst Distinct (ids-append (done ++ m ∷ []) (n ∷ rest)) distinct') in
    ap (λ x. milestones (perform_all (report_all reports) x).emitted) same
    ∙ (run-timeline reports (done ++ m ∷ []) rest n (known ++ (m.node_id, output_of o m) ∷ []) _
          (announce_next now e') distinct' r.1
          (next-Running (done ++ m ∷ []) rest n _ _ now e' fresh' ready)
        ∙ append_assoc past _ _)

emitted_lem :
    (now : ℕ) (message : String) (metas : List TaskMeta) (reports : List (ℕ × TaskOutput))
    → Distinct (ids metas)
    → Reports metas (map (λ r. r.1) reports)
    → milestones
        (perform_all
          (report_all reports)
          (on_kickoff_start now (register_tasks metas true (emitter true message)))).emitted
      ≡ timeline [] metas (map (λ r. r.1) reports)
unfolding on_kickoff_start register_tasks emitter announce_first milestones timeline perform_all
    report_all keys contains
emitted_lem now message [] [] distinct r = refl
emitted_lem now message [] (report ∷ reports) distinct r = absurd r
emitted_lem now message (m ∷ metas) reports distinct r =
    run-timeline reports [] metas m [] [] _ distinct r (
      start-Running now [] metas m [] [] _ (record {
        all = refl;
        ordered = refl;
        sink = refl;
        announced = λ x. refl;
        kept = refl;
        reported = refl;
        said = refl;
      }))

-- In a sequential run of tasks for distinct nodes, whose sink is given and in which the first tasks
-- report in order, the stream is at each point the one described: a node starts when the
-- one before it has put out its output; it is given, of each of its upstream nodes that has reported, the
-- text that was shown for it, and no other; and what is shown for a node is the raw text that its task reported, or the text of the whole
-- object if that is empty, cut after 6000 characters and marked as cut.
pub emitted-IsTimeline :
    (now : ℕ) (message : String) (metas : List TaskMeta) (reports : List (ℕ × TaskOutput))
    → Distinct (ids metas)
    → Reports metas (map (λ r. r.1) reports)
    → IsTimeline [] metas (map (λ r. r.1) reports) (
        milestones
          (perform_all
            (report_all reports)
            (on_kickoff_start now (register_tasks metas true (emitter true message)))).emitted)
emitted-IsTimeline now message metas reports distinct r =
    subst (IsTimeline [] metas (map (λ r. r.1) reports))
      (sym (emitted_lem now message metas reports distinct r))
      (timeline-IsTimeline [] metas (map (λ r. r.1) reports))
