-- ===== src/Validation/Verdict.antt =====
-- A workflow is called valid exactly if it is well formed.
use delaxis.Prelude.{
  ℕ, ◌+◌, String, eq_iff, true, List, [], ◌∷◌, ◌++◌, contains, ◌≡◌, refl, ◌↔◌, ◌⊎◌, All, arith,
}
use delaxis.Prelude.Outcome.{Returns, Returns-bind}
use delaxis.Graph.{IsAcyclic}
use delaxis.Graph.Chains.{IsCycle→Reaches}
use delaxis.Cycles.{Connection, detect_cycles}
use delaxis.Cycles.Building.{Links}
use delaxis.Cycles.Report.{Findings, detect_cycles_lem}
use delaxis.Validation.{
  Node, ValidationError, validate_agent_references, node_ids, known_type, connection_errors,
  connections_errors, validate_connections, cycle_errors, Validation, is_empty, validate_workflow,
}

-- Both ends are nodes of the canvas, and the type is one of the two.
abbrev pub IsWired : List String → Connection → Type 0
IsWired ids c =
    (contains c.from_node ids ≡ true)
    × (contains c.to_node ids ≡ true)
    × ((c.type ≡ "sequential") ⊎ (c.type ≡ "parallel"))

pub record IsWellFormed (nodes : List Node) (connections : List Connection) (agents : List String)
    : Type 0 where
  pub agents_known : All (λ n. contains n.agent_id agents ≡ true) nodes
  pub wired : All (IsWired (node_ids nodes)) connections
  pub acyclic : IsAcyclic (Links connections)

append-nil_iff : (xs ys : List ValidationError) → ((xs ++ ys) ≡ []) ↔ ((xs ≡ []) × (ys ≡ []))
append-nil_iff [] ys = ground arith
append-nil_iff (x ∷ xs) ys = ground arith

pub is_empty_iff : (es : List ValidationError) → (is_empty es ≡ true) ↔ (es ≡ [])
unfolding is_empty
is_empty_iff [] = ground arith
is_empty_iff (e ∷ es) = ground arith

-- No error is reported exactly if every agent is available.
pub validate_agent_references-nil :
    (nodes : List Node) (available : List String)
    → (validate_agent_references nodes available ≡ [])
      ↔ All (λ n. contains n.agent_id available ≡ true) nodes
unfolding validate_agent_references
validate_agent_references-nil [] available = ground arith
validate_agent_references-nil (n ∷ nodes) available =
    ground (arith, validate_agent_references-nil nodes available)

connection_errors-nil :
    (ids : List String) (i : ℕ) (c : Connection) → (connection_errors ids i c ≡ []) ↔ IsWired ids c
unfolding connection_errors known_type
connection_errors-nil ids i c = ground (arith, eq_iff c.type "sequential", eq_iff c.type "parallel")

connections_errors-nil :
    (ids : List String) (i : ℕ) (cs : List Connection)
    → (connections_errors ids i cs ≡ []) ↔ All (IsWired ids) cs
unfolding connections_errors
connections_errors-nil ids i [] = ground arith
connections_errors-nil ids i (c ∷ cs) = ground (
  arith,
  append-nil_iff (connection_errors ids i c) (connections_errors ids (i + 1) cs),
  connection_errors-nil ids i c,
  connections_errors-nil ids (i + 1) cs,
)

pub validate_connections-nil :
    (nodes : List Node) (cs : List Connection)
    → (validate_connections nodes cs ≡ []) ↔ All (IsWired (node_ids nodes)) cs
unfolding validate_connections
validate_connections-nil nodes cs = connections_errors-nil (node_ids nodes) 0 cs

cycle_errors-nil : (cycles : List (List String)) → (cycle_errors cycles ≡ []) ↔ (cycles ≡ [])
unfolding cycle_errors
cycle_errors-nil [] = ground arith
cycle_errors-nil (c ∷ cs) = ground arith

Findings-nil :
    (cs : List Connection) (cycles : List (List String))
    → Findings cs cycles
    → (cycles ≡ []) ↔ IsAcyclic (Links cs)
Findings-nil cs [] f = ((λ _. f), (λ _. refl))
Findings-nil cs (c ∷ others) f = (
  (λ e. absurd (ground arith)),
  (λ acyclic. let (x, r) = IsCycle→Reaches (Links cs) f in absurd (acyclic x r)),
)

abbrev pub Judged : List Node → List Connection → List String → Validation → Type 0
Judged nodes cs agents v = (v.is_valid ≡ true) ↔ IsWellFormed nodes cs agents

-- `validate_workflow` returns, and calls the workflow valid exactly if every node's agent is
-- available, both ends of every connection are nodes, every type is `sequential` or `parallel`, and
-- the sequential connections have no cycle.
pub validate_workflow-IsWellFormed :
    (nodes : List Node) (connections : List Connection) (agents : List String)
    → Returns (validate_workflow nodes connections agents) (Judged nodes connections agents)
unfolding validate_workflow
validate_workflow-IsWellFormed nodes cs agents =
    Returns-bind (detect_cycles cs) _ (Findings cs) (Judged nodes cs agents) (detect_cycles_lem cs)
      λ cycles _ f.
        let refs = validate_agent_references nodes agents in
        let conns = validate_connections nodes cs in
        let both = append-nil_iff refs conns in
        let all = append-nil_iff (refs ++ conns) (cycle_errors cycles) in
        let empty = is_empty_iff (refs ++ conns ++ cycle_errors cycles) in
        let no_refs = validate_agent_references-nil nodes agents in
        let no_conns = validate_connections-nil nodes cs in
        let no_cycles = cycle_errors-nil cycles in
        let sound = Findings-nil cs cycles f in
        (
          λ h.
              let (rc, d) = all.0 (empty.0 h) in
              let (r, c) = both.0 rc in
              record {
                agents_known = no_refs.0 r;
                wired = no_conns.0 c;
                acyclic = sound.0 (no_cycles.0 d);
              },
          λ w. empty.1 (
              all.1 (
                both.1 (no_refs.1 w.agents_known, no_conns.1 w.wired),
                no_cycles.1 (sound.1 w.acyclic),
              )),
        )
