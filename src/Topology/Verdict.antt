-- ===== src/Topology/Verdict.antt =====
-- `validate_topology` reports no error exactly for a topology of its declared shape.
use delaxis.Prelude.{
  ℕ, ◌+◌, ◌<◌, String, Bool, true, false, not, ◌&&◌, List, [], ◌∷◌, ◌++◌, length, contains, keys,
  All, All-at, All-of_members, ◌≡◌, refl, ◌∙◌, sym, ◌↔◌, ◌⊎◌, inl, inr, arith, nat_eq, ltb,
}
use delaxis.Prelude.Outcome.{ret, Returns, Returns-bind, ◌>>=◌}
use delaxis.Graph.{Graph, HasEdge, Reaches, IsAcyclic}
use delaxis.Graph.Chains.{Reaches-mono}
use delaxis.Reachability.{get_reachable_nodes}
use delaxis.Reachability.Search.{IsReachable, get_reachable_nodes-IsReachable}
use delaxis.CycleCheck.{has_cycle}
use delaxis.CycleCheck.Verdict.{Decides, has_cycle_lem}
use delaxis.Topology.{
  TopologyType, single, sequential, tree, graph, AgentNode, AgentEdge, TopologyConfig,
  TopologyError, node_ids, validate_edges, build_adjacency, unreachable, unreachable_errors,
  reachability_errors, parent_errors, type_errors, validate_topology, when, single_nodes,
  single_edges, sequential_edges, sequential_cycle, tree_cycle, graph_termination,
}
use delaxis.Topology.Adjacency.{Connects, IsAdjacency, build_adjacency-IsAdjacency}
use delaxis.Topology.Parents.{in_degree, tabulate, count_parents-tabulate, parent_errors-nil}

-- Walks over the edges lead from the entry node to every node.
abbrev pub IsSpanned : TopologyConfig → Type 0
IsSpanned t =
    (n : String)
    → contains n (node_ids t.nodes) ≡ true
    → (t.entry_node ≡ n) ⊎ Reaches (Connects t.edges) t.entry_node n

-- Exactly one edge leads to each node but the entry.
abbrev pub HasParents : TopologyConfig → Type 0
HasParents t =
    (n : String)
    → contains n (node_ids t.nodes) ≡ true
    → (n ≡ t.entry_node) ⊎ (in_degree t.edges n ≡ 1)

-- What each type of topology asks for.
abbrev pub IsShaped : TopologyType → TopologyConfig → Type 0
IsShaped single t = (length t.nodes ≡ 1) × (t.edges ≡ [])
IsShaped sequential t =
    IsSpanned t × ((length t.edges + 1 ≡ length t.nodes) × IsAcyclic (Connects t.edges))
IsShaped tree t = IsSpanned t × (IsAcyclic (Connects t.edges) × HasParents t)
IsShaped graph t = IsSpanned t × (IsAcyclic (Connects t.edges) ⊎ (0 < t.termination_conditions))

append-nil_iff : (xs ys : List TopologyError) → ((xs ++ ys) ≡ []) ↔ ((xs ≡ []) × (ys ≡ []))
append-nil_iff [] ys = ground arith
append-nil_iff (x ∷ xs) ys = ground arith

unreachable-nil :
    (ns reachable : List String)
    → (unreachable ns reachable ≡ []) ↔ All (λ n. contains n reachable ≡ true) ns
unfolding unreachable
unreachable-nil [] reachable = ground arith
unreachable-nil (n ∷ ns) reachable = ground (arith, unreachable-nil ns reachable)

length-zero : {A : Type 0} (xs : List A) → (length xs ≡ 0) ↔ (xs ≡ [])
length-zero [] = ground arith
length-zero (x ∷ xs) = ground arith

-- The checks of each type, with `A` for the absence of cycles and `B` for the parents.
single-nil :
    (nodes : List AgentNode) (edges : List AgentEdge)
    → ((when (not (nat_eq (length nodes) 1)) (single_nodes (length nodes))
          ++ when (ltb 0 (length edges)) (single_edges (length edges)))
        ≡ [])
      ↔ ((length nodes ≡ 1) × (edges ≡ []))
single-nil nodes edges = ground (arith, length-zero edges)

module _ (A B : Type 0) (cyclic : Bool) (decided : (cyclic ≡ false) ↔ A) where
  sequential-nil :
      (m n : ℕ)
      → ((when (not (nat_eq (m + 1) n)) (sequential_edges m n) ++ when cyclic sequential_cycle)
          ≡ [])
        ↔ ((m + 1 ≡ n) × A)
  sequential-nil m n = ground (arith, decided)

  tree-nil :
      (es : List TopologyError) → (es ≡ []) ↔ B → ((when cyclic tree_cycle ++ es) ≡ []) ↔ (A × B)
  tree-nil es parents = ground (arith, decided, parents)

  graph-nil :
      (conditions : ℕ)
      → (when (cyclic && nat_eq conditions 0) graph_termination ≡ []) ↔ (A ⊎ (0 < conditions))
  graph-nil conditions = ground (arith, decided)

-- Two lists of errors, two parts of the shape.
both-nil :
    (A B : Type 0) (xs ys : List TopologyError)
    → (xs ≡ []) ↔ A
    → (ys ≡ []) ↔ B
    → ((xs ++ ys) ≡ []) ↔ (A × B)
both-nil A B xs ys a b = ground (arith, append-nil_iff xs ys, a, b)

module _ (t : TopologyConfig) (g : Graph) (adjacency : IsAdjacency t g) where
  IsReachable→ :
      (x : String)
      → IsReachable g t.entry_node x
      → (t.entry_node ≡ x) ⊎ Reaches (Connects t.edges) t.entry_node x
  IsReachable→ x (inl same) = inl same
  IsReachable→ x (inr r) =
      inr (Reaches-mono (HasEdge g) (Connects t.edges) (λ a b. (adjacency.edges a b).0) r)

  →IsReachable :
      (x : String)
      → (t.entry_node ≡ x) ⊎ Reaches (Connects t.edges) t.entry_node x
      → IsReachable g t.entry_node x
  →IsReachable x (inl same) = inl same
  →IsReachable x (inr r) =
      inr (Reaches-mono (Connects t.edges) (HasEdge g) (λ a b. (adjacency.edges a b).1) r)

  IsAcyclic-iff : IsAcyclic (HasEdge g) ↔ IsAcyclic (Connects t.edges)
  IsAcyclic-iff = (
    λ h x r. h x (Reaches-mono (Connects t.edges) (HasEdge g) (λ a b. (adjacency.edges a b).1) r),
    λ h x r. h x (Reaches-mono (HasEdge g) (Connects t.edges) (λ a b. (adjacency.edges a b).0) r),
  )

  cyclic_iff : (b : Bool) → Decides g b → (b ≡ false) ↔ IsAcyclic (Connects t.edges)
  cyclic_iff true (x, r) = ((λ e. absurd (ground arith)), (λ h. absurd (IsAcyclic-iff.1 h x r)))
  cyclic_iff false d = ((λ e. IsAcyclic-iff.0 d), (λ h. refl))

  IsSpanned-iff :
      (reachable : List String)
      → ((x : String) → (contains x reachable ≡ true) ↔ IsReachable g t.entry_node x)
      → (unreachable (keys g) reachable ≡ []) ↔ IsSpanned t
  IsSpanned-iff reachable exact =
      let (to, from) = unreachable-nil (keys g) reachable in
      (
        λ h n m. IsReachable→ n ((exact n).0 (All-at _ n (keys g) (adjacency.listed n ∙ m) (to h))),
        λ h. from (
            All-of_members _ (keys g)
              (λ n m. (exact n).1 (→IsReachable n (h n (sym (adjacency.listed n) ∙ m))))),
      )

  HasParents-iff :
      (parent_errors t.entry_node (tabulate (λ k. 0 + in_degree t.edges k) (keys g)) ≡ [])
      ↔ HasParents t
  HasParents-iff =
      let (to, from) = parent_errors-nil t.entry_node (λ k. 0 + in_degree t.edges k) (keys g) in
      (
        λ h n m. ground (arith, All-at _ n (keys g) (adjacency.listed n ∙ m) (to h)),
        λ h.
            from (
              All-of_members _ (keys g)
                (λ n m. ground (arith, h n (sym (adjacency.listed n) ∙ m)))),
      )

  unreachable_errors-nil : (ns : List String) → (unreachable_errors ns ≡ []) ↔ (ns ≡ [])
  unfolding unreachable_errors
  unreachable_errors-nil [] = ground arith
  unreachable_errors-nil (n ∷ ns) = ground arith

  abbrev Spans : List TopologyError → Type 0
  Spans es = (es ≡ []) ↔ IsSpanned t

  reachability-Spans :
      Returns
        (get_reachable_nodes t.entry_node g >>= λ reachable.
          ret (unreachable_errors (unreachable (keys g) reachable)))
        Spans
  reachability-Spans =
      Returns-bind (get_reachable_nodes t.entry_node g) _ _ Spans
        (get_reachable_nodes-IsReachable g t.entry_node)
        λ reachable _ exact.
          let (to, from) = IsSpanned-iff reachable exact in
          let (only, if_nil) = unreachable_errors-nil (unreachable (keys g) reachable) in
          (λ h. to (only h), λ h. if_nil (from h))

  -- The part of the shape that the second half of the checks is about.
  abbrev Constraint : TopologyType → Type 0
  Constraint single = (length t.nodes ≡ 1) × (t.edges ≡ [])
  Constraint sequential = (length t.edges + 1 ≡ length t.nodes) × IsAcyclic (Connects t.edges)
  Constraint tree = IsAcyclic (Connects t.edges) × HasParents t
  Constraint graph = IsAcyclic (Connects t.edges) ⊎ (0 < t.termination_conditions)

  type_errors-Constraint :
      validate_edges t.nodes t.edges ≡ true
      → (type : TopologyType) → Returns (type_errors type t g) (λ es. (es ≡ []) ↔ Constraint type)
  unfolding type_errors
  type_errors-Constraint valid single = single-nil t.nodes t.edges
  type_errors-Constraint valid sequential =
      Returns-bind (has_cycle g) _ (Decides g) _ (has_cycle_lem g) λ cyclic _ d.
        sequential-nil (IsAcyclic (Connects t.edges)) Unit cyclic (cyclic_iff cyclic d)
          (length t.edges) (length t.nodes)
  type_errors-Constraint valid tree =
      Returns-bind (has_cycle g) _ (Decides g) _ (has_cycle_lem g) λ cyclic _ d.
        rw
          (count_parents-tabulate t.nodes t.edges (λ _. 0) (keys g) adjacency.distinct
            adjacency.listed valid)
          (tree-nil (IsAcyclic (Connects t.edges)) (HasParents t) cyclic (cyclic_iff cyclic d) _
            HasParents-iff)
  type_errors-Constraint valid graph =
      Returns-bind (has_cycle g) _ (Decides g) _ (has_cycle_lem g) λ cyclic _ d.
        graph-nil (IsAcyclic (Connects t.edges)) Unit cyclic (cyclic_iff cyclic d)
          t.termination_conditions

  spanning :
      (type : TopologyType)
      → Returns (type_errors type t g) (λ es. (es ≡ []) ↔ Constraint type)
      → Returns
          (get_reachable_nodes t.entry_node g
            >>= (λ reachable. ret (unreachable_errors (unreachable (keys g) reachable)))
            >>= λ errors. type_errors type t g >>= λ more. ret (errors ++ more))
          (λ es. (es ≡ []) ↔ (IsSpanned t × Constraint type))
  spanning type constraint = Returns-bind _ _ Spans _ reachability-Spans λ errors _ spans.
      Returns-bind (type_errors type t g) _ _ _ constraint
        λ more _ c. both-nil (IsSpanned t) (Constraint type) errors more spans c

  checks_lem :
      validate_edges t.nodes t.edges ≡ true
      → (type : TopologyType)
      → Returns
          (reachability_errors type t g >>= λ errors.
            type_errors type t g >>= λ more. ret (errors ++ more))
          (λ es. (es ≡ []) ↔ IsShaped type t)
  unfolding reachability_errors
  checks_lem valid single =
      Returns-bind (type_errors single t g) _ _ _ (type_errors-Constraint valid single)
        λ more _ c. c
  checks_lem valid sequential = spanning sequential (type_errors-Constraint valid sequential)
  checks_lem valid tree = spanning tree (type_errors-Constraint valid tree)
  checks_lem valid graph = spanning graph (type_errors-Constraint valid graph)

-- For a topology whose edges join its nodes, as the field validator demands, `validate_topology`
-- returns, and it reports no error exactly if the topology has the shape of its type: one node and
-- no edge for `single`; and else walks from the entry node to every node, with one edge less than
-- nodes and no cycle for `sequential`, no cycle and one parent for each node but the entry for
-- `tree`, and no cycle or some termination condition for `graph`.
pub validate_topology-IsShaped :
    (t : TopologyConfig)
    → validate_edges t.nodes t.edges ≡ true
    → Returns (validate_topology t) (λ errors. (errors ≡ []) ↔ IsShaped t.type t)
unfolding validate_topology
validate_topology-IsShaped t valid =
    Returns-bind (build_adjacency t) _ (IsAdjacency t) _ (build_adjacency-IsAdjacency t valid)
      λ g _ adjacency. checks_lem t g adjacency valid t.type
