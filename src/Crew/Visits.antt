-- ===== src/Crew/Visits.antt =====
-- src/crewai_runtime/runtime.py: `_ordered_nodes` puts every node in the order once, the entry first.
use mathlib.Core.List.{Perm}
use mathlib.Core.List.Perm
use delaxis.Prelude.{
  ℕ, zero, suc, ◌≤◌, ◌<◌, String, ◌==◌, true, false, some, List, [], ◌∷◌, ◌++◌, append-nil,
  append_assoc, length, contains, add, Distinct, Subset, contains-add, ◌≡◌, refl, sym, ap, subst,
  ◌∙◌, arith, Bool-cases, Option-cases, inl, inr,
}
use delaxis.Prelude.Outcome.{Outcome, ret, Returns, Returns-bind, Returns-weaken, ◌>>=◌}
use delaxis.Topology.{AgentNode, AgentEdge, TopologyConfig, node_ids}
use delaxis.Graph.Unvisited.{unvisited, unvisited-visit, unvisited-le-length, unvisited_mono}
use delaxis.Crew.Unseen.{find_node-none, find_node-some, unseen-absent, unseen-add, unseen-nil}
use delaxis.Crew.Order.{
  find_node, Visited, enter, visit_targets, visit_found, visit, unseen, entry_first, order_by,
  ordered_nodes,
}

visit_targets-own :
    (visit : String → Visited → Outcome Visited) (i : String) (e : AgentEdge)
    (edges : List AgentEdge) (s : Visited)
    → (e.from_node == i) ≡ true
    → visit_targets visit i (e ∷ edges) s ≡ (visit e.to_node s >>= visit_targets visit i edges)
unfolding visit_targets
visit_targets-own visit i e edges s h = ground arith

visit_targets-other :
    (visit : String → Visited → Outcome Visited) (i : String) (e : AgentEdge)
    (edges : List AgentEdge) (s : Visited)
    → (e.from_node == i) ≡ false
    → visit_targets visit i (e ∷ edges) s ≡ visit_targets visit i edges s
unfolding visit_targets
visit_targets-other visit i e edges s h = ground arith

visit-old :
    (fuel : ℕ) (t : TopologyConfig) (i : String) (s : Visited)
    → contains i s.seen ≡ true
    → visit (suc fuel) t i s ≡ ret s
unfolding visit
visit-old fuel t i s h = ground arith

visit-fresh :
    (fuel : ℕ) (t : TopologyConfig) (i : String) (s : Visited)
    → contains i s.seen ≡ false
    → visit (suc fuel) t i s ≡ visit_found (visit fuel t) i t.edges (find_node i t.nodes) s
unfolding visit
visit-fresh fuel t i s h = ground arith

length-map : (nodes : List AgentNode) → length (node_ids nodes) ≡ length nodes
length-map [] = refl
length-map (n ∷ nodes) = ap suc (length-map nodes)

first-node : (n m : AgentNode) (more : List AgentNode) → n ≡ m → n ∷ more ≡ m ∷ more
first-node n m more e = ap (λ k. k ∷ more) e

module _ (t : TopologyConfig) (distinct : Distinct (node_ids t.nodes)) where
  -- What is in the order and what is not yet seen make up the nodes.
  IsSplit : Visited → Type 0
  IsSplit s = Perm (s.ordered ++ unseen s.seen t.nodes) t.nodes

  -- The order and the seen ids only grow.
  record Grows (s s' : Visited) : Type 0 where
    more : List AgentNode
    longer : s'.ordered ≡ s.ordered ++ more
    seen_more : Subset s.seen s'.seen

  Done : Visited → Visited → Type 0
  Done s s' = IsSplit s' × Grows s s'

  Grows-refl : (s : Visited) → Grows s s
  Grows-refl s = record { more = []; longer = sym (append-nil s.ordered); seen_more = λ x h. h }

  Grows-trans : {a b c : Visited} → Grows a b → Grows b c → Grows a c
  Grows-trans {a} g h = record {
    more = g.more ++ h.more;
    longer = h.longer ∙ (ap (λ l. l ++ h.more) g.longer ∙ append_assoc a.ordered g.more h.more);
    seen_more = λ x m. h.seen_more x (g.seen_more x m);
  }

  enter-IsSplit :
      (i : String) (n : AgentNode) (s : Visited)
      → contains i s.seen ≡ false
      → find_node i t.nodes ≡ some n
      → IsSplit s
      → Done s (enter n i s)
  unfolding IsSplit Done enter
  enter-IsSplit i n s fresh e split = (
    rw (append_assoc s.ordered (n ∷ []) (unseen (add i s.seen) t.nodes)) (
        Perm.trans
          (Perm.append_left s.ordered (Perm.symm (unseen-add i s.seen t.nodes n distinct fresh e)))
          split),
    record {
      more = n ∷ [];
      longer = refl;
      seen_more = λ x m. contains-add x i s.seen ∙ ground (arith, m);
    },
  )

  left : Visited → ℕ
  left s = unvisited (node_ids t.nodes) s.seen

  left_mono : {s s' : Visited} → Grows s s' → left s' ≤ left s
  unfolding left
  left_mono {s} {s'} g = unvisited_mono (node_ids t.nodes) s.seen s'.seen g.seen_more

  left-enter :
      (i : String) (n : AgentNode) (s : Visited)
      → contains i s.seen ≡ false
      → find_node i t.nodes ≡ some n
      → left (enter n i s) < left s
  unfolding left enter add
  left-enter i n s fresh e =
      rw fresh (unvisited-visit (node_ids t.nodes) s.seen i (find_node-some i t.nodes n e).0 fresh)

  -- What a recursive call with this fuel does.
  Visits : ℕ → Type 0
  Visits fuel =
      (i : String) (s : Visited) → left s < fuel → IsSplit s → Returns (visit fuel t i s) (Done s)

  visit_targets-Done :
      (fuel : ℕ)
      → Visits fuel
      → (i : String) (edges : List AgentEdge) (s : Visited) → left s < fuel
      → IsSplit s
      → Returns (visit_targets (visit fuel t) i edges s) (Done s)
  unfolding visit_targets Done Visits
  visit_targets-Done fuel visits i [] s enough split = (split, Grows-refl s)
  visit_targets-Done fuel visits i (e ∷ edges) s enough split =
      elim (Bool-cases (e.from_node == i)) [
        | inr other ↦
            rw (visit_targets-other (visit fuel t) i e edges s other)
              (visit_targets-Done fuel visits i edges s enough split)
        | inl own ↦ rw (visit_targets-own (visit fuel t) i e edges s own) (
            Returns-bind (visit fuel t e.to_node s) (visit_targets (visit fuel t) i edges) (Done s)
              (Done s) (visits e.to_node s enough split)
              (λ s' ran done.
                Returns-weaken (visit_targets (visit fuel t) i edges s') (Done s') (Done s)
                  (visit_targets-Done fuel visits i edges s'
                    (omega (arith, left_mono done.1, enough)) done.0)
                  (λ s'' done'. (done'.0, Grows-trans done.1 done'.1))))
      ]

  visit-Done : (fuel : ℕ) → Visits fuel
  unfolding visit_found Visits Done
  visit-Done zero i s enough split = absurd (omega (arith, enough))
  visit-Done (suc fuel) i s enough split = elim (Bool-cases (contains i s.seen)) [
    | inl old ↦ rw (visit-old fuel t i s old) (split, Grows-refl s)
    | inr fresh ↦ elim (Option-cases (find_node i t.nodes)) [
      | inl missing ↦ rw (visit-fresh fuel t i s fresh, missing) (split, Grows-refl s)
      | inr (n, found) ↦
          let (split', grown) = enter-IsSplit i n s fresh found split in
          rw (visit-fresh fuel t i s fresh, found)
            (Returns-weaken (visit_targets (visit fuel t) i t.edges (enter n i s))
              (Done (enter n i s)) (Done s)
              (visit_targets-Done fuel (visit-Done fuel) i t.edges (enter n i s)
                (omega (arith, left-enter i n s fresh found, enough)) split')
              (λ s' done. (done.0, Grows-trans grown done.1)))
    ]
  ]

  start : Visited
  start = record { seen = []; ordered = [] }

  start-IsSplit : IsSplit start
  unfolding start IsSplit
  start-IsSplit = rw (unseen-nil t.nodes) (Perm.refl t.nodes)

  left-bound : (s : Visited) → left s < suc (length t.nodes)
  unfolding left
  left-bound s = omega (arith, unvisited-le-length (node_ids t.nodes) s.seen, length-map t.nodes)

  -- An order of all the nodes, each once, in which the entry node comes first if there is one.
  pub record IsOrder (order : List AgentNode) : Type 0 where
    pub complete : Perm order t.nodes
    pub entry_first :
        (n : AgentNode)
        → find_node t.entry_node t.nodes ≡ some n
        → (rest : List AgentNode) × (order ≡ n ∷ rest)

  -- The order starts with the entry node, if there is one.
  Leads : Visited → Type 0
  Leads s =
      (n : AgentNode)
      → find_node t.entry_node t.nodes ≡ some n
      → (more : List AgentNode) × (s.ordered ≡ n ∷ more)

  visit-Leads :
      Returns (visit (suc (length t.nodes)) t t.entry_node start) (λ s. Done start s × Leads s)
  unfolding Leads Done visit_found start contains enter
  visit-Leads = elim (Option-cases (find_node t.entry_node t.nodes)) [
    | inl missing ↦
        rw (visit-fresh (length t.nodes) t t.entry_node start refl, missing)
          ((start-IsSplit, Grows-refl start), λ n found. cc)
    | inr (n, found) ↦
        let (split', grown) = enter-IsSplit t.entry_node n start refl found start-IsSplit in
        rw (visit-fresh (length t.nodes) t t.entry_node start refl, found)
          (Returns-weaken
            (visit_targets (visit (length t.nodes) t) t.entry_node t.edges
              (enter n t.entry_node start))
            (Done (enter n t.entry_node start)) _
            (visit_targets-Done (length t.nodes) (visit-Done (length t.nodes)) t.entry_node t.edges
              (enter n t.entry_node start)
              (omega (arith, left-enter t.entry_node n start refl found, left-bound start)) split')
            (λ s done. (
              (done.0, Grows-trans grown done.1),
              λ m at.
                  let same : n ≡ m = cc in
                  (done.1.more, done.1.longer ∙ first-node n m done.1.more same),
            )))
  ]

  order_by_edges :
      (e : AgentEdge) (edges : List AgentEdge) → Returns (order_by (e ∷ edges) t) IsOrder
  unfolding order_by IsSplit Done Leads start
  order_by_edges e edges =
      Returns-bind (visit (suc (length t.nodes)) t t.entry_node start)
        (λ s. ret (s.ordered ++ unseen s.seen t.nodes)) (λ s. Done start s × Leads s) IsOrder
        visit-Leads
        (λ s ran done. record {
          complete = done.0.0;
          entry_first = λ n found.
              let (more, at) = done.1 n found in
              (more ++ unseen s.seen t.nodes, ap (λ l. l ++ unseen s.seen t.nodes) at);
        })

  order_by_none : Returns (order_by [] t) IsOrder
  unfolding order_by entry_first add contains
  order_by_none = elim (Option-cases (find_node t.entry_node t.nodes)) [
    | inl missing ↦ rw missing (record {
      complete =
          rw
            (
              unseen-absent t.entry_node [] t.nodes (find_node-none t.entry_node t.nodes missing),
              unseen-nil t.nodes,
            )
            (Perm.refl t.nodes);
      entry_first = λ n found. cc;
    })
    | inr (n, found) ↦ rw found (record {
      complete = Perm.symm (
          subst (λ l. Perm l (n ∷ unseen (t.entry_node ∷ []) t.nodes)) (unseen-nil t.nodes)
            (unseen-add t.entry_node [] t.nodes n distinct refl found));
      entry_first = λ m at.
          let same : n ≡ m = cc in
          (
            unseen (t.entry_node ∷ []) t.nodes,
            ap (λ k. k ∷ unseen (t.entry_node ∷ []) t.nodes) same,
          );
    })
  ]

  order_by-IsOrder : (edges : List AgentEdge) → Returns (order_by edges t) IsOrder
  order_by-IsOrder [] = order_by_none
  order_by-IsOrder (e ∷ edges) = order_by_edges e edges

-- For a topology with distinct node ids, _ordered_nodes returns (the depth of its recursion is
-- bounded by the number of nodes), and what it returns is a permutation of the nodes in which the
-- entry node, if there is one, comes first: no node is left out or run twice, cycles or not.
pub ordered_nodes-IsOrder :
    (t : TopologyConfig) (distinct : Distinct (node_ids t.nodes))
    → Returns (ordered_nodes t) (IsOrder t distinct)
unfolding ordered_nodes
ordered_nodes-IsOrder t distinct = order_by-IsOrder t distinct t.edges
