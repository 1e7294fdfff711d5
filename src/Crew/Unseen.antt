-- ===== src/Crew/Unseen.antt =====
-- src/crewai_runtime/runtime.py: the nodes that `_ordered_nodes` has not seen yet.
use mathlib.Core.List.{Perm}
use mathlib.Core.List.Perm
use delaxis.Prelude.{
  String, ◌==◌, true, false, none, some, List, [], ◌∷◌, contains, add, if◌then◌else◌, Distinct,
  contains-add, ◌≡◌, refl, ap, subst, ◌∙◌, arith, Bool-cases, Option-cases, inl, inr, str_eq_iff,
}
use delaxis.Topology.{AgentNode, node_ids}
use delaxis.Crew.Order.{find_node, unseen}

pub find_node-none :
    (i : String) (nodes : List AgentNode)
    → find_node i nodes ≡ none
    → contains i (node_ids nodes) ≡ false
unfolding find_node contains
find_node-none i [] e = refl
find_node-none i (m ∷ nodes) e = ground (arith, find_node-none i nodes)

pub find_node-some :
    (i : String) (nodes : List AgentNode) (n : AgentNode)
    → find_node i nodes ≡ some n
    → (contains i (node_ids nodes) ≡ true) × (n.id ≡ i)
unfolding find_node contains
find_node-some i [] n e = cc
find_node-some i (m ∷ nodes) n e = elim (Option-cases (find_node i nodes)) [
  | inl missing ↦
      let at : (if m.id == i then some m else none) ≡ some n = (rw missing at e) in
      let hit : (m.id == i) ≡ true = ground (arith, at) in
      let same : m ≡ n = (let e' : some m ≡ some n = ground (arith, at) in cc) in
      (rw hit refl, subst (λ x. x.id ≡ i) same ((str_eq_iff m.id i).0 hit))
  | inr (k, found) ↦
      let same : k ≡ n = (let e' = (rw found at e) in cc) in
      let (there, named) = find_node-some i nodes k found in
      (ground (arith, there), subst (λ x. x.id ≡ i) same named)
]

pub unseen-absent :
    (i : String) (seen : List String) (nodes : List AgentNode)
    → contains i (node_ids nodes) ≡ false
    → unseen (add i seen) nodes ≡ unseen seen nodes
unfolding unseen contains
unseen-absent i seen [] h = refl
unseen-absent i seen (m ∷ nodes) h = ground (
  arith,
  unseen-absent i seen nodes,
  contains-add m.id i seen,
  str_eq_iff i m.id,
  str_eq_iff m.id i,
)

unseen-hit :
    (seen : List String) (m : AgentNode) (nodes : List AgentNode)
    → contains m.id seen ≡ true
    → unseen seen (m ∷ nodes) ≡ unseen seen nodes
unfolding unseen
unseen-hit seen m nodes h = rw h

unseen-miss :
    (seen : List String) (m : AgentNode) (nodes : List AgentNode)
    → contains m.id seen ≡ false
    → unseen seen (m ∷ nodes) ≡ m ∷ unseen seen nodes
unfolding unseen
unseen-miss seen m nodes h = rw h

-- To see a fresh node takes it, and nothing else, from the unseen nodes.
pub unseen-add :
    (i : String) (seen : List String) (nodes : List AgentNode) (n : AgentNode)
    → Distinct (node_ids nodes)
    → contains i seen ≡ false
    → find_node i nodes ≡ some n
    → Perm (unseen seen nodes) (n ∷ unseen (add i seen) nodes)
unfolding find_node
unseen-add i seen [] n d fresh e = absurd (cc)
unseen-add i seen (m ∷ nodes) n d fresh e = elim (Option-cases (find_node i nodes)) [
  | inl missing ↦
      let at : (if m.id == i then some m else none) ≡ some n = (rw missing at e) in
      let hit : (m.id == i) ≡ true = ground (arith, at) in
      let named : m.id ≡ i = (str_eq_iff m.id i).0 hit in
      let same : m ≡ n = (let e' : some m ≡ some n = ground (arith, at) in cc) in
      let new : contains m.id seen ≡ false = ground (arith, fresh, named) in
      let old : contains m.id (add i seen) ≡ true =
        contains-add m.id i seen ∙ ground (arith, str_eq_iff i m.id, named) in
      rw
        (
          unseen-miss seen m nodes new,
          unseen-hit (add i seen) m nodes old,
          unseen-absent i seen nodes (find_node-none i nodes missing),
          same,
        )
        (Perm.refl _)
  | inr (k, found) ↦
      let same : k ≡ n = (let e' = (rw found at e) in cc) in
      let later = unseen-add i seen nodes n d.1 fresh (found ∙ ap some same) in
      let apart : (i == m.id) ≡ false =
        ground (arith, d.0, (find_node-some i nodes k found).0, str_eq_iff i m.id) in
      let kept : contains m.id (add i seen) ≡ contains m.id seen =
        contains-add m.id i seen ∙ ground (arith, apart) in
      elim (Bool-cases (contains m.id seen)) [
        | inl old ↦
            rw (unseen-hit seen m nodes old, unseen-hit (add i seen) m nodes (kept ∙ old)) later
        | inr new ↦
            rw (unseen-miss seen m nodes new, unseen-miss (add i seen) m nodes (kept ∙ new))
              (Perm.trans (Perm.cons m later) (Perm.swap n m (unseen (add i seen) nodes)))
      ]
]

pub unseen-nil : (nodes : List AgentNode) → unseen [] nodes ≡ nodes
unfolding unseen contains
unseen-nil [] = refl
unseen-nil (n ∷ nodes) = ap (λ l. n ∷ l) (unseen-nil nodes)
