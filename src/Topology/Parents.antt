-- ===== src/Topology/Parents.antt =====
-- The parents that the tree check counts are the edges that lead to a node.
use delaxis.Prelude.{
  ℕ, ◌+◌, String, ◌==◌, eq_iff, true, List, [], ◌∷◌, map, contains, All, ◌≡◌, refl, ap, ◌∙◌, ◌↔◌,
  ◌⊎◌, inl, inr, Bool-cases, arith, if◌then◌else◌,
}
use delaxis.Prelude.Outcome.{ret}
use delaxis.Topology.{
  AgentNode, AgentEdge, node_ids, validate_edges, bump, count_parents, parent_errors,
}
use delaxis.Topology.Adjacency.{IsDistinct}

-- How many edges lead to a node.
unfoldable pub in_degree : List AgentEdge → String → ℕ
in_degree [] n = 0
in_degree (e ∷ es) n = (if e.to_node == n then 1 else 0) + in_degree es n

-- A dictionary over the given keys.
abbrev pub tabulate : (String → ℕ) → List String → List (String × ℕ)
tabulate f ks = map (λ k. (k, f k)) ks

tabulate-ext :
    (f g : String → ℕ) (ks : List String)
    → ((k : String) → contains k ks ≡ true → f k ≡ g k)
    → tabulate f ks ≡ tabulate g ks
unfolding contains
tabulate-ext f g [] h = refl
tabulate-ext f g (k ∷ ks) h =
    let rest = tabulate-ext f g ks (λ j m. h j (ground arith)) in
    let here = h k (ground (arith, eq_iff k k)) in cc (rest, here)

abbrev raised : String → (String → ℕ) → String → ℕ
raised n f k = f k + (if n == k then 1 else 0)

bump-tabulate :
    (n : String) (f : String → ℕ) (ks : List String)
    → IsDistinct ks
    → contains n ks ≡ true
    → bump n (tabulate f ks) ≡ ret (tabulate (raised n f) ks)
unfolding bump contains
bump-tabulate n f [] d h = ground arith
bump-tabulate n f (k ∷ ks) d h = elim (Bool-cases (k == n)) [
  | inl same ↦
      let rest = tabulate-ext f (raised n f) ks (λ j m. ground (arith, eq_iff k n, eq_iff n j)) in
      let here : f k + 1 ≡ raised n f k = ground (arith, eq_iff k n, eq_iff n k) in
      rw same (cc (rest, here))
  | inr other ↦
      let here : f k ≡ raised n f k = ground (arith, eq_iff k n, eq_iff n k) in
      rw (other, bump-tabulate n f ks d.1 (ground arith)) (cc here)
]

pub count_parents-tabulate :
    (nodes : List AgentNode) (es : List AgentEdge) (f : String → ℕ) (ks : List String)
    → IsDistinct ks
    → ((x : String) → contains x ks ≡ contains x (node_ids nodes))
    → validate_edges nodes es ≡ true
    → count_parents es (tabulate f ks) ≡ ret (tabulate (λ k. f k + in_degree es k) ks)
unfolding count_parents validate_edges in_degree
count_parents-tabulate nodes [] f ks d listed valid =
    ap ret (tabulate-ext f _ ks (λ k h. omega arith))
count_parents-tabulate nodes (e ∷ es) f ks d listed valid =
    rw (bump-tabulate e.to_node f ks d (listed e.to_node ∙ ground arith)) (
      count_parents-tabulate nodes es (raised e.to_node f) ks d listed (ground arith)
      ∙ ap ret (tabulate-ext _ _ ks (λ k h. omega arith)))

-- No error exactly if every key but the entry has one parent.
pub parent_errors-nil :
    (entry : String) (f : String → ℕ) (ks : List String)
    → (parent_errors entry (tabulate f ks) ≡ []) ↔ All (λ n. (n ≡ entry) ⊎ (f n ≡ 1)) ks
unfolding parent_errors
parent_errors-nil entry f [] = ground arith
parent_errors-nil entry f (k ∷ ks) = ground (arith, parent_errors-nil entry f ks, eq_iff k entry)
