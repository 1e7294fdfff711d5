-- ===== src/Validation/Warnings.antt =====
-- The warning about disconnected nodes, and the errors that name agents.
use delaxis.Prelude.{
  String, eq_iff, true, List, [], ◌∷◌, contains, contains-add, ◌≡◌, refl, ◌↔◌, ◌⊎◌, arith, ◌&&◌,
  add, not,
}
use delaxis.Cycles.{Connection}
use delaxis.Validation.{Node, node_ids, connected_nodes, disconnected}

-- Some connection begins or ends at the node.
abbrev pub IsTouched : List Connection → String → Type 0
IsTouched [] x = ⊥
IsTouched (c ∷ cs) x = (c.from_node ≡ x) ⊎ (c.to_node ≡ x) ⊎ IsTouched cs x

contains-connected_nodes :
    (cs : List Connection) (x : String) → (contains x (connected_nodes cs) ≡ true) ↔ IsTouched cs x
unfolding connected_nodes contains
contains-connected_nodes [] x = ground arith
contains-connected_nodes (c ∷ cs) x = ground (
  arith,
  contains-connected_nodes cs x,
  contains-add x c.from_node (add c.to_node (connected_nodes cs)),
  contains-add x c.to_node (connected_nodes cs),
  eq_iff c.from_node x,
  eq_iff c.to_node x,
)

contains-disconnected :
    (nodes : List Node) (connected : List String) (x : String)
    → contains x (disconnected nodes connected)
      ≡ (contains x (node_ids nodes) && not (contains x connected))
unfolding disconnected contains
contains-disconnected [] connected x = refl
contains-disconnected (n ∷ nodes) connected x = ground (
  arith,
  contains-disconnected nodes connected x,
  contains-add x n.id (disconnected nodes connected),
  eq_iff n.id x,
)

-- The nodes that the warning lists are exactly the nodes of the canvas that no connection, sequential
-- or not, begins or ends at.
pub disconnected-IsTouched :
    (nodes : List Node) (connections : List Connection) (x : String)
    → (contains x (disconnected nodes (connected_nodes connections)) ≡ true)
      ↔ ((contains x (node_ids nodes) ≡ true) × ¬ IsTouched connections x)
disconnected-IsTouched nodes cs x =
    ground
      (arith, contains-disconnected nodes (connected_nodes cs) x, contains-connected_nodes cs x)
