-- ===== src/Graph/Targets.antt =====
-- The targets of a graph hold the end of every edge.
use delaxis.Prelude.{String, [], ◌∷◌, ◌≡◌, true, contains, contains-append, lookup, arith}
use delaxis.Graph.{Graph, neighbors, targets, HasEdge}

pub HasEdge-targets : (g : Graph) (x y : String) → HasEdge g x y → contains y (targets g) ≡ true
unfolding neighbors lookup targets contains
HasEdge-targets [] x y h = ground arith
HasEdge-targets ((n, ns) ∷ g) x y h =
    ground (arith, HasEdge-targets g x y, contains-append y ns (targets g))
