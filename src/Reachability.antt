-- ===== src/Reachability.antt =====
-- src/config/topology_models.py, `_get_reachable_nodes`: breadth-first search from the entry node.
-- The queue takes one node for each fresh target of an edge, so their number bounds the rounds.
pub mod Search
use delaxis.Prelude.{ℕ, zero, suc, String, List, [], ◌∷◌, ◌++◌, length, contains, if◌then◌else◌}
use delaxis.Prelude.Outcome.{Outcome, ret, out_of_fuel}
use delaxis.Graph.{Graph, neighbors, targets}

-- The loop over the neighbors of the node that was taken from the queue.
unfoldable pub enqueue : List String → List String × List String → List String × List String
enqueue [] (visited, queue) = (visited, queue)
enqueue (n ∷ ns) (visited, queue) =
    enqueue ns (if contains n visited then (visited, queue) else (n ∷ visited, queue ++ n ∷ []))

unfoldable pub bfs : ℕ → Graph → List String → List String → Outcome (List String)
bfs fuel g visited [] = ret visited
bfs zero g visited (current ∷ queue) = out_of_fuel
bfs (suc fuel) g visited (current ∷ queue) =
    let (visited', queue') = enqueue (neighbors g current) (visited, queue) in
    bfs fuel g visited' queue'

unfoldable pub get_reachable_nodes : String → Graph → Outcome (List String)
get_reachable_nodes start g = bfs (suc (length (targets g))) g (start ∷ []) (start ∷ [])
